-- ===== src/GroupChat/Tools.antt =====
-- The tool calls of groupchat_orchestrator.py: their streamed arguments, and that each is recorded
-- once.
use Prim.Native.String.{◌++◌ as string_append}
use package.text.Mathlib.Text.{starts_with}
use claimsintelligence.Base.{
  ℕ, zero, suc, String, Bool, true, false, not, ◌&&◌, ◌||◌, Option, none, some, List, [], ◌∷◌, ◌++◌,
  if◌then◌else◌, ◌==◌, string_key, pair_key, is_empty, member, length,
}
use claimsintelligence.Dict.{get, set}
use claimsintelligence.GroupChat.{
  Json, Arguments, absent, parsed, text, FunctionCall, ToolInfo, Content, item, entry, ChatMessage,
  tool_call, Orchestrator, is_some, emit,
}

-- bool(s) of a text that may be missing
abbrev pub truthy : Option String → Bool
truthy none = false
truthy (some s) = not (is_empty s)

abbrev pub call_of : Option String → Option String → Arguments → FunctionCall
call_of name call_id arguments = record { name = name; call_id = call_id; arguments = arguments }

abbrev pub is_call_type : Option String → Bool
is_call_type none = false
is_call_type (some t) = t == "function_call" || t == "tool_call"

unfoldable pub extract_function_calls : List Content → List FunctionCall
extract_function_calls [] = []
extract_function_calls (item name call_id arguments ∷ cs) =
    let rest = extract_function_calls cs in
    if truthy name && truthy call_id then call_of name call_id arguments ∷ rest else rest
extract_function_calls (entry kind name call_id arguments ∷ cs) =
    let rest = extract_function_calls cs in
    if is_call_type kind then call_of name call_id arguments ∷ rest else rest

-- Some kits send the whole text so far, others what is new.
unfoldable pub merge_streamed_args : Option String → String → String
merge_streamed_args none incoming = incoming
merge_streamed_args (some existing) incoming =
    if starts_with incoming existing
    then incoming
    else if starts_with existing incoming
    then existing
    else string_append existing incoming

abbrev pub usage_of : String → Orchestrator → List ToolInfo
usage_of agent s = elim (get s.agent_tool_usage agent) [ none ↦ [] | some l ↦ l ]

-- l[i] = x, for an index within the list
abbrev pub put_at {ℓ} : {A : Type ℓ} → List A → ℕ → A → List A
put_at [] i x = []
put_at (y ∷ ys) zero x = x ∷ ys
put_at (y ∷ ys) (suc i) x = y ∷ put_at ys i x

abbrev pub record_at : Option ℕ → String → String × String → ToolInfo → Orchestrator → Orchestrator
record_at none agent key info s = record s {
  agent_tool_usage = set s.agent_tool_usage agent (usage_of agent s ++ info ∷ []);
  tool_call_index = set s.tool_call_index key (length (usage_of agent s));
}
record_at (some i) agent key info s = record s {
  agent_tool_usage = set s.agent_tool_usage agent (put_at (usage_of agent s) i info);
}

abbrev pub mark_recorded : String × String → Orchestrator → Orchestrator
mark_recorded key s = record s { tool_call_recorded = key ∷ s.tool_call_recorded }

unfoldable pub record_tool_call : String → String × String → ToolInfo → Orchestrator → Orchestrator
record_tool_call agent key info s =
    mark_recorded key (record_at (get s.tool_call_index key) agent key info s)

unfoldable pub emit_tool_call_once : String → String × String → String → Orchestrator → Orchestrator
emit_tool_call_once agent key name s =
    if member key s.tool_call_emitted
    then s
    else emit (tool_call agent name) (record s { tool_call_emitted = key ∷ s.tool_call_emitted })

-- The arguments as they were parsed, if they are complete, and the state with what was buffered.
-- `loads` is `json.loads`, with none where it raises or gives None.
module _ (loads : String → Option Json) where
  abbrev pub buffer : String × String → String → Orchestrator → Option Arguments × Orchestrator
  buffer key incoming s =
      let merged = merge_streamed_args (get s.tool_call_arg_buffer key) incoming in
      (
        elim (loads merged) [ none ↦ none | some j ↦ some (parsed j) ],
        record s { tool_call_arg_buffer = set s.tool_call_arg_buffer key merged },
      )

  unfoldable pub parse_or_buffer_tool_args :
      String × String → Arguments → Orchestrator → Option Arguments × Orchestrator
  parse_or_buffer_tool_args key absent s = (some absent, s)
  parse_or_buffer_tool_args key (parsed j) s = (some (parsed j), s)
  parse_or_buffer_tool_args key (text t) s = if is_empty t then (none, s) else buffer key t s

  abbrev pub info_of : String → String → Arguments → Bool → ToolInfo
  info_of name call_id arguments from_conversation = record {
    tool_name = some name;
    arguments = arguments;
    call_id = call_id;
    from_conversation = from_conversation;
  }

  abbrev pub take_complete :
      String → String → String → Option Arguments × Orchestrator → Orchestrator
  take_complete agent name call_id (none, s) = s
  take_complete agent name call_id (some arguments, s) =
      emit_tool_call_once agent (agent, call_id) name
        (record_tool_call agent (agent, call_id) (info_of name call_id arguments false) s)

  abbrev pub take_call :
      String → Option String → Option String → Arguments → Orchestrator → Orchestrator
  take_call agent none call_id arguments s = s
  take_call agent (some name) none arguments s = s
  take_call agent (some name) (some call_id) arguments s =
      if is_empty call_id || is_empty name || member (agent, call_id) s.tool_call_recorded
      then s
      else take_complete agent name call_id (parse_or_buffer_tool_args (agent, call_id) arguments s)

  unfoldable pub process_calls : String → List FunctionCall → Orchestrator → Orchestrator
  process_calls agent [] s = s
  process_calls agent (c ∷ cs) s =
      process_calls agent cs (take_call agent c.name c.call_id c.arguments s)

  unfoldable pub process_tool_calls : String → List Content → Orchestrator → Orchestrator
  process_tool_calls agent contents s = process_calls agent (extract_function_calls contents) s

abbrev pub backfill_call :
    String → Option String → Option String → Arguments → Orchestrator → Orchestrator
backfill_call agent name none arguments s = s
backfill_call agent name (some call_id) arguments s =
    if is_empty call_id || member (agent, call_id) s.tool_call_recorded
    then s
    else record_tool_call agent (agent, call_id)
        (record {
          tool_name = name;
          arguments = arguments;
          call_id = call_id;
          from_conversation = true;
        })
        s

unfoldable pub backfill_calls : String → List FunctionCall → Orchestrator → Orchestrator
backfill_calls agent [] s = s
backfill_calls agent (c ∷ cs) s =
    backfill_calls agent cs (backfill_call agent c.name c.call_id c.arguments s)

-- getattr(msg, "author_name", None) or "assistant"
abbrev pub assistant_name : Option String → String
assistant_name none = "assistant"
assistant_name (some a) = if is_empty a then "assistant" else a

-- self.agent_tool_usage.setdefault(agent_name, [])
abbrev pub set_default : String → Orchestrator → Orchestrator
set_default agent s =
    if is_some (get s.agent_tool_usage agent)
    then s
    else record s { agent_tool_usage = set s.agent_tool_usage agent [] }

abbrev pub backfill_message : ChatMessage → Orchestrator → Orchestrator
backfill_message m s =
    let agent = assistant_name m.author_name in
    if m.is_assistant
    then backfill_calls agent (extract_function_calls m.contents) (set_default agent s)
    else s

unfoldable pub backfill : List ChatMessage → Orchestrator → Orchestrator
backfill [] s = s
backfill (m ∷ ms) s = backfill ms (backfill_message m s)
