-- ===== src/GroupChat/Stream.antt =====
-- `run_stream` of groupchat_orchestrator.py: the events of the workflow, the guards, and the result.
use claimsintelligence.Base.{
  ℕ, String, Bool, true, false, not, ◌&&◌, ◌||◌, Option, none, some, List, [], ◌∷◌, ◌++◌,
  if◌then◌else◌, ◌==◌, string_key, is_empty, after_last, length, leb, eqb, strip, member,
}
use claimsintelligence.GroupChat.{
  Json, Content, ChatMessage, message_start, ForcedReason, timed_out, too_many_rounds, Orchestrator,
  is_some, request_forced_termination, emit,
}
use claimsintelligence.GroupChat.Respond.{Reading, complete_agent_response, or_none}
use claimsintelligence.GroupChat.Tools.{process_tool_calls, backfill}

-- The events, each with the time since the start: an update by an agent, the output with its
-- conversation, or any other.
pub data Event : Type 0 where
  update : String → Option String → List Content → Event
  output : List ChatMessage → Event
  unrelated : Event

-- executor_id.split(":")[-1]
unfoldable pub normalize_executor_id : String → String
normalize_executor_id = after_last (eqb b':')

-- What the result of a run is made of: a forced result, one for a blocked run, one by the result
-- generator, or none. A forced result is taken to validate; the run gives an error where it does not.
pub data Analysis : Type 0 where
  hard_terminated : ForcedReason → Analysis
  hard_blocked : String → Analysis
  generated : List ChatMessage → Analysis
  no_result : Analysis

abbrev pub or_blocked : Option String → String
or_blocked none = "Workflow terminated as blocked"
or_blocked (some t) = if is_empty t then "Workflow terminated as blocked" else t

module _ (reading : Reading) (loads : String → Option Json) where
  abbrev pub complete_last : Option String → Orchestrator → Orchestrator
  complete_last none s = s
  complete_last (some agent) s =
      if is_empty agent then s else complete_agent_response reading agent s

  abbrev pub complete_previous : Orchestrator → Orchestrator
  complete_previous s = elim s.current_agent_response [
    | [] ↦ s
    | c ∷ cs ↦ complete_last s.last_executor_id s
  ]

  abbrev pub clear_buffer : Option String → Orchestrator → Orchestrator
  clear_buffer none s = s
  clear_buffer (some agent) s =
      if is_empty agent then s else record s { current_agent_response = [] }

  abbrev pub is_current : String → Option String → Bool
  is_current agent none = false
  is_current agent (some last) = agent == last

  unfoldable pub start_agent_if_needed : String → Orchestrator → Orchestrator
  start_agent_if_needed agent s =
      if is_current agent s.last_executor_id
      then s
      else emit (message_start agent)
          (record (clear_buffer s.last_executor_id (complete_previous s)) {
            last_executor_id = some agent;
          })

  unfoldable pub append_text_chunk : Option String → Orchestrator → Orchestrator
  append_text_chunk none s = s
  append_text_chunk (some t) s =
      if is_empty t
      then s
      else record s { current_agent_response = s.current_agent_response ++ t ∷ [] }

  unfoldable pub handle_agent_update :
      String → Option String → List Content → Orchestrator → Orchestrator
  handle_agent_update executor_id chunk contents s =
      let agent = normalize_executor_id executor_id in
      process_tool_calls loads agent contents
        (append_text_chunk chunk (start_agent_if_needed agent s))

  abbrev pub is_late : Option ℕ → ℕ → Bool
  is_late none elapsed = false
  is_late (some limit) elapsed = leb limit elapsed

  unfoldable pub check_time : ℕ → Orchestrator → Orchestrator
  check_time elapsed s =
      if is_late s.max_seconds elapsed then request_forced_termination timed_out s else s

  unfoldable pub check_rounds : Orchestrator → Orchestrator
  check_rounds s =
      if not (eqb s.max_rounds 0) && leb s.max_rounds (length s.agent_responses)
      then request_forced_termination too_many_rounds s
      else s

  abbrev pub is_over : Orchestrator → Bool
  is_over s = is_some s.forced || s.termination_requested

  -- Whether the loop is left, and the state.
  unfoldable pub handle_event : ℕ → Event → Orchestrator → Bool × Orchestrator
  handle_event elapsed (update executor_id chunk contents) s =
      let t =
        check_rounds (handle_agent_update executor_id chunk contents (check_time elapsed s)) in
      (is_over t, t)
  handle_event elapsed (output conversation) s =
      (false, record (complete_previous (check_time elapsed s)) { conversation = conversation })
  handle_event elapsed unrelated s = (false, check_time elapsed s)

  abbrev pub go_on : (Orchestrator → Orchestrator) → Bool × Orchestrator → Orchestrator
  go_on rest (true, s) = s
  go_on rest (false, s) = rest s

  unfoldable pub stream : List (ℕ × Event) → Orchestrator → Orchestrator
  stream [] s = s
  stream ((elapsed, e) ∷ es) s = go_on (stream es) (handle_event elapsed e s)

  -- The state that is reset when a run starts.
  unfoldable pub start_run : Orchestrator → Orchestrator
  start_run s = record s {
    tool_call_arg_buffer = [];
    tool_call_emitted = [];
    tool_call_recorded = [];
    tool_call_index = [];
    conversation = [];
  }

  -- The coordinator has ended the run by an instruction that is not "complete".
  abbrev pub is_blocked : Orchestrator → Bool
  is_blocked s =
      s.termination_requested
      && not (is_empty (or_none s.termination_instruction))
      && not (reading.lower (strip (or_none s.termination_instruction)) == "complete")

  abbrev pub generate : Orchestrator → Analysis
  generate s =
      if s.has_result_format && member reading.generator s.agents
      then generated s.conversation
      else no_result

  abbrev pub if_format : Bool → Analysis → Analysis
  if_format true a = a
  if_format false a = no_result

  unfoldable pub analysis : Orchestrator → Analysis
  analysis s = elim s.forced [
    | some reason ↦ if_format s.has_result_format (hard_terminated reason)
    | none ↦
        if is_blocked s
        then if_format s.has_result_format (hard_blocked (or_blocked s.termination_final_message))
        else generate s
  ]

  -- The run where the stream ends by itself or by a break, up to the result.
  unfoldable pub run_stream : List (ℕ × Event) → Orchestrator → Orchestrator × Analysis
  run_stream es s =
      let t = stream es (start_run s) in let u = backfill t.conversation t in (u, analysis u)
