-- ===== src/GroupChat/Respond.antt =====
-- `_complete_agent_response` of groupchat_orchestrator.py: what a finished response changes, and what
-- the coordinator's says about the next agent, a loop or the end.
use claimsintelligence.Base.{
  ℕ, ◌+◌, String, Bool, true, false, not, ◌&&◌, ◌||◌, Option, none, some, [], ◌∷◌, ◌++◌,
  if◌then◌else◌, ◌==◌, string_key, nat_key, pair_key, is_empty, strip, skip, upto, leb, min, length,
}
use text.Mathlib.Text.{find?}
use claimsintelligence.Exec.{Outcome, returned, raised}
use claimsintelligence.GroupChat.{
  AgentResponse, completed, loop_detected, Orchestrator, join, request_forced_termination, emit,
}
use claimsintelligence.GroupChat.SignOffs.{validate_sign_offs}

-- `ManagerSelectionResponse`; what is no text is none.
pub record Manager : Type 0 where
  pub selected_participant : Option String
  pub instruction : Option String
  pub finish : Bool
  pub final_message : Option String

-- `raw_decode` gives the end of the JSON value that a text begins with; `lower` and `upper` are the
-- methods of `str`; `read_manager` reads the JSON and validates it, and gives none where it raises;
-- `generator` is the name of the result generator.
pub record Reading : Type 0 where
  pub raw_decode : String → Option ℕ
  pub lower : String → String
  pub upper : String → String
  pub read_manager : String → Option Manager
  pub generator : String

abbrev pub earlier : Option ℕ → Option ℕ → Option ℕ
earlier none b = b
earlier (some a) none = some a
earlier (some a) (some b) = some (min a b)

abbrev pub cut_at : String → Option ℕ → String → String
cut_at s (some end) otherwise = upto end s
cut_at s none otherwise = otherwise

abbrev pub from_bracket : Reading → Option ℕ → String → String
from_bracket r none candidate = candidate
from_bracket r (some start) candidate =
    cut_at (skip start candidate) (r.raw_decode (skip start candidate)) candidate

unfoldable pub extract_first_json_payload : Reading → String → String
extract_first_json_payload r t =
    let candidate = strip t in
    let brackets = from_bracket r (earlier (find? candidate "{") (find? candidate "[")) candidate in
    if is_empty candidate then candidate else cut_at candidate (r.raw_decode candidate) brackets

abbrev pub or_none : Option String → String
or_none none = ""
or_none (some t) = t

module _ (reading : Reading) where
  -- The coordinator has selected an agent, by a name that is not empty and not "none".
  abbrev pub names_agent : String → Bool
  names_agent selected = not (is_empty selected) && not (reading.lower selected == "none")

  abbrev pub instruction_of : Manager → String
  instruction_of m = reading.lower (strip (or_none m.instruction))

  abbrev pub is_no_one : Option String → Bool
  is_no_one none = true
  is_no_one (some selected) = let t = reading.lower (strip selected) in is_empty t || t == "none"

  abbrev pub ends : String → Bool
  ends t = t == "complete" || t == "blocked" || t == "fail" || t == "failed"

  unfoldable pub signals_stop : Manager → Bool
  signals_stop m = m.finish || (is_no_one m.selected_participant && ends (instruction_of m))

-- Another selection, or the first.
abbrev pub start_streak : String × String → Orchestrator → Orchestrator
start_streak key s = record s {
  last_coordinator_selection = some key;
  coordinator_selection_streak = 1;
  last_coordinator_selection_progress = s.progress_counter;
}

-- The same selection, after a response of another agent, and with none in between.
abbrev pub restart_streak : Orchestrator → Orchestrator
restart_streak s = record s {
  coordinator_selection_streak = 1;
  last_coordinator_selection_progress = s.progress_counter;
}

abbrev pub extend_streak : Orchestrator → Orchestrator
extend_streak s = record s { coordinator_selection_streak = s.coordinator_selection_streak + 1 }

abbrev pub count_from : Option (String × String) → String × String → Orchestrator → Orchestrator
count_from none key s = start_streak key s
count_from (some last) key s =
    if key == last
    then if s.progress_counter == s.last_coordinator_selection_progress
      then extend_streak s
      else restart_streak s
    else start_streak key s

abbrev pub count_streak : String × String → Orchestrator → Orchestrator
count_streak key s = count_from s.last_coordinator_selection key s

abbrev pub break_loop : Orchestrator → Orchestrator
break_loop s =
    if leb 3 s.coordinator_selection_streak then request_forced_termination loop_detected s else s

abbrev pub terminate : Manager → Orchestrator → Orchestrator
terminate m s = record s {
  termination_requested = true;
  termination_final_message = m.final_message;
}

-- Whether the callback is still called: a rejection returns before it is.
abbrev pub if_signed_off : Outcome Bool → Manager → Orchestrator → Orchestrator × Bool
if_signed_off (raised e) m s = (s, true)
if_signed_off (returned true) m s = (terminate m s, true)
if_signed_off (returned false) m s = (s, false)

abbrev pub keep_instruction : Option String → Orchestrator → Orchestrator
keep_instruction none s = s
keep_instruction (some t) s = record s { termination_instruction = some t }

abbrev pub response_of : String → Orchestrator → AgentResponse
response_of agent s = record {
  agent_name = agent;
  message = join s.current_agent_response;
  chunk_count = length s.current_agent_response;
}

abbrev pub take_response : String → Orchestrator → Orchestrator
take_response agent s = record s { agent_responses = s.agent_responses ++ response_of agent s ∷ [] }

abbrev pub call_back : AgentResponse → Orchestrator × Bool → Orchestrator
call_back r (s, true) = emit (completed r) s
call_back r (s, false) = s

module _ (reading : Reading) where
  unfoldable pub detect_loop : Option String → String → Orchestrator → Orchestrator
  detect_loop none instruction s = s
  detect_loop (some selected) instruction s =
      if names_agent reading selected
      then break_loop (count_streak (selected, instruction) s)
      else s

  unfoldable pub consider_stop : Manager → Orchestrator → Orchestrator × Bool
  consider_stop m s =
      let checked =
        if_signed_off
          (validate_sign_offs reading.upper s.coordinator_name reading.generator s.conversation) m
          s in
      if signals_stop reading m
      then if instruction_of reading m == "complete" then checked else (terminate m s, true)
      else (s, true)

  abbrev pub coordinator_said : Option Manager → Orchestrator → Orchestrator × Bool
  coordinator_said none s = (s, true)
  coordinator_said (some m) s = consider_stop m (
      detect_loop m.selected_participant (or_none m.instruction) (keep_instruction m.instruction s))

  unfoldable pub record_response : String → Orchestrator → Orchestrator × Bool
  record_response agent s =
      let t = take_response agent s in
      if agent == s.coordinator_name
      then coordinator_said
          (reading.read_manager
            (extract_first_json_payload reading (join s.current_agent_response)))
          t
      else (record t { progress_counter = t.progress_counter + 1 }, true)

  unfoldable pub complete_agent_response : String → Orchestrator → Orchestrator
  complete_agent_response agent s = elim s.current_agent_response [
    | [] ↦ s
    | c ∷ cs ↦ call_back (response_of agent s) (record_response agent s)
  ]
