-- ===== src/GroupChat/Tests.antt =====
-- A chat of a coordinator and a reviewer, and the theorems applied to it.
use claimsintelligence.Base.{
  ℕ, String, ◌≡◌, refl, ◌↔◌, true, false, Option, none, some, List, [], ◌∷◌, ◌++◌, length, ◌==◌,
  string_key, arith, ◌≤◌, add, after_last,
}
use claimsintelligence.Exec.{returned}
use claimsintelligence.Dict.{get, set}
use claimsintelligence.GroupChat.{Json, ChatMessage, Orchestrator, loop_detected}
use claimsintelligence.GroupChat.SignOffs.{
  validate_sign_offs, gather, sign_off_of, oldest, speaks, pass, validate_sign_offs_iff,
}
use claimsintelligence.GroupChat.Respond.{
  Reading, Manager, complete_agent_response, record_response, signals_stop,
}
use claimsintelligence.GroupChat.Tools.{process_tool_calls, process_calls, extract_function_calls}
use claimsintelligence.GroupChat.Stream.{
  update, output, unrelated, Event, stream, handle_event, handle_agent_update, check_rounds,
  append_text_chunk, start_agent_if_needed, check_time, start_run, normalize_executor_id,
  run_stream,
}
use claimsintelligence.GroupChat.Rounds.{rounds_bounded}
use claimsintelligence.GroupChat.Loops.{Turn, selection, progress, take_turns, forced-is_stuck}
use claimsintelligence.GroupChat.Gate.{stop_before_output, given, after}

abbrev message : String → String → ChatMessage
message author t = record {
  content = some t;
  source = some author;
  is_assistant = true;
  author_name = some author;
  contents = [];
  text = [];
}

-- The reviewer passes first, and then fails.
abbrev changed_mind : List ChatMessage
changed_mind =
    message "Coordinator" "begin"
    ∷ message "Reviewer" "SIGN-OFF: PASS"
    ∷ message "Reviewer" "SIGN-OFF: FAIL"
    ∷ []

abbrev identity : String → String
identity t = t

validate_sign_offs_iff_example :
    (validate_sign_offs identity "Coordinator" "ResultGenerator" changed_mind ≡ returned true) ↔ (
      (a : String)
      → speaks identity "Coordinator" "ResultGenerator" a changed_mind ≡ true
      → (a == "ResultGenerator") ≡ false
      → oldest identity "Coordinator" "ResultGenerator" a changed_mind ≡ some pass)
validate_sign_offs_iff_example =
    validate_sign_offs_iff identity "Coordinator" "ResultGenerator" changed_mind
      ((_, refl), ((_, refl), ((_, refl), tt)))

-- The last word of the reviewer is that it fails.
passed_first :
    validate_sign_offs identity "Coordinator" "ResultGenerator" changed_mind ≡ returned true
unfolding validate_sign_offs gather add get sign_off_of set
passed_first = refl

abbrev finishing : Manager
finishing = record {
  selected_participant = none;
  instruction = some "complete";
  finish = true;
  final_message = some "done";
}

abbrev reads : Reading
reads = record {
  raw_decode = λ t. none;
  lower = identity;
  upper = identity;
  read_manager = λ t. some finishing;
  generator = "ResultGenerator";
}

abbrev no_json : String → Option Json
no_json t = none

abbrev fresh : Orchestrator
fresh = record {
  coordinator_name = "Coordinator";
  agents = "Coordinator" ∷ "Reviewer" ∷ "ResultGenerator" ∷ [];
  max_rounds = 2;
  max_seconds = some 600;
  has_result_format = true;
  conversation = [];
  agent_responses = [];
  last_executor_id = none;
  current_agent_response = [];
  agent_tool_usage = [];
  tool_call_arg_buffer = [];
  tool_call_emitted = [];
  tool_call_recorded = [];
  tool_call_index = [];
  termination_requested = false;
  termination_final_message = none;
  termination_instruction = none;
  forced = none;
  last_coordinator_selection = none;
  coordinator_selection_streak = 0;
  progress_counter = 0;
  last_coordinator_selection_progress = 0;
  emitted = [];
}

abbrev talk : List (ℕ × Event)
talk =
    (1, update "agent:Reviewer" (some "SIGN-OFF: FAIL") [])
    ∷ (2, unrelated)
    ∷ (3, update "agent:Coordinator" (some "finish") [])
    ∷ []

rounds_bounded_example :
    length (stream reads no_json (talk ++ (4, output changed_mind) ∷ []) fresh).agent_responses ≤ 2
rounds_bounded_example =
    rounds_bounded reads no_json (talk ++ (4, output changed_mind) ∷ []) fresh tt (omega arith)

stop_before_output_example :
    ((complete_agent_response reads "Coordinator"
        (after reads no_json talk fresh)).termination_requested
      ≡ true)
    × (given (run_stream reads no_json talk fresh).1 ≡ [])
unfolding stream handle_event handle_agent_update check_rounds process_tool_calls process_calls
    extract_function_calls append_text_chunk start_agent_if_needed check_time start_run
    normalize_executor_id after_last complete_agent_response record_response signals_stop
stop_before_output_example =
    stop_before_output reads no_json talk fresh finishing (tt, (tt, (tt, tt))) refl refl refl

-- The reviewer is selected three times, and then another agent responds.
abbrev repeated : List Turn
repeated =
    progress
    ∷ selection "Reviewer" "go"
    ∷ selection "Reviewer" "go"
    ∷ selection "Reviewer" "go"
    ∷ selection "Author" "go"
    ∷ []

forced-is_stuck_example : (take_turns reads repeated fresh).forced ≡ some loop_detected
forced-is_stuck_example =
    forced-is_stuck reads repeated fresh
      (record { selection_none = refl; seen = omega arith; unforced = refl; unrequested = refl })
      (refl, (refl, (refl, (refl, tt))))
