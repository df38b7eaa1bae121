-- ===== src/GroupChat/Frame.antt =====
-- What the handling of an update leaves alone in the orchestrator of groupchat_orchestrator.py, and how
-- many responses it adds.
use claimsintelligence.Base.{
  ℕ, ◌+◌, ◌≤◌, String, ◌≡◌, refl, ◌∙◌, Bool, true, false, ◌||◌, Option, none, some, List, [], ◌∷◌,
  arith, if◌then◌else◌, ◌==◌, string_key, nat_key, pair_key, is_empty, length, length-append,
  member, leb,
}
use claimsintelligence.Exec.{Outcome, returned, raised}
use claimsintelligence.Dict.{get}
use claimsintelligence.GroupChat.{
  Json, Arguments, absent, parsed, text, FunctionCall, Content, ForcedReason, AgentResponse,
  Orchestrator, is_some, request_forced_termination, loop_detected,
}
use claimsintelligence.GroupChat.Respond.{
  Reading, Manager, count_streak, count_from, break_loop, detect_loop, names_agent, terminate,
  if_signed_off, consider_stop, keep_instruction, coordinator_said, or_none, take_response,
  response_of, record_response, call_back, complete_agent_response, signals_stop, instruction_of,
  extract_first_json_payload,
}
use claimsintelligence.GroupChat.Tools.{
  record_at, record_tool_call, emit_tool_call_once, parse_or_buffer_tool_args, take_complete,
  take_call, process_calls, process_tool_calls, buffer, info_of, extract_function_calls,
}
use claimsintelligence.GroupChat.Stream.{
  complete_previous, complete_last, clear_buffer, start_agent_if_needed, append_text_chunk,
  handle_agent_update, check_time, check_rounds, is_current, go_on, normalize_executor_id, is_late,
}

-- From `s` to `t`: `n` responses more at most.
pub record Near (n : ℕ) (s t : Orchestrator) : Type 0 where
  pub conversation : t.conversation ≡ s.conversation
  pub max_rounds : t.max_rounds ≡ s.max_rounds
  pub responses : length t.agent_responses ≤ length s.agent_responses + n

abbrev pub Still : (Orchestrator → Orchestrator) → Type 0
Still f = (s : Orchestrator) → Near 0 s (f s)

Near-then : {n : ℕ} {s t u : Orchestrator} → Near 0 s t → Near n t u → Near n s u
Near-then a b = record {
  conversation = b.conversation ∙ a.conversation;
  max_rounds = b.max_rounds ∙ a.max_rounds;
  responses = omega (arith, a.responses, b.responses);
}

Near-still : {n : ℕ} {s t u : Orchestrator} → Near n s t → Near 0 t u → Near n s u
Near-still a b = record {
  conversation = b.conversation ∙ a.conversation;
  max_rounds = b.max_rounds ∙ a.max_rounds;
  responses = omega (arith, a.responses, b.responses);
}

Near-refl : (s : Orchestrator) → Near 0 s s
Near-refl s = record { conversation = refl; max_rounds = refl; responses = omega arith }

Near-if :
    {n : ℕ} {s t u : Orchestrator} (b : Bool)
    → Near n s t
    → Near n s u
    → Near n s (if b then t else u)
Near-if true a b = a
Near-if false a b = b

pub forced-Near : (reason : ForcedReason) → Still (request_forced_termination reason)
unfolding request_forced_termination
forced-Near reason s =
    Near-if (s.termination_requested || is_some s.forced) (Near-refl s)
      (record { conversation = refl; max_rounds = refl; responses = omega arith })

record_at-Near :
    (i : Option ℕ) (agent : String) (key : String × String) (info : _)
    → Still (record_at i agent key info)
record_at-Near none agent key info s = record {
  conversation = refl;
  max_rounds = refl;
  responses = omega arith;
}
record_at-Near (some i) agent key info s = record {
  conversation = refl;
  max_rounds = refl;
  responses = omega arith;
}

emit_once-Near :
    (agent : String) (key : String × String) (name : String)
    → Still (emit_tool_call_once agent key name)
unfolding emit_tool_call_once
emit_once-Near agent key name s =
    Near-if (member key s.tool_call_emitted) (Near-refl s)
      (record { conversation = refl; max_rounds = refl; responses = omega arith })

module _ (loads : String → Option Json) where
  take_complete-Near :
      (agent name call_id : String) (o : Option Arguments)
      → Still (λ s. take_complete loads agent name call_id (o, s))
  unfolding record_tool_call
  take_complete-Near agent name call_id none s = Near-refl s
  take_complete-Near agent name call_id (some a) s =
      let x =
        record_at-Near (get s.tool_call_index (agent, call_id)) agent (agent, call_id)
          (info_of loads name call_id a false) s in
      Near-then x (
        Near-then (record { conversation = refl; max_rounds = refl; responses = omega arith })
          (emit_once-Near agent (agent, call_id) name _))

  parse-Near :
      (key : String × String) (a : Arguments) (s : Orchestrator)
      → Near 0 s (parse_or_buffer_tool_args loads key a s).1
  unfolding parse_or_buffer_tool_args
  parse-Near key absent s = Near-refl s
  parse-Near key (parsed j) s = Near-refl s
  parse-Near key (text t) s = go (is_empty t)
    where
      go : (b : Bool) → Near 0 s (if b then (none, s) else buffer loads key t s).1
      go true = Near-refl s
      go false = record { conversation = refl; max_rounds = refl; responses = omega arith }

  take_call-Near :
      (agent : String) (name call_id : Option String) (a : Arguments)
      → Still (take_call loads agent name call_id a)
  take_call-Near agent none i a s = Near-refl s
  take_call-Near agent (some n) none a s = Near-refl s
  take_call-Near agent (some n) (some i) a s =
      Near-if (is_empty i || is_empty n || member (agent, i) s.tool_call_recorded) (Near-refl s) (
        Near-then (parse-Near (agent, i) a s)
          (take_complete-Near agent n i (parse_or_buffer_tool_args loads (agent, i) a s).0 _))

  process_calls-Near :
      (agent : String) (cs : List FunctionCall) → Still (process_calls loads agent cs)
  unfolding process_calls
  process_calls-Near agent [] s = Near-refl s
  process_calls-Near agent (c ∷ cs) s =
      Near-then (take_call-Near agent c.name c.call_id c.arguments s)
        (process_calls-Near agent cs _)

break-Near : Still break_loop
break-Near s =
    Near-if (leb 3 s.coordinator_selection_streak) (forced-Near loop_detected s) (Near-refl s)

count-Near : (o : Option (String × String)) (key : String × String) → Still (count_from o key)
count-Near none key s = record { conversation = refl; max_rounds = refl; responses = omega arith }
count-Near (some last) key s =
    Near-if (key == last)
      (Near-if (s.progress_counter == s.last_coordinator_selection_progress)
        (record { conversation = refl; max_rounds = refl; responses = omega arith })
        (record { conversation = refl; max_rounds = refl; responses = omega arith }))
      (record { conversation = refl; max_rounds = refl; responses = omega arith })

pub instruction-Near : (o : Option String) → Still (keep_instruction o)
instruction-Near none s = Near-refl s
instruction-Near (some t) s = record {
  conversation = refl;
  max_rounds = refl;
  responses = omega arith;
}

terminate-Near : (m : Manager) → Still (terminate m)
terminate-Near m s = record { conversation = refl; max_rounds = refl; responses = omega arith }

module _ (reading : Reading) (loads : String → Option Json) where
  pub detect-Near :
      (o : Option String) (instruction : String) → Still (detect_loop reading o instruction)
  unfolding detect_loop
  detect-Near none instruction s = Near-refl s
  detect-Near (some selected) instruction s =
      Near-if (names_agent reading selected)
        (Near-then (count-Near s.last_coordinator_selection (selected, instruction) s)
          (break-Near (count_streak (selected, instruction) s)))
        (Near-refl s)

  signed-Near :
      (o : Outcome Bool) (m : Manager) (s : Orchestrator) → Near 0 s (if_signed_off o m s).0
  signed-Near (raised e) m s = Near-refl s
  signed-Near (returned true) m s = terminate-Near m s
  signed-Near (returned false) m s = Near-refl s

  fst-if :
      {n : ℕ} {s : Orchestrator} (b : Bool) (x y : Orchestrator × Bool)
      → Near n s x.0
      → Near n s y.0
      → Near n s (if b then x else y).0
  fst-if true x y h k = h
  fst-if false x y h k = k

  consider-Near : (m : Manager) (s : Orchestrator) → Near 0 s (consider_stop reading m s).0
  unfolding consider_stop
  consider-Near m s =
      fst-if (signals_stop reading m) _ (s, true)
        (fst-if (instruction_of reading m == "complete") _ (terminate m s, true) (signed-Near _ m s)
          (terminate-Near m s))
        (Near-refl s)

  said-Near : (o : Option Manager) (s : Orchestrator) → Near 0 s (coordinator_said reading o s).0
  said-Near none s = Near-refl s
  said-Near (some m) s = Near-then (instruction-Near m.instruction s) (
      Near-then
        (detect-Near m.selected_participant (or_none m.instruction)
          (keep_instruction m.instruction s))
        (consider-Near m _))

  take-Near : (agent : String) (s : Orchestrator) → Near 1 s (take_response agent s)
  take-Near agent s = record {
    conversation = refl;
    max_rounds = refl;
    responses = omega (arith, length-append {0} s.agent_responses (response_of agent s ∷ []));
  }

  record-Near : (agent : String) (s : Orchestrator) → Near 1 s (record_response reading agent s).0
  unfolding record_response
  record-Near agent s =
      fst-if (agent == s.coordinator_name) _ _
        (Near-still (take-Near agent s) (
          said-Near (reading.read_manager (extract_first_json_payload reading _))
            (take_response agent s)))
        (Near-still (take-Near agent s)
          (record { conversation = refl; max_rounds = refl; responses = omega arith }))

  call_back-Near : (r : AgentResponse) (x : Orchestrator × Bool) → Near 0 x.0 (call_back r x)
  call_back-Near r (s, true) = record {
    conversation = refl;
    max_rounds = refl;
    responses = omega arith;
  }
  call_back-Near r (s, false) = Near-refl s

  pub complete-Near :
      (agent : String) (s : Orchestrator) → Near 1 s (complete_agent_response reading agent s)
  unfolding complete_agent_response
  complete-Near agent s = go s.current_agent_response
    where
      go :
          (l : List String)
          → Near 1 s (elim l [
            | [] ↦ s
            | c ∷ cs ↦ call_back (response_of agent s) (record_response reading agent s)
          ])
      go [] = record { conversation = refl; max_rounds = refl; responses = omega arith }
      go (c ∷ cs) =
          Near-still (record-Near agent s)
            (call_back-Near (response_of agent s) (record_response reading agent s))

  last-Near : (o : Option String) (s : Orchestrator) → Near 1 s (complete_last reading loads o s)
  last-Near none s = record { conversation = refl; max_rounds = refl; responses = omega arith }
  last-Near (some agent) s =
      Near-if (is_empty agent)
        (record { conversation = refl; max_rounds = refl; responses = omega arith })
        (complete-Near agent s)

  pub previous-Near : (s : Orchestrator) → Near 1 s (complete_previous reading loads s)
  previous-Near s = go s.current_agent_response
    where
      go :
          (l : List String)
          → Near 1 s (elim l [ [] ↦ s | c ∷ cs ↦ complete_last reading loads s.last_executor_id s ])
      go [] = record { conversation = refl; max_rounds = refl; responses = omega arith }
      go (c ∷ cs) = last-Near s.last_executor_id s

  clear-Near : (o : Option String) → Still (clear_buffer reading loads o)
  clear-Near none s = Near-refl s
  clear-Near (some agent) s =
      Near-if (is_empty agent) (Near-refl s)
        (record { conversation = refl; max_rounds = refl; responses = omega arith })

  start-Near :
      (agent : String) (s : Orchestrator) → Near 1 s (start_agent_if_needed reading loads agent s)
  unfolding start_agent_if_needed
  start-Near agent s =
      let x =
        Near-still (previous-Near s)
          (clear-Near s.last_executor_id (complete_previous reading loads s)) in
      Near-if (is_current reading loads agent s.last_executor_id)
        (record { conversation = refl; max_rounds = refl; responses = omega arith })
        (Near-still x (record { conversation = refl; max_rounds = refl; responses = omega arith }))

  chunk-Near : (o : Option String) → Still (append_text_chunk reading loads o)
  unfolding append_text_chunk
  chunk-Near none s = Near-refl s
  chunk-Near (some t) s =
      Near-if (is_empty t) (Near-refl s)
        (record { conversation = refl; max_rounds = refl; responses = omega arith })

  update-Near :
      (executor_id : String) (chunk : Option String) (contents : List Content) (s : Orchestrator)
      → Near 1 s (handle_agent_update reading loads executor_id chunk contents s)
  unfolding handle_agent_update process_tool_calls
  update-Near executor_id chunk contents s =
      let agent = normalize_executor_id executor_id in
      Near-still (start-Near agent s) (
        Near-then (chunk-Near chunk (start_agent_if_needed reading loads agent s))
          (process_calls-Near loads agent (extract_function_calls contents) _))

  pub time-Near : (elapsed : ℕ) → Still (check_time reading loads elapsed)
  unfolding check_time
  time-Near elapsed s =
      Near-if (is_late reading loads s.max_seconds elapsed) (forced-Near _ s) (Near-refl s)

  pub rounds-Near : Still (check_rounds reading loads)
  unfolding check_rounds
  rounds-Near s = Near-if _ (forced-Near _ s) (Near-refl s)

  -- An update adds a response at most.
  pub checked-Near :
      (elapsed : ℕ) (executor_id : String) (chunk : Option String) (contents : List Content)
      (s : Orchestrator)
      → Near 1 s (
          check_rounds reading loads (
            handle_agent_update reading loads executor_id chunk contents
              (check_time reading loads elapsed s)))
  checked-Near elapsed executor_id chunk contents s = Near-then (time-Near elapsed s) (
      Near-still (update-Near executor_id chunk contents (check_time reading loads elapsed s))
        (rounds-Near _))

  pub go_on_cases :
      (P : Orchestrator → Type 0) (rest : Orchestrator → Orchestrator) (b : Bool) (t : Orchestrator)
      → (b ≡ true → P t)
      → (b ≡ false → P (rest t))
      → P (go_on reading loads rest (b, t))
  go_on_cases P rest true t h k = h refl
  go_on_cases P rest false t h k = k refl
