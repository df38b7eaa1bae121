-- ===== src/GroupChat/Gate.antt =====
-- What the sign-offs are checked against while a run of groupchat_orchestrator.py goes on.
use claimsintelligence.Base.{
  ℕ, String, ◌≡◌, refl, ◌∙◌, Bool, true, false, ◌&&◌, Option, none, some, List, [], ◌∷◌,
  if◌then◌else◌, ◌==◌, string_key, eq_iff, All, ap, member,
}
use claimsintelligence.Exec.{Outcome, returned, raised}
use claimsintelligence.GroupChat.{
  Json, ChatMessage, Orchestrator, AgentResponse, ForcedReason, join,
}
use claimsintelligence.GroupChat.SignOffs.{validate_sign_offs, gather}
use claimsintelligence.GroupChat.Respond.{
  Reading, Manager, extract_first_json_payload, signals_stop, instruction_of, consider_stop,
  if_signed_off, terminate, keep_instruction, or_none, coordinator_said, take_response,
  record_response, response_of, call_back, complete_agent_response,
}
use claimsintelligence.GroupChat.Stream.{
  Event, update, output, unrelated, handle_event, stream, start_run, Analysis, generated, no_result,
  hard_blocked, hard_terminated, if_format, is_blocked, or_blocked, generate, analysis, run_stream,
  is_over, check_rounds, handle_agent_update, check_time,
}
use claimsintelligence.GroupChat.Tools.{backfill}
use claimsintelligence.GroupChat.Frame.{
  checked-Near, time-Near, go_on_cases, detect-Near, instruction-Near,
}

abbrev pub NoOutput : ℕ × Event → Type 0
NoOutput (elapsed, output conversation) = ⊥
NoOutput _ = Unit

abbrev pub is_empty_list {ℓ} : {A : Type ℓ} → List A → Bool
is_empty_list [] = true
is_empty_list (a ∷ as_) = false

abbrev Ended : Orchestrator → Type 0
Ended s = s.termination_requested ≡ true

abbrev StateEnded : Orchestrator × Bool → Type 0
StateEnded x = Ended x.0

-- What the result generator is given.
abbrev pub given : Analysis → List ChatMessage
given (generated conversation) = conversation
given _ = []

module _ (reading : Reading) (loads : String → Option Json) where
  -- The state after some events of a run.
  abbrev pub after : List (ℕ × Event) → Orchestrator → Orchestrator
  after es s = stream reading loads es (start_run reading loads s)

  stream-conversation :
      (es : List (ℕ × Event)) (s : Orchestrator)
      → All NoOutput es
      → (stream reading loads es s).conversation ≡ s.conversation
  unfolding stream handle_event
  stream-conversation [] s o = refl
  stream-conversation ((elapsed, output conversation) ∷ es) s (o, os) = absurd o
  stream-conversation ((elapsed, unrelated) ∷ es) s (o, os) =
      stream-conversation es _ os ∙ (time-Near reading loads elapsed s).conversation
  stream-conversation ((elapsed, update i chunk contents) ∷ es) s (o, os) =
      let t =
        check_rounds reading loads (
          handle_agent_update reading loads i chunk contents
            (check_time reading loads elapsed s)) in
      let near = checked-Near reading loads elapsed i chunk contents s in
      go_on_cases reading loads (λ x. x.conversation ≡ s.conversation) (stream reading loads es)
        (is_over reading loads t) t (λ stopped. near.conversation)
        λ open_. stream-conversation es t os ∙ near.conversation

  blank :
      (es : List (ℕ × Event)) (s : Orchestrator) → All NoOutput es → (after es s).conversation ≡ []
  unfolding start_run
  blank es s o = stream-conversation es (start_run reading loads s) o

  -- An empty conversation has all its sign-offs.
  signed_off :
      (upper : String → String) (coordinator generator : String)
      → validate_sign_offs upper coordinator generator [] ≡ returned true
  unfolding validate_sign_offs gather
  signed_off upper coordinator generator = refl

  granted :
      (m : Manager) (s : Orchestrator) (o : Outcome Bool) (b : Bool)
      → o ≡ returned true
      → StateEnded (if b then if_signed_off o m s else (terminate m s, true))
  granted m s o false e = refl
  granted m s (raised x) true e = cc
  granted m s (returned true) true e = refl
  granted m s (returned false) true e = cc

  stops :
      (m : Manager) (s : Orchestrator)
      → s.conversation ≡ []
      → signals_stop reading m ≡ true
      → (consider_stop reading m s).0.termination_requested ≡ true
  unfolding consider_stop
  stops m s e h = rw h (
      granted m s
        (validate_sign_offs reading.upper s.coordinator_name reading.generator s.conversation)
        (instruction_of reading m == "complete")
        (ap (validate_sign_offs reading.upper s.coordinator_name reading.generator) e
          ∙ signed_off reading.upper s.coordinator_name reading.generator))

  said :
      (m : Manager) (s : Orchestrator)
      → s.conversation ≡ []
      → signals_stop reading m ≡ true
      → (coordinator_said reading (some m) s).0.termination_requested ≡ true
  said m s e h =
      stops m _
        ((detect-Near reading loads m.selected_participant (or_none m.instruction)
            (keep_instruction m.instruction s)).conversation
          ∙ (instruction-Near m.instruction s).conversation
          ∙ e)
        h

  called :
      (r : AgentResponse) (x : Orchestrator × Bool)
      → x.0.termination_requested ≡ true
      → (call_back r x).termination_requested ≡ true
  called r (s, true) h = h
  called r (s, false) h = h

  recorded :
      (m : Manager) (s : Orchestrator)
      → s.conversation ≡ []
      → reading.read_manager (extract_first_json_payload reading (join s.current_agent_response))
        ≡ some m
      → signals_stop reading m ≡ true
      → (record_response reading s.coordinator_name s).0.termination_requested ≡ true
  unfolding record_response
  recorded m s e r h =
      rw ((eq_iff s.coordinator_name s.coordinator_name).1 refl, r)
        (said m (take_response s.coordinator_name s) e h)

  completes :
      (m : Manager) (s : Orchestrator)
      → s.conversation ≡ []
      → is_empty_list s.current_agent_response ≡ false
      → reading.read_manager (extract_first_json_payload reading (join s.current_agent_response))
        ≡ some m
      → signals_stop reading m ≡ true
      → (complete_agent_response reading s.coordinator_name s).termination_requested ≡ true
  unfolding complete_agent_response
  completes m s e n r h = go s.current_agent_response n
    where
      go :
          (l : List String)
          → is_empty_list l ≡ false
          → Ended (elim l [
            | [] ↦ s
            | c ∷ cs ↦
                call_back
                  (response_of s.coordinator_name s)
                  (record_response reading s.coordinator_name s)
          ])
      go [] n = cc
      go (c ∷ cs) n =
          called (response_of s.coordinator_name s) (record_response reading s.coordinator_name s)
            (recorded m s e r h)

  given-analysis : (s : Orchestrator) → s.conversation ≡ [] → given (analysis reading loads s) ≡ []
  unfolding analysis
  given-analysis s e = of_forced s.forced
    where
      of_generate : (b : Bool) → given (if b then generated s.conversation else no_result) ≡ []
      of_generate true = e
      of_generate false = refl

      of_format :
          (b : Bool) (a : Analysis) → given a ≡ [] → given (if_format reading loads b a) ≡ []
      of_format true a h = h
      of_format false a h = refl

      of_blocked :
          (b : Bool) (a : Analysis)
          → given a ≡ []
          → given (if b then a else generate reading loads s) ≡ []
      of_blocked true a h = h
      of_blocked false a h = of_generate (s.has_result_format && member reading.generator s.agents)

      of_forced :
          (o : Option ForcedReason)
          → given (elim o [
            | some reason ↦ if_format reading loads s.has_result_format (hard_terminated reason)
            | none ↦
                if is_blocked reading loads s
                then if_format reading loads s.has_result_format
                    (hard_blocked (or_blocked s.termination_final_message))
                else generate reading loads s
          ])
            ≡ []
      of_forced (some reason) = of_format s.has_result_format (hard_terminated reason) refl
      of_forced none =
          of_blocked (is_blocked reading loads s)
            (if_format reading loads s.has_result_format
              (hard_blocked (or_blocked s.termination_final_message)))
            (of_format s.has_result_format (hard_blocked (or_blocked s.termination_final_message))
              refl)

  -- After the events of a run before its output, where the coordinator has a response of some text that
  -- reads as a request to stop: when it is completed, the end of the run is requested, whatever
  -- the agents signed off; and where the run is over with these events, the conversation that the
  -- result generator is given is empty.
  pub stop_before_output :
      (es : List (ℕ × Event)) (s : Orchestrator) (m : Manager)
      → All NoOutput es
      → is_empty_list (after es s).current_agent_response ≡ false
      → reading.read_manager
          (extract_first_json_payload reading (join (after es s).current_agent_response))
        ≡ some m
      → signals_stop reading m ≡ true
      → ((complete_agent_response reading
            (after es s).coordinator_name
            (after es s)).termination_requested
          ≡ true)
        × (given (run_stream reading loads es s).1 ≡ [])
  unfolding run_stream backfill
  stop_before_output es s m o n r h =
      let e = blank es s o in
      let t = after es s in
      (
        completes m t e n r h,
        given-analysis (backfill t.conversation t) (ap (λ l. (backfill l t).conversation) e ∙ e),
      )
