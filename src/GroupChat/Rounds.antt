-- ===== src/GroupChat/Rounds.antt =====
-- How many responses a run of groupchat_orchestrator.py may have.
use claimsintelligence.Base.{ℕ, ◌≤◌, ◌<◌, String, ◌≡◌, false, Option, List, [], ◌∷◌, arith, length}
use claimsintelligence.GroupChat.{Json, Orchestrator, request_forced_termination}
use claimsintelligence.GroupChat.Respond.{Reading}
use claimsintelligence.GroupChat.Stream.{
  Event, update, output, unrelated, handle_agent_update, check_time, check_rounds, is_over,
  handle_event, stream,
}
use claimsintelligence.GroupChat.Frame.{
  checked-Near, rounds-Near, time-Near, previous-Near, go_on_cases,
}

-- The output of the workflow comes last, if it comes.
abbrev pub OutputLast : List (ℕ × Event) → Type 0
OutputLast [] = Unit
OutputLast ((elapsed, output conversation) ∷ []) = Unit
OutputLast ((elapsed, output conversation) ∷ e ∷ es) = ⊥
OutputLast (_ ∷ es) = OutputLast es

module _ (reading : Reading) (loads : String → Option Json) where
  not_over :
      (n : ℕ) (u : Orchestrator)
      → n < u.max_rounds
      → is_over reading loads (check_rounds reading loads u) ≡ false
      → length (check_rounds reading loads u).agent_responses < u.max_rounds
  unfolding check_rounds request_forced_termination
  not_over n u pos h = ground arith

  -- Where the responses before the run are fewer than the rounds that are allowed, and the output of
  -- the workflow comes last, if it comes: there are no more responses than rounds after the run.
  pub rounds_bounded :
      (es : List (ℕ × Event)) (s : Orchestrator)
      → OutputLast es
      → length s.agent_responses < s.max_rounds
      → length (stream reading loads es s).agent_responses ≤ s.max_rounds
  unfolding stream handle_event
  rounds_bounded [] s o h = omega arith
  rounds_bounded ((elapsed, output conversation) ∷ e ∷ es) s o h = absurd o
  rounds_bounded ((elapsed, output conversation) ∷ []) s o h =
      let a = time-Near reading loads elapsed s in
      let b = previous-Near reading loads (check_time reading loads elapsed s) in
      omega (arith, a.responses, b.responses)
  rounds_bounded ((elapsed, unrelated) ∷ es) s o h =
      let a = time-Near reading loads elapsed s in
      let rest =
        rounds_bounded es (check_time reading loads elapsed s) o
          (omega (arith, a.max_rounds, a.responses)) in
      omega (arith, a.max_rounds, rest)
  rounds_bounded ((elapsed, update i chunk contents) ∷ es) s o h =
      let late = check_time reading loads elapsed s in
      let u = handle_agent_update reading loads i chunk contents late in
      let t = check_rounds reading loads u in
      let a = checked-Near reading loads elapsed i chunk contents s in
      let b = rounds-Near reading loads u in
      go_on_cases reading loads (λ x. length x.agent_responses ≤ s.max_rounds)
        (stream reading loads es) (is_over reading loads t) t
        (λ stopped. omega (arith, a.responses))
        λ open_.
          let few =
            not_over (length s.agent_responses) u (omega (arith, a.max_rounds, b.max_rounds))
              open_ in
          let rest = rounds_bounded es t o (omega (arith, b.max_rounds, few)) in
          omega (arith, a.max_rounds, rest)
