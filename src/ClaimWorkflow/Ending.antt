-- ===== src/ClaimWorkflow/Ending.antt =====
-- What a run of the claim workflow comes to: `ClaimProcessor.run` of steps/claim_processor.py over a
-- database that answers.
use claimsintelligence.Base.{
  String, ◌≡◌, refl, Option, none, some, List, [], ◌∷◌, arith, string_key, eq_iff,
}
use claimsintelligence.Exec.{
  Exec, Exn, exn, executor_failed, Outcome, returned, raised, ◌>>=◌, conclude,
}
use claimsintelligence.ClaimWorkflow.Repository.{
  ClaimSteps, failed, completed, ClaimProcess, RepositoryBase, IsWorking, change,
  update_claim_process_status, update_claim_process_comment,
}
use claimsintelligence.ClaimWorkflow.Run.{
  Event, started, output, executor_failure, workflow_failure, invoked, unrelated, failure_comment,
  step_of, stream_end, set_step, handle_events, write_time, run,
}

abbrev pub step_or : Option ClaimSteps → ClaimSteps → ClaimSteps
step_or none s = s
step_or (some t) s = t

-- The status that the events up to the first output or failure lead to.
abbrev pub last_status : List Event → ClaimSteps → ClaimSteps
last_status [] s = s
last_status (output result ∷ events) s = completed
last_status (workflow_failure d ∷ events) s = failed
last_status (invoked i ∷ events) s = last_status events (step_or (step_of i) s)
last_status (_ ∷ events) s = last_status events s

-- The first output or failure, or else the end of the stream.
abbrev pub verdict : Option String → List Event → Option Exn → Outcome String
verdict last_invoked [] ending = raised (stream_end last_invoked ending)
verdict last_invoked (output result ∷ events) ending = returned result
verdict last_invoked (workflow_failure d ∷ events) ending = raised (exn executor_failed d.message)
verdict last_invoked (invoked i ∷ events) ending = verdict (some i) events ending
verdict last_invoked (_ ∷ events) ending = verdict last_invoked events ending

bind-returned :
    {S A B : Type 0} (m : Exec S A) (k : A → Exec S B) (s : S) (a : A)
    → (m s).0 ≡ returned a
    → (m >>= k) s ≡ k a (m s).1
unfolding ◌>>=◌
bind-returned m k s a h = rw h refl

module _ {S : Type 0} (base : RepositoryBase S) (lookup : S → String → Option ClaimProcess)
    (working : IsWorking base lookup) (i : String) where
  -- The claim of the id is stored.
  pub record Stored (c : ClaimProcess) (s : S) : Type 0 where
    pub found : lookup s i ≡ some c
    pub named : c.id ≡ i

  update-Stored : (c : ClaimProcess) (s : S) → c.id ≡ i → Stored c (base.update_async c s).1
  update-Stored c s named = record {
    found = rw (working.lookup_update c s i) (ground (arith, eq_iff c.id i, named));
    named = named;
  }

  -- A change of a stored claim returns the changed claim, and that is stored.
  pub change-Stored :
      (f : ClaimProcess → ClaimProcess) (c : ClaimProcess) (s : S)
      → Stored c s
      → (f c).id ≡ c.id
      → ((change base i f s).0 ≡ returned (some (f c))) × Stored (f c) (change base i f s).1
  unfolding change ◌>>=◌
  change-Stored f c s h same =
      rw (working.get i s, h.found, working.update (f c) s)
        (refl, update-Stored (f c) s (ground (arith, same, h.named)))

  -- The claim is stored, with a status.
  abbrev HasStatus : ClaimSteps → S → Type 0
  HasStatus step s = (c : ClaimProcess) × Stored c s × (c.status ≡ step)

  abbrev Reaches : Outcome String → ClaimSteps → Outcome String × S → Type 0
  Reaches o step (r, s) = (r ≡ o) × HasStatus step s

  -- Behind a change of the claim.
  behind :
      (f : ClaimProcess → ClaimProcess) (k : Option ClaimProcess → Exec S String) (c : ClaimProcess)
      (s : S) (o : Outcome String) (step : ClaimSteps)
      → Stored c s
      → (f c).id ≡ c.id
      → ((t : S) → Stored (f c) t → Reaches o step (k (some (f c)) t))
      → Reaches o step ((change base i f >>= k) s)
  behind f k c s o step h same rest =
      let (is_returned, stored) = change-Stored f c s h same in
      rw (bind-returned (change base i f) k s (some (f c)) is_returned)
        (rest (change base i f s).1 stored)

  set_step-Stored :
      (o : Option ClaimSteps) (c : ClaimProcess) (s : S)
      → Stored c s
      → ((set_step base i o s).0 ≡ returned tt)
        × Stored (record c { status = step_or o c.status }) (set_step base i o s).1
  unfolding update_claim_process_status ◌>>=◌
  set_step-Stored none c s h = (refl, h)
  set_step-Stored (some step) c s h =
      let f : ClaimProcess → ClaimProcess = λ c. record c { status = step } in
      let (is_returned, stored) = change-Stored f c s h refl in rw is_returned (refl, stored)

  events-Reaches :
      (last_failed last_invoked : Option String) (events : List Event) (ending : Option Exn)
      (c : ClaimProcess) (s : S)
      → Stored c s
      → Reaches
          (verdict last_invoked events ending)
          (last_status events c.status)
          (handle_events base i last_failed last_invoked events ending s)
  unfolding handle_events update_claim_process_status update_claim_process_comment ◌>>=◌
  events-Reaches lf li [] ending c s h = (refl, (c, h, refl))
  events-Reaches lf li (started ∷ events) ending c s h = events-Reaches lf li events ending c s h
  events-Reaches lf li (unrelated ∷ events) ending c s h = events-Reaches lf li events ending c s h
  events-Reaches lf li (executor_failure j ∷ events) ending c s h =
      events-Reaches (some j) li events ending c s h
  events-Reaches lf li (output result ∷ events) ending c s h =
      behind (λ c. record c { status = completed }) _ c s (returned result) completed h refl
        (λ t stored. (refl, (record c { status = completed }, stored, refl)))
  events-Reaches lf li (workflow_failure d ∷ events) ending c s h =
      let comment = failure_comment d lf li in
      let f : ClaimProcess → ClaimProcess = λ c. record c { status = failed } in
      let g : ClaimProcess → ClaimProcess = λ c. record c { process_comment = comment } in
      behind f _ c s (raised (exn executor_failed d.message)) failed h refl λ t stored.
        behind g _ (f c) t (raised (exn executor_failed d.message)) failed stored refl
          λ u kept. (refl, (g (f c), kept, refl))
  events-Reaches lf li (invoked j ∷ events) ending c s h =
      let (is_returned, stored) = set_step-Stored (step_of j) c s h in
      rw
        (bind-returned (set_step base i (step_of j))
          (λ _. handle_events base i lf (some j) events ending) s tt is_returned)
        (events-Reaches lf (some j) events ending
          (record c { status = step_or (step_of j) c.status }) (set_step base i (step_of j) s).1
          stored)

  write_time-Stored :
      (elapsed : String) (c : ClaimProcess) (s : S)
      → Stored c s
      → ((write_time base i elapsed s).0 ≡ returned tt)
        × Stored (record c { processed_time = elapsed }) (write_time base i elapsed s).1
  unfolding write_time ◌>>=◌
  write_time-Stored elapsed c s h =
      let c' : ClaimProcess = record c { processed_time = elapsed } in
      rw (working.get i s, h.found) (working.update c' s, update-Stored c' s h.named)

  -- Where the database answers and holds the claim under its id: a run returns the data of the
  -- workflow's first output, or raises for its first failure, whichever comes first, or raises what
  -- ended the stream or that there was no output; the claim's status is then completed or failed, or
  -- else that of the last step that was invoked, or as it was; and the time of the run is written,
  -- also where the run raises.
  pub run-ends :
      (events : List Event) (ending : Option Exn) (elapsed : String) (c : ClaimProcess) (s : S)
      → lookup s i ≡ some c
      → c.id ≡ i
      → let (r, t) = run base i events ending elapsed s in
        (r ≡ verdict none events ending)
        × ((d : ClaimProcess) × (lookup t i ≡ some d)
            × (d.status ≡ last_status events c.status)
            × (d.processed_time ≡ elapsed))
  unfolding run ◌>>=◌
  run-ends events ending elapsed c s found named =
      let (ends, (d, stored, status)) =
        events-Reaches none none events ending c s (record { found = found; named = named }) in
      let t = (handle_events base i none none events ending s).1 in
      let (timed, kept) = write_time-Stored elapsed d t stored in
      (rw (timed, conclude) ends, (record d { processed_time = elapsed }, kept.found, status, refl))
