-- ===== src/QueueService/NoLoss/Job.antt =====
-- The job of a message, `_process_queue_message` of queue_service.py with the renewals during its
-- workflow: no deletion that is not justified.
use claimsintelligence.Base.{
  ℕ, String, ◌≡◌, refl, Bool, true, false, Option, none, some, List, [], ◌∷◌, arith, if◌then◌else◌,
  nat_key, string_key, eq_iff, eqb_iff, not, leb, add,
}
use claimsintelligence.Exec.{
  Exec, Exn, Outcome, returned, raised, pure, raise, modify, is_cancelled, is_not_found,
  is_executor_failed, catch_exception, finally_do, ◌>>=◌, ◌>>◌,
}
use claimsintelligence.Exec.Keeps.{
  Keeps, Ensures, Keeps-pure, Keeps-raise, Keeps-gets, Keeps-if, Keeps-bind, Keeps-bind-Ensures,
  Keeps-modify, Keeps-catch, Keeps-catch_exception, Keeps-finally_do, bind-Ensures,
}
use claimsintelligence.Dict
use claimsintelligence.Dict.{get-set, get-pop}
use claimsintelligence.QueueService.Payload.{Codec, build_task_param}
use claimsintelligence.QueueService.State.{
  QueueMessage, Call, run_claim, join_renewal, Reply, fail, answer, Env, Service, perform,
}
use claimsintelligence.QueueService.Finalise.{track, new_receipt}
use claimsintelligence.QueueService.Renew.{
  store_receipt, renew_once, renew_tracked, renew_visibility_loop, max_lifetime,
}
use claimsintelligence.QueueService.Process.{
  unknown, track_job, stop_renewing, untrack, run_workflow, finalise, run_job, last_resort, release,
  handling, handle_message, process_queue_message,
}
use claimsintelligence.QueueService.NoLoss.{
  Safe, Handled, is_delete, OwnsReceipt, perform-Safe, perform-Handled, DeletesAreJustified,
}
use claimsintelligence.QueueService.NoLoss.Ending.{
  track-Safe, handle_successful_processing-Handled, handle_failed-Safe,
}

-- The renewal loop keeps every invariant that its one call and the new receipt keep.
module _ (env : Env) (m : QueueMessage) (w : ℕ) {P : Service → Type 0}
    (call : (c : Call) → is_delete c ≡ false → Keeps P (perform env c))
    (own : (s : Service) → P s → OwnsReceipt m w s)
    (retrack : (i p : String) → m.id ≡ some i → (s : Service) → P s → P (track w i p s)) where
  store_receipt-Keeps :
      (i : String) (p : Option String) → m.id ≡ some i → Keeps P (store_receipt w i p)
  store_receipt-Keeps i none e = Keeps-pure tt
  store_receipt-Keeps i (some p) e = Keeps-modify _ (retrack i p e)

  renew_once-Keeps :
      (t : Option (String × String))
      → ((i p : String) → t ≡ some (i, p) → m.id ≡ some i)
      → Keeps P (renew_once env w t)
  unfolding renew_once
  renew_once-Keeps none e = Keeps-pure true
  renew_once-Keeps (some (i, p)) e =
      Keeps-catch _ _
        (Keeps-bind _ _ (Keeps-gets _) λ config. Keeps-bind _ _ (call _ refl) λ r.
          Keeps-bind _ _ (store_receipt-Keeps i (new_receipt r) (e i p refl)) λ _. Keeps-pure true)
        λ x.
          Keeps-if (is_not_found x) _ _ (Keeps-pure false)
            (Keeps-if (is_cancelled x) _ _ (Keeps-raise x) (Keeps-pure true))

  renew_tracked-Keeps : Keeps P (renew_tracked env w)
  unfolding renew_tracked
  renew_tracked-Keeps = record { after = λ s h. go s s.main_queue h }
    where
      go :
          (s : Service) (b : Bool)
          → P s
          → P (if b then renew_once env w (Dict.get s.inflight_message w) s else pure true s).1
      go s true h = (renew_once-Keeps (Dict.get s.inflight_message w) (own s h)).after s h
      go s false h = (Keeps-pure {P = P} true).after s h

  renew_visibility_loop-Keeps : (wakes : List ℕ) → Keeps P (renew_visibility_loop env w wakes)
  unfolding renew_visibility_loop
  renew_visibility_loop-Keeps [] = Keeps-pure tt
  renew_visibility_loop-Keeps (t ∷ wakes) =
      let rest = renew_visibility_loop-Keeps wakes in
      Keeps-bind _ _ (Keeps-gets _) λ config. Keeps-bind _ _ (Keeps-gets _) λ running.
        Keeps-if (not running) _ _ (Keeps-pure tt) (
          Keeps-if (leb (max_lifetime config) t) _ _ (Keeps-pure tt)
            (Keeps-bind _ _ renew_tracked-Keeps λ go_on. Keeps-if go_on _ _ rest (Keeps-pure tt)))

module _ (env : Env) (codec : Codec) (m : QueueMessage) (w : ℕ) where
  abbrev SafeState : Service → Type 0
  SafeState = Safe codec m w env

  abbrev WorkState : Option Exn → Service → Type 0
  WorkState none s = Handled codec m w env s
  WorkState (some e) s = SafeState s

  abbrev running : String → Reply → Exec Service (Option Exn)
  running c r =
      catch_exception
        ((λ s. (answer r, record s { trace = (run_claim c, r) ∷ s.trace })) >>= λ _. pure none)
        (λ e. pure (some e))

  failed :
      (e : Exn) (b : Bool) (s : Service)
      → SafeState s
      → Ensures WorkState SafeState
          ((if b then raise e else pure (some e)) s).0
          ((if b then raise e else pure (some e)) s).1
  unfolding ◌>>=◌
  failed e true s h = h
  failed e false s h = h

  -- Where the workflow raised nothing, it finished.
  answered :
      (c : String)
      → build_task_param codec m.content ≡ returned c
      → (r : Reply) (s : Service) → SafeState s
      → Ensures WorkState SafeState (running c r s).0 (running c r s).1
  unfolding catch_exception ◌>>=◌
  answered c parsed (fail e) s h =
      failed e (is_cancelled e) _ (record { justified = h.justified; own = h.own })
  answered c parsed r s h = record {
    safe = record { justified = h.justified; own = h.own };
    handled = rw parsed (ground (arith, eq_iff c c));
  }

  run_claim-Ensures :
      (c : String)
      → build_task_param codec m.content ≡ returned c
      → (s : Service) → SafeState s
      → Ensures WorkState SafeState
          (catch_exception (perform env (run_claim c) >>= λ _. pure none) (λ e. pure (some e)) s).0
          (catch_exception (perform env (run_claim c) >>= λ _. pure none) (λ e. pure (some e)) s).1
  unfolding perform ◌>>=◌ catch_exception
  run_claim-Ensures c parsed s h = answered c parsed (env s.trace (run_claim c)) s h

  run_workflow-Ensures :
      (c : String) (wakes : List ℕ)
      → build_task_param codec m.content ≡ returned c
      → (s : Service) → SafeState s
      → Ensures WorkState SafeState
          (run_workflow env codec w c wakes s).0
          (run_workflow env codec w c wakes s).1
  unfolding run_workflow
  run_workflow-Ensures c wakes parsed =
      bind-Ensures SafeState WorkState _ _
        (Keeps-catch _ _
          (renew_visibility_loop-Keeps env m w (perform-Safe codec m w env) (λ s h. h.own)
            (track-Safe codec m w env) wakes)
          (λ e. Keeps-pure tt))
        (λ _. run_claim-Ensures c parsed)

  finish : String → Option Exn → Exec Service (Unit {0})
  finish c o = do perform env (join_renewal w); modify (stop_renewing w); finalise env codec w m c o

  finish-Safe :
      (c : String) (o : Option Exn) (s : Service) → WorkState o s → SafeState (finish c o s).1
  unfolding finish finalise
  finish-Safe c none s h =
      ((Keeps-bind _ _ (perform-Handled codec m w env _ refl) λ _.
          Keeps-bind _ _
            (Keeps-modify _ λ s h. record {
              safe = record { justified = h.safe.justified; own = h.safe.own };
              handled = h.handled;
            })
            (λ _. handle_successful_processing-Handled codec m w env)).after
        s h).safe
  finish-Safe c (some e) s h =
      (Keeps-bind _ _ (perform-Safe codec m w env _ refl) λ _.
          Keeps-bind _ _ (Keeps-modify _ λ s h. record { justified = h.justified; own = h.own })
            (λ _.
              Keeps-if (is_executor_failed e) _ _ (handle_failed-Safe codec m w env _ _ _ _)
                (handle_failed-Safe codec m w env _ _ _ _))).after
        s h

  track_job-Safe : (c : String) (s : Service) → SafeState s → SafeState (track_job w c m s)
  unfolding track_job
  track_job-Safe c s h = go m.id m.pop_receipt refl
    where
      s' : Service
      s' = record s {
        inflight = Dict.set s.inflight w c;
        inflight_batch_id = Dict.set s.inflight_batch_id w c;
        renewing = add w s.renewing;
      }

      h' : SafeState s'
      h' = record { justified = h.justified; own = h.own }

      go :
          (i p : Option String)
          → m.id ≡ i
          → SafeState
              (elim i [ none ↦ s' | some i ↦ elim p [ none ↦ s' | some p ↦ track w i p s' ] ])
      go none p e = h'
      go (some i) none e = h'
      go (some i) (some p) e = track-Safe codec m w env i p e s' h'

  run_job-Safe :
      (c : String) (wakes : List ℕ)
      → build_task_param codec m.content ≡ returned c
      → Keeps SafeState (run_job env codec w m c wakes)
  unfolding run_job finish
  run_job-Safe c wakes parsed = Keeps-bind _ _ (Keeps-modify _ (track_job-Safe c)) λ _.
      Keeps-bind _ _ (perform-Safe codec m w env _ refl) λ _.
        Keeps-bind-Ensures SafeState WorkState _ _ (run_workflow-Ensures c wakes parsed)
          (finish-Safe c)

  last_resort-Safe : (c : String) (e : Exn) → Keeps SafeState (last_resort env codec w m c e)
  unfolding last_resort
  last_resort-Safe c e =
      Keeps-catch_exception _ _ (handle_failed-Safe codec m w env _ _ _ _) (λ e'. Keeps-pure tt)

  handle_message-Safe : (wakes : List ℕ) → Keeps SafeState (handle_message env codec w m wakes)
  unfolding handle_message
  handle_message-Safe wakes = go (build_task_param codec m.content) refl
    where
      go :
          (r : Outcome String)
          → build_task_param codec m.content ≡ r
          → Keeps SafeState (handling env codec w m wakes r)
      go (raised e) parsed =
          Keeps-catch_exception _ _ (handle_failed-Safe codec m w env _ _ _ _)
            (last_resort-Safe unknown)
      go (returned c) parsed =
          Keeps-catch_exception _ _ (run_job-Safe c wakes parsed) (last_resort-Safe c)

  -- The entry of the worker goes, and with it what is owned.
  untrack-Safe : (s : Service) → SafeState s → SafeState (untrack w s)
  unfolding untrack
  untrack-Safe s h = record {
    justified = h.justified;
    own = λ i p e. ground (arith, get-pop s.inflight_message w w, eqb_iff w w);
  }

  release-Safe : Keeps SafeState (release env codec w)
  unfolding release
  release-Safe = Keeps-bind _ _ (Keeps-gets _) λ renewing.
      Keeps-bind _ _
        (Keeps-if renewing _ _
          (Keeps-bind _ _ (perform-Safe codec m w env _ refl) (λ _. Keeps-pure tt)) (Keeps-pure tt))
        (λ _. Keeps-modify _ untrack-Safe)

  -- However the storage account, the workflow and the renewals behave, and also where the job is
  -- cancelled: if every deletion in the log is justified and no receipt is tracked for the worker,
  -- every deletion in the log is justified after the message was processed. A deletion is justified
  -- if it is of this message, and comes after its workflow finished or after a copy of it, with its
  -- id and its content, was accepted by the dead-letter queue.
  pub process-justified :
      (wakes : List ℕ) (s : Service)
      → DeletesAreJustified codec m s.trace
      → Dict.get s.inflight_message w ≡ none
      → DeletesAreJustified codec m (process_queue_message env codec w m wakes s).1.trace
  unfolding process_queue_message
  process-justified wakes s j o = done.justified
    where
      done : SafeState (finally_do (handle_message env codec w m wakes) (release env codec w) s).1
      done =
          (Keeps-finally_do _ _ (handle_message-Safe wakes) release-Safe).after s
            (record { justified = j; own = λ i p e. cc })
