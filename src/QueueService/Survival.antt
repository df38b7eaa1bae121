-- ===== src/QueueService/Survival.antt =====
-- No message stops a worker: what `_process_queue_message` and the body of `_worker_loop` of
-- queue_service.py let out.
use claimsintelligence.Base.{
  ℕ, String, ◌≡◌, refl, Bool, true, false, List, ◌∷◌, if◌then◌else◌, member, add, nat_key,
}
use claimsintelligence.Exec.{
  Exec, Exn, Outcome, returned, raised, pure, raise, modify, catch_exception, conclude, recover,
  is_cancelled, ◌>>=◌, ◌>>◌,
}
use claimsintelligence.QueueService.Payload.{Codec, build_task_param}
use claimsintelligence.QueueService.State.{
  QueueMessage, join_renewal, Reply, fail, answer, Event, Env, Service, perform,
}
use claimsintelligence.QueueService.Process.{
  unknown, untrack, last_resort, release, handling, handle_message, process_queue_message,
  job_crashed, await_job,
}

-- Nothing is raised, or a cancellation.
abbrev pub IsContained {ℓ} : {A : Type ℓ} → Outcome A → Type 0
IsContained (returned a) = Unit
IsContained (raised e) = is_cancelled e ≡ true

module _ {S A : Type 0} where
  handler-IsContained :
      (b : Bool) (h : Exec S A) (e : Exn) (s : S)
      → is_cancelled e ≡ b
      → IsContained (h s).0
      → IsContained ((if b then raise e else h) s).0
  unfolding ◌>>=◌
  handler-IsContained true h e s c k = c
  handler-IsContained false h e s c k = k

  recover-IsContained :
      (r : Outcome A) (h : Exn → Exec S A) (s : S)
      → ((e : Exn) (s : S) → IsContained (h e s).0)
      → IsContained (recover r (λ e. if is_cancelled e then raise e else h e) s).0
  recover-IsContained (returned a) h s k = tt
  recover-IsContained (raised e) h s k = handler-IsContained (is_cancelled e) (h e) e s refl (k e s)

  catch_exception-IsContained :
      (m : Exec S A) (h : Exn → Exec S A)
      → ((e : Exn) (s : S) → IsContained (h e s).0)
      → (s : S) → IsContained (catch_exception m h s).0
  unfolding catch_exception ◌>>=◌
  catch_exception-IsContained m h k s = recover-IsContained (m s).0 h (m s).1 k

-- The wait for the renewal task raises only where the job itself is cancelled there.
abbrev pub JoinIsContained : ℕ → Env → Type 0
JoinIsContained w env = (t : List Event) → IsContained (answer (env t (join_renewal w)))

module _ (env : Env) (codec : Codec) (w : ℕ) (m : QueueMessage) where
  last_resort-IsContained :
      (c : String) (e : Exn) (s : Service) → IsContained (last_resort env codec w m c e s).0
  unfolding last_resort ◌>>=◌
  last_resort-IsContained c e = catch_exception-IsContained _ _ (λ e s. tt)

  handle_message-IsContained :
      (wakes : List ℕ) (s : Service) → IsContained (handle_message env codec w m wakes s).0
  unfolding handle_message
  handle_message-IsContained wakes = go (build_task_param codec m.content)
    where
      go : (r : Outcome String) (s : Service) → IsContained (handling env codec w m wakes r s).0
      go (raised e) = catch_exception-IsContained _ _ (last_resort-IsContained unknown)
      go (returned c) = catch_exception-IsContained _ _ (last_resort-IsContained c)

  -- The lines of the `finally` block, with the reply to the wait.
  abbrev leave : Reply → Exec Service (Unit {0})
  leave r =
      ((λ s. (answer r, record s { trace = (join_renewal w, r) ∷ s.trace })) >>= λ _. pure tt)
      >>= λ _. modify (untrack w)

  leave-IsContained : (r : Reply) (s : Service) → IsContained (answer r) → IsContained (leave r s).0
  unfolding ◌>>=◌
  leave-IsContained (fail e) s h = h
  leave-IsContained _ s h = tt

  module _ (joins : JoinIsContained w env) where
    release-IsContained : (s : Service) → IsContained (release env codec w s).0
    unfolding release ◌>>=◌ perform
    release-IsContained s = go (member w s.renewing)
      where
        block : Bool → Exec Service (Unit {0})
        block b = (if b then (do perform env (join_renewal w); pure tt) else pure tt) >>= λ _.
            modify (untrack w)

        go : (b : Bool) → IsContained (block b s).0
        go true = leave-IsContained (env s.trace (join_renewal w)) s (joins s.trace)
        go false = tt

    conclude-IsContained :
        (r u : Outcome (Unit {0})) → IsContained r → IsContained u → IsContained (conclude r u)
    conclude-IsContained r (returned x) h k = h
    conclude-IsContained r (raised e) h k = k

    -- If the wait for the renewal task raises nothing but a cancellation, neither does the
    -- processing of a message, well-formed or not.
    pub process-IsContained :
        (wakes : List ℕ) (s : Service) → IsContained (process_queue_message env codec w m wakes s).0
    unfolding process_queue_message ◌>>=◌
    process-IsContained wakes s =
        conclude-IsContained (handle_message env codec w m wakes s).0 _
          (handle_message-IsContained wakes s)
          (release-IsContained (handle_message env codec w m wakes s).1)

    crashed-returns :
        (r : Outcome (Unit {0})) (s : Service)
        → IsContained r
        → (recover r (job_crashed env codec w m) s).0 ≡ returned tt
    unfolding job_crashed ◌>>=◌
    crashed-returns (returned x) s h = refl
    crashed-returns (raised e) s h = rw h

    -- If the wait for the renewal task raises nothing but a cancellation, what the worker awaits
    -- returns, whatever becomes of the job: an exception or a cancellation of the job ends here.
    pub await_job-returns :
        (wakes : List ℕ) (s : Service) → (await_job env codec w m wakes s).0 ≡ returned tt
    unfolding await_job ◌>>=◌
    await_job-returns wakes s =
        let s' : Service = record s { inflight_task = add w s.inflight_task } in
        crashed-returns (process_queue_message env codec w m wakes s').0 _
          (process-IsContained wakes s')
