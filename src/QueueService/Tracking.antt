-- ===== src/QueueService/Tracking.antt =====
-- The inflight dictionaries over the job of a worker (`_process_queue_message` of queue_service.py):
-- its own entries go when the job ends, and the other workers' stay.
use claimsintelligence.Base.{
  ℕ, String, ◌≡◌, ◌≢◌, refl, Bool, true, false, Option, none, some, List, ◌∷◌, arith, if◌then◌else◌,
  nat_key, member, add, member-discard,
}
use claimsintelligence.Exec.{Exec, pure, modify, ◌>>=◌, ◌>>◌}
use claimsintelligence.Exec.Keeps.{Keeps}
use claimsintelligence.Dict
use claimsintelligence.Dict.{get-set, get-pop}
use claimsintelligence.QueueService.Payload.{Codec}
use claimsintelligence.QueueService.State.{
  QueueMessage, Call, join_renewal, Reply, done, fail, answer, Env, Service, perform,
}
use claimsintelligence.QueueService.Finalise.{track}
use claimsintelligence.QueueService.Process.{
  track_job, untrack, release, handle_message, process_queue_message,
}
use claimsintelligence.QueueService.Frame.{process-Keeps}

-- The entries of a worker, the settings, and whether the service runs, are as in `s₀`.
pub record Untouched (v : ℕ) (s₀ s : Service) : Type 0 where
  pub inflight : Dict.get s.inflight v ≡ Dict.get s₀.inflight v
  pub message : Dict.get s.inflight_message v ≡ Dict.get s₀.inflight_message v
  pub batch : Dict.get s.inflight_batch_id v ≡ Dict.get s₀.inflight_batch_id v
  pub running : s.is_running ≡ s₀.is_running
  pub config : s.config ≡ s₀.config

module _ (env : Env) (v w : ℕ) (other : w ≢ v) (s₀ : Service) where
  perform-Untouched : (c : Call) → Keeps (Untouched v s₀) (perform env c)
  unfolding perform
  perform-Untouched c = record {
    after = λ s h. record {
      inflight = h.inflight;
      message = h.message;
      batch = h.batch;
      running = h.running;
      config = h.config;
    };
  }

  track-Untouched : (i p : String) (s : Service) → Untouched v s₀ s → Untouched v s₀ (track w i p s)
  track-Untouched i p s h = record {
    inflight = h.inflight;
    message = ground (arith, get-set s.inflight_message w v (i, p), h.message);
    batch = h.batch;
    running = h.running;
    config = h.config;
  }

  track_job-Untouched :
      (m : QueueMessage) (c : String) (s : Service)
      → Untouched v s₀ s
      → Untouched v s₀ (track_job w c m s)
  unfolding track_job
  track_job-Untouched m c s h = go m.id m.pop_receipt
    where
      s' : Service
      s' = record s {
        inflight = Dict.set s.inflight w c;
        inflight_batch_id = Dict.set s.inflight_batch_id w c;
        renewing = add w s.renewing;
      }

      h' : Untouched v s₀ s'
      h' = record {
        inflight = ground (arith, get-set s.inflight w v c, h.inflight);
        message = h.message;
        batch = ground (arith, get-set s.inflight_batch_id w v c, h.batch);
        running = h.running;
        config = h.config;
      }

      go :
          (i p : Option String)
          → Untouched v s₀
              (elim i [ none ↦ s' | some i ↦ elim p [ none ↦ s' | some p ↦ track w i p s' ] ])
      go none p = h'
      go (some i) none = h'
      go (some i) (some p) = track-Untouched i p s' h'

  untrack-Untouched : (s : Service) → Untouched v s₀ s → Untouched v s₀ (untrack w s)
  unfolding untrack
  untrack-Untouched s h = record {
    inflight = ground (arith, get-pop s.inflight w v, h.inflight);
    message = ground (arith, get-pop s.inflight_message w v, h.message);
    batch = ground (arith, get-pop s.inflight_batch_id w v, h.batch);
    running = h.running;
    config = h.config;
  }

  -- The job of one worker leaves the entries of any other worker in the inflight dictionaries, the
  -- configuration and the running flag as they were.
  pub process-Untouched :
      (codec : Codec) (m : QueueMessage) (wakes : List ℕ)
      → Untouched v s₀ (process_queue_message env codec w m wakes s₀).1
  process-Untouched codec m wakes =
      (process-Keeps env codec m w perform-Untouched track-Untouched (track_job-Untouched m)
          (λ s h. record {
            inflight = h.inflight;
            message = h.message;
            batch = h.batch;
            running = h.running;
            config = h.config;
          })
          untrack-Untouched wakes).after
        s₀ (record { inflight = refl; message = refl; batch = refl; running = refl; config = refl })

abbrev pub IsIdle : ℕ → Service → Type 0
IsIdle w s =
    (Dict.get s.inflight w ≡ none)
    × (Dict.get s.inflight_message w ≡ none)
    × (Dict.get s.inflight_batch_id w ≡ none)
    × (member w s.renewing ≡ false)

untrack-IsIdle : (w : ℕ) (s : Service) → IsIdle w (untrack w s)
unfolding untrack
untrack-IsIdle w s = (
  ground (arith, get-pop s.inflight w w),
  ground (arith, get-pop s.inflight_message w w),
  ground (arith, get-pop s.inflight_batch_id w w),
  ground (arith, member-discard w w s.renewing),
)

-- The wait for the renewal task, which collects what that task raises, returns.
abbrev pub RenewalJoins : ℕ → Env → Type 0
RenewalJoins w env = (t : List (Call × Reply)) → env t (join_renewal w) ≡ done

module _ (env : Env) (codec : Codec) (w : ℕ) (joins : RenewalJoins w env) where
  -- The lines of the `finally` block, with the reply to the wait.
  abbrev leave : Reply → Exec Service (Unit {0})
  leave r =
      ((λ s. (answer r, record s { trace = (join_renewal w, r) ∷ s.trace })) >>= λ _. pure tt)
      >>= λ _. modify (untrack w)

  leave-IsIdle : (r : Reply) (s : Service) → r ≡ done → IsIdle w (leave r s).1
  unfolding ◌>>=◌
  leave-IsIdle (fail e) s h = cc
  leave-IsIdle _ s h = untrack-IsIdle w _

  release-IsIdle : (s : Service) → IsIdle w (release env codec w s).1
  unfolding release ◌>>=◌ perform
  release-IsIdle s = go (member w s.renewing)
    where
      block : Bool → Exec Service (Unit {0})
      block b = (if b then (do perform env (join_renewal w); pure tt) else pure tt) >>= λ _.
          modify (untrack w)

      go : (b : Bool) → IsIdle w (block b s).1
      go true = leave-IsIdle (env s.trace (join_renewal w)) s (joins s.trace)
      go false = untrack-IsIdle w s

  -- If the wait for the renewal task returns, nothing is tracked for the worker when its job has
  -- ended, by a cancellation too: no inflight process, no receipt, no claim and no renewal.
  pub process-IsIdle :
      (m : QueueMessage) (wakes : List ℕ) (s : Service)
      → IsIdle w (process_queue_message env codec w m wakes s).1
  unfolding process_queue_message ◌>>=◌
  process-IsIdle m wakes s = release-IsIdle (handle_message env codec w m wakes s).1
