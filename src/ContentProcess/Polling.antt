-- ===== src/ContentProcess/Polling.antt =====
-- How `poll_status` of services/content_process_service.py ends, for every behaviour of the database.
pub mod Log
use claimsintelligence.Base.{
  if◌then◌else◌, ℕ, zero, ◌-◌, suc, ◌+◌, ◌*◌, ◌<◌, ◌≤◌, String, ◌≡◌, refl, sym, ◌∙◌, ◌++◌, Bool,
  true, false, Option, none, some, List, [], ◌∷◌, arith, string_key, ltb, Bool-cases, inl, inr,
}
use mathlib.Core.List.{append_assoc}
use native.Mathlib.Nat.{suc-mul}
use claimsintelligence.ContentProcess.Seconds.{plus, plus_grows}
use claimsintelligence.Exec.{Exec, Outcome, returned, raised, continue, pure, ◌>>=◌}
use claimsintelligence.ContentProcess.{
  ProcessRecord, ProcessStatus, get_record, sleep, Reply, found, fail, Event, Env, Service, answer,
  perform, as_record, status_of, get_status, is_terminal, missing, last_seen, notify, wait_then,
  after_read, poll, poll_status,
}
use claimsintelligence.ContentProcess.Polling.Log.{
  reads, latest, is_absent, Verdict, InTime, Polled, longer, longer-InTime, longer-Verdict,
}

abbrev as_status : String → Reply → Outcome (Option ProcessStatus)
as_status i (fail e) = raised e
as_status i (found x) = returned (some (status_of i x))
as_status i _ = returned none

get_status_lem :
    (env : Env) (i : String) (s : Service)
    → get_status env i s ≡ (
      as_status i (env s.trace (get_record i)),
      record s { trace = (get_record i, env s.trace (get_record i)) ∷ s.trace },
    )
unfolding get_status perform ◌>>=◌
get_status_lem env i s = ground arith

module _ (env : Env) (i : String) (interval timeout : ℕ)
    (on_poll : Option (ProcessStatus → Exec Service (Unit {0})))
    (quiet : (r : ProcessStatus) (s : Service) → (notify on_poll r s).1.trace ≡ s.trace) where
  abbrev Loop : ℕ → ℕ → Option ProcessStatus → Exec Service (Option ProcessStatus)
  Loop = poll env i interval timeout on_poll

  abbrev Meets :
      ℕ → Option ProcessStatus → List Event → Outcome (Option ProcessStatus) × Service → Type 0
  Meets = Polled i interval timeout

  abbrev Rest : ℕ → ProcessRecord → (ProcessStatus → Exec Service (Option ProcessStatus)) → Type 0
  Rest elapsed x next =
      (s : Service)
      → Meets (plus elapsed interval) (some (status_of i x)) s.trace (next (status_of i x) s)

  longer-Polled :
      (elapsed : ℕ) (result : Option ProcessStatus) (x : ProcessRecord) (t u : List Event)
      (z : Reply) (y : Outcome (Option ProcessStatus) × Service)
      → elapsed < timeout
      → u ≡ (get_record i, found x) ∷ t
      → Meets (plus elapsed interval) (some (status_of i x)) ((sleep interval, z) ∷ u) y
      → Meets elapsed result t y
  longer-Polled elapsed result x t u z y lt e (new, trace, bounded, verdict) = (
    longer i interval timeout elapsed result z x new,
    trace ∙ (rw e (sym (append_assoc new _ t))),
    longer-InTime i interval timeout elapsed result z x new lt bounded,
    longer-Verdict i interval timeout elapsed result z x new y.0 verdict,
  )

  -- The sleep, and what comes after it.
  sleep-Polled :
      (elapsed : ℕ) (result : Option ProcessStatus) (x : ProcessRecord) (t : List Event)
      (next : ProcessStatus → Exec Service (Option ProcessStatus)) (s : Service)
      → elapsed < timeout
      → Rest elapsed x next
      → s.trace ≡ (get_record i, found x) ∷ t
      → is_terminal (status_of i x).status ≡ false
      → Meets elapsed result t (wait_then env i interval timeout on_poll (next (status_of i x)) s)
  unfolding ◌>>=◌ perform
  sleep-Polled elapsed result x t next s lt rest e open_ = go (env s.trace (sleep interval))
    where
      go :
          (z : Reply)
          → Meets elapsed result t (
              continue
                (answer z)
                (λ _. next (status_of i x))
                (record s { trace = (sleep interval, z) ∷ s.trace }))
      go (fail f) =
          ((sleep interval, fail f) ∷ (get_record i, found x) ∷ [], rw e refl, (lt, tt), tt)
      go z =
          longer-Polled elapsed result x t s.trace z
            (next (status_of i x) (record s { trace = (sleep interval, z) ∷ s.trace })) lt e
            (rest (record s { trace = (sleep interval, z) ∷ s.trace }))

  -- What is done with a record that was read.
  found-Polled :
      (elapsed : ℕ) (result : Option ProcessStatus) (x : ProcessRecord) (t : List Event)
      (next : ProcessStatus → Exec Service (Option ProcessStatus)) (s : Service)
      → elapsed < timeout
      → Rest elapsed x next
      → s.trace ≡ (get_record i, found x) ∷ t
      → Meets elapsed result t
          (after_read env i interval timeout on_poll next (some (status_of i x)) s)
  unfolding ◌>>=◌
  found-Polled elapsed result x t next s lt rest e =
      go (notify on_poll (status_of i x) s).0 (notify on_poll (status_of i x) s).1
        (quiet (status_of i x) s ∙ e)
    where
      go :
          (o : Outcome (Unit {0})) (s' : Service)
          → s'.trace ≡ (get_record i, found x) ∷ t
          → Meets elapsed result t (
              continue o
                (λ _.
                  if is_terminal (status_of i x).status
                  then pure (some (status_of i x))
                  else wait_then env i interval timeout on_poll (next (status_of i x)))
                s')
      go (raised f) s' e' = ((get_record i, found x) ∷ [], e', (lt, tt), tt)
      go (returned u) s' e' = elim (Bool-cases (is_terminal (status_of i x).status)) [
        | inl over ↦ rw over ((get_record i, found x) ∷ [], e', (lt, tt), (refl, λ open_. cc))
        | inr open_ ↦ rw open_ (sleep-Polled elapsed result x t next s' lt rest e' open_)
      ]

  read-Polled :
      (elapsed : ℕ) (result : Option ProcessStatus)
      (next : ProcessStatus → Exec Service (Option ProcessStatus)) (s : Service)
      → elapsed < timeout
      → ((x : ProcessRecord) → Rest elapsed x next)
      → Meets elapsed result s.trace
          ((do r ← get_status env i; after_read env i interval timeout on_poll next r) s)
  unfolding ◌>>=◌
  read-Polled elapsed result next s lt rest =
      rw (get_status_lem env i s) (go (env s.trace (get_record i)))
    where
      go :
          (r : Reply)
          → Meets elapsed result s.trace (
              continue
                (as_status i r)
                (after_read env i interval timeout on_poll next)
                (record s { trace = (get_record i, r) ∷ s.trace }))
      go (fail f) = ((get_record i, fail f) ∷ [], refl, (lt, tt), tt)
      go (found x) = found-Polled elapsed result x s.trace next _ lt (rest x) refl
      go r = ((get_record i, r) ∷ [], refl, (lt, tt), (refl, λ open_ here. cc))

  longer_enough :
      (rounds elapsed : ℕ)
      → elapsed < timeout
      → timeout ≤ 2251799813685248 * interval
      → 2 * timeout ≤ 2 * elapsed + suc rounds * interval
      → 2 * timeout ≤ 2 * plus elapsed interval + rounds * interval
  longer_enough rounds elapsed lt coarse enough =
      omega (arith, plus_grows elapsed interval timeout lt coarse, enough, suc-mul rounds interval)

  -- With rounds for twice the time that is left, and one more.
  poll-Polled :
      (rounds elapsed : ℕ) (result : Option ProcessStatus) (s : Service)
      → timeout ≤ 2251799813685248 * interval
      → 2 * timeout ≤ 2 * elapsed + rounds * interval
      → Meets elapsed result s.trace (Loop (suc rounds) elapsed result s)
  unfolding poll ◌>>=◌
  poll-Polled zero elapsed result s coarse enough = elim (Bool-cases (ltb elapsed timeout)) [
    | inl more ↦ absurd (ground arith)
    | inr over ↦ rw over ([], refl, tt, (refl, λ open_ there. ground arith))
  ]
  poll-Polled (suc rounds) elapsed result s coarse enough =
      elim (Bool-cases (ltb elapsed timeout)) [
        | inl more ↦ rw more (
            read-Polled elapsed result
              (λ seen. Loop (suc rounds) (plus elapsed interval) (some seen)) s (ground arith)
              λ x s'.
                poll-Polled rounds (plus elapsed interval) (some (status_of i x)) s' coarse
                  (longer_enough rounds elapsed (ground arith) coarse enough))
        | inr over ↦ rw over ([], refl, tt, (refl, λ open_ there. ground arith))
      ]

  -- Where the interval is a part in 2^51 of the timeout at least, and the callback makes no call of
  -- the service: with a round for each half of an interval in the timeout, and one more, the loop ends
  -- by its own tests; every read is made where the floats that were added up are below the timeout;
  -- and what is returned is what was read last, a failure if that was no record, or a timeout if
  -- nothing was read. A record that is not done is given up only when the sum has come to the timeout.
  pub poll_status-Polled :
      (rounds : ℕ)
      → timeout ≤ 2251799813685248 * interval
      → 2 * timeout ≤ rounds * interval
      → (s : Service)
      → Polled i interval timeout 0 none s.trace
          (poll_status env i interval timeout on_poll rounds s)
  unfolding poll_status
  poll_status-Polled rounds coarse enough s =
      poll-Polled rounds 0 none s coarse (omega (arith, enough))
