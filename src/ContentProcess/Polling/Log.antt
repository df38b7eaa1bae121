-- ===== src/ContentProcess/Polling/Log.antt =====
-- What the loop of `poll_status`, services/content_process_service.py, does to the log.
use claimsintelligence.Base.{
  ℕ, zero, suc, ◌+◌, ◌<◌, ◌≤◌, String, ◌≡◌, refl, sym, ◌∙◌, ◌++◌, Bool, true, false, Option, none,
  some, List, [], ◌∷◌, arith, string_key,
}
use claimsintelligence.ContentProcess.Seconds.{plus}
use claimsintelligence.Exec.{Outcome, returned, raised}
use claimsintelligence.ContentProcess.{
  ProcessRecord, ProcessStatus, get_record, sleep, Reply, found, Event, Service, as_record,
  status_of, is_terminal, missing, last_seen,
}

-- The calls of the database.
abbrev pub reads : List Event → ℕ
reads [] = 0
reads ((get_record i, r) ∷ t) = suc (reads t)
reads (_ ∷ t) = reads t

module _ (i : String) where
  -- What the newest read found, or else what had been seen before.
  abbrev pub latest : ProcessStatus → List Event → ProcessStatus
  latest p [] = p
  latest p ((get_record j, r) ∷ t) = elim (as_record r) [
    | none ↦ missing i
    | some x ↦ status_of i x
  ]
  latest p (_ ∷ t) = latest p t

-- The newest read found no record.
abbrev pub is_absent : List Event → Bool
is_absent [] = false
is_absent ((get_record j, r) ∷ t) = elim (as_record r) [ none ↦ true | some x ↦ false ]
is_absent (_ ∷ t) = is_absent t

-- The time that is summed up in so many rounds.
abbrev pub time_after : ℕ → ℕ → ℕ → ℕ
time_after interval elapsed zero = elapsed
time_after interval elapsed (suc n) = time_after interval (plus elapsed interval) n

-- What the loop returns is what it read last, and it gives up on a record that is not done only
-- when the time is over. It does not run out of its fuel.
abbrev pub Verdict :
    String → ℕ → ℕ → ℕ → Option ProcessStatus → List Event → Outcome (Option ProcessStatus) → Type 0
Verdict i interval timeout elapsed result new (returned none) = ⊥
Verdict i interval timeout elapsed result new (returned (some p)) =
    (p ≡ latest i (last_seen i result) new)
    × (is_terminal p.status ≡ false
        → is_absent new ≡ false
        → timeout ≤ time_after interval elapsed (reads new))
Verdict i interval timeout elapsed result new (raised e) = Unit

-- Every read is made at a time below the timeout.
abbrev pub InTime : ℕ → ℕ → ℕ → ℕ → Type 0
InTime interval timeout elapsed zero = Unit
InTime interval timeout elapsed (suc n) =
    (elapsed < timeout) × InTime interval timeout (plus elapsed interval) n

module _ (i : String) (interval timeout : ℕ) where
  abbrev pub Polled :
      ℕ → Option ProcessStatus → List Event → Outcome (Option ProcessStatus) × Service → Type 0
  Polled elapsed result t x =
      (new : List Event) × (x.1.trace ≡ new ++ t)
      × InTime interval timeout elapsed (reads new)
      × Verdict i interval timeout elapsed result new x.0

reads-append : (a b : List Event) → reads (a ++ b) ≡ reads a + reads b
reads-append [] b = omega arith
reads-append ((get_record i, r) ∷ a) b = omega (arith, reads-append a b)
reads-append ((_, r) ∷ a) b = reads-append a b

latest-append :
    (i : String) (p : ProcessStatus) (a b : List Event)
    → latest i p (a ++ b) ≡ latest i (latest i p b) a
latest-append i p [] b = refl
latest-append i p ((get_record j, r) ∷ a) b = refl
latest-append i p ((_, r) ∷ a) b = latest-append i p a b

is_absent-append : (a b : List Event) → is_absent b ≡ false → is_absent (a ++ b) ≡ is_absent a
is_absent-append [] b h = h
is_absent-append ((get_record j, r) ∷ a) b h = refl
is_absent-append ((_, r) ∷ a) b h = is_absent-append a b h

module _ (i : String) (interval timeout elapsed : ℕ) (result : Option ProcessStatus) (z : Reply)
    (x : ProcessRecord) (new : List Event) where
  abbrev pub longer : List Event
  longer = new ++ (sleep interval, z) ∷ (get_record i, found x) ∷ []

  reads-longer : reads longer ≡ suc (reads new)
  reads-longer =
      omega (arith, reads-append new ((sleep interval, z) ∷ (get_record i, found x) ∷ []))

  latest-longer : latest i (last_seen i result) longer ≡ latest i (status_of i x) new
  latest-longer = latest-append i (last_seen i result) new _

  is_absent-longer : is_absent longer ≡ is_absent new
  is_absent-longer = is_absent-append new _ refl

  pub longer-InTime :
      elapsed < timeout
      → InTime interval timeout (plus elapsed interval) (reads new)
      → InTime interval timeout elapsed (reads longer)
  longer-InTime lt rest = rw reads-longer (lt, rest)

  pub longer-Verdict :
      (o : Outcome (Option ProcessStatus))
      → Verdict i interval timeout (plus elapsed interval) (some (status_of i x)) new o
      → Verdict i interval timeout elapsed result longer o
  longer-Verdict (returned none) v = v
  longer-Verdict (returned (some p)) (v, w) = (
    v ∙ sym latest-longer,
    λ open_ there. rw reads-longer (w open_ (sym is_absent-longer ∙ there)),
  )
  longer-Verdict (raised e) v = tt
