-- ===== src/DocumentProcess/Progress.antt =====
-- That the tasks of document_process_executor.py never wait for one another without end.
use claimsintelligence.Base.{
  ℕ, suc, ◌≤◌, ◌<◌, ◌≡◌, ◌⊎◌, inl, inr, refl, sym, ap, Bool, true, false, not, ◌&&◌, none, some,
  List, [], ◌∷◌, arith, ltb, Bool-cases, Option-cases,
}
use mathlib.Core.Path.{subst}
use claimsintelligence.ClaimWorkflow.Repository.{ClaimProcess}
use claimsintelligence.DocumentProcess.Tasks.{
  Item, Stage, waiting, started, failed, writing, locked, loaded, polling, polled, leaving, done,
  Task, World, get_elem?, Local, submit, give_up, fetch, holds, is_inside, max_concurrency, Step,
  enter, local, acquire, load, store, leave, fail, Reach, start,
}
use claimsintelligence.DocumentProcess.Occupancy.{inside, IsBusy, Reach-IsBusy, inside-le}

abbrev pub is_ended : Stage → Bool
is_ended failed = true
is_ended (done f) = true
is_ended _ = false

abbrev pub all_ended : List Task → Bool
all_ended [] = true
all_ended (t ∷ ts) = is_ended t.stage && all_ended ts

abbrev pub is_failure : {w v : World} → Step w v → Bool
is_failure (fail i t at within going) = true
is_failure _ = false

-- A step by which nothing fails.
abbrev pub GoesOn : World → Type 0
GoesOn w = (v : World) × (st : Step w v) × (is_failure st ≡ false)

abbrev At : List Task → (Stage → Bool) → Type 0
At ts p = (i : ℕ) × (t : Task) × (get_elem? ts i ≡ some t) × (p t.stage ≡ true)

find-At :
    (p : Stage → Bool) (ts : List Task) (x : Task) → ((p x.stage ≡ true) ⊎ At ts p) → At (x ∷ ts) p
find-At p ts x (inl h) = (0, x, refl, h)
find-At p ts x (inr (i, t, at, h)) = (suc i, t, at, h)

abbrev is_open : Stage → Bool
is_open s = not (is_ended s)

open_task : (ts : List Task) → all_ended ts ≡ false → At ts is_open
open_task [] h = cc
open_task (x ∷ xs) h = find-At is_open xs x (elim (Bool-cases (is_ended x.stage)) [
  | inl e ↦ inr (open_task xs (rw e at h))
  | inr e ↦ inl (ap not e)
])

inside_task : (ts : List Task) → 0 < inside ts → At ts is_inside
inside_task [] h = absurd (omega arith)
inside_task (x ∷ xs) h = find-At is_inside xs x (elim (Bool-cases (is_inside x.stage)) [
  | inl e ↦ inl e
  | inr e ↦ inr (inside_task xs (ground (arith, e)))
])

-- A task that is inside goes on, where nobody has the lock.
inside_goes :
    (w : World) (i : ℕ) (t : Task)
    → w.lock ≡ none
    → get_elem? w.tasks i ≡ some t
    → is_inside t.stage ≡ true
    → GoesOn w
inside_goes w i t free at h = go t.stage refl h
  where
    alone : (s s' : Stage) → t.stage ≡ s → Local t.item s s' → GoesOn w
    alone s s' e l = (_, local i t s' at (subst (λ x. Local t.item x s') (sym e) l), refl)

    go : (s : Stage) → t.stage ≡ s → is_inside s ≡ true → GoesOn w
    go waiting e h = cc
    go started e h = alone started _ e (submit "")
    go failed e h = cc
    go (writing d a) e h = (_, acquire i t d a at e free, refl)
    go (locked d a) e h = (_, load i t d a at e, refl)
    go (loaded d a c) e h = (_, store i t d a c at e, refl)
    go (polling p last) e h = alone (polling p last) _ e (give_up p "Timeout" last)
    go (polled p status) e h = alone (polled p status) _ e (fetch p status none)
    go (leaving f) e h = (_, leave i t f at e, refl)
    go (done f) e h = cc

-- The task that has the lock goes on.
holder_goes :
    (w : World) (i : ℕ) (t : Task) → get_elem? w.tasks i ≡ some t → holds t.stage ≡ true → GoesOn w
holder_goes w i t at h = go t.stage refl h
  where
    go : (s : Stage) → t.stage ≡ s → holds s ≡ true → GoesOn w
    go (locked d a) e h = (_, load i t d a at e, refl)
    go (loaded d a c) e h = (_, store i t d a c at e, refl)
    go waiting e h = cc
    go started e h = cc
    go failed e h = cc
    go (writing d a) e h = cc
    go (polling p last) e h = cc
    go (polled p status) e h = cc
    go (leaving f) e h = cc
    go (done f) e h = cc

-- However the tasks interleave, and whatever fails: while a task has not come to its end, four at most
-- are inside the semaphore, and some task can take a step that is no failure. So neither the lock nor
-- the semaphore blocks them all.
pub goes_on :
    (items : List Item) (claim : ClaimProcess) (w : World)
    → Reach (start items claim) w
    → all_ended w.tasks ≡ false
    → (inside w.tasks ≤ max_concurrency) × GoesOn w
goes_on items claim w r open_ = (
  inside-le items claim w r,
  elim (Option-cases w.lock) [
    | inr (i, e) ↦ let (t, at, h) = busy.holder i e in holder_goes w i t at h
    | inl free ↦ unlocked free (open_task w.tasks open_)
  ],
)
  where
    busy : IsBusy w
    busy = Reach-IsBusy items claim w r

    full :
        w.lock ≡ none
        → (b : Bool) → ltb w.running max_concurrency ≡ b
        → (i : ℕ) (t : Task) → get_elem? w.tasks i ≡ some t
        → t.stage ≡ waiting
        → GoesOn w
    full free true room i t at e = (_, enter i t at e (ground (arith, room)), refl)
    full free false room i t at e =
        let (j, u, at', h) = inside_task w.tasks (ground (arith, room, busy.counted)) in
        inside_goes w j u free at' h

    by_stage :
        w.lock ≡ none
        → (i : ℕ) (t : Task) → get_elem? w.tasks i ≡ some t
        → (s : Stage) → t.stage ≡ s
        → (b : Bool) → is_inside s ≡ b
        → is_open s ≡ true
        → GoesOn w
    by_stage free i t at s e true h k = inside_goes w i t free at (rw e h)
    by_stage free i t at waiting e false h k =
        full free (ltb w.running max_concurrency) refl i t at e
    by_stage free i t at failed e false h k = cc
    by_stage free i t at (done f) e false h k = cc
    by_stage free i t at started e false h k = cc
    by_stage free i t at (writing d a) e false h k = cc
    by_stage free i t at (locked d a) e false h k = cc
    by_stage free i t at (loaded d a c) e false h k = cc
    by_stage free i t at (polling p last) e false h k = cc
    by_stage free i t at (polled p status) e false h k = cc
    by_stage free i t at (leaving f) e false h k = cc

    unlocked : w.lock ≡ none → At w.tasks is_open → GoesOn w
    unlocked free (i, t, at, h) = by_stage free i t at t.stage refl (is_inside t.stage) refl h
