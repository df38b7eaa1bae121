-- ===== src/DocumentProcess/Occupancy.antt =====
-- How many tasks of document_process_executor.py are inside the semaphore, and which has the lock.
use claimsintelligence.Base.{
  ℕ, zero, suc, ◌+◌, ◌≤◌, ◌≡◌, inl, inr, refl, sym, ◌∙◌, Bool, true, false, Option, none, some,
  List, [], ◌∷◌, if◌then◌else◌, arith, eqb, eqb_iff, Bool-cases,
}
use mathlib.Core.Path.{subst}
use claimsintelligence.ClaimWorkflow.Repository.{ClaimProcess}
use claimsintelligence.DocumentProcess.Tasks.{
  Item, After, poll_again, Stage, started, failed, locked, loaded, done, Task, World, get_elem?,
  put_at, Local, submit, see, give_up, fetch, finish, next_stage, holds, is_inside, max_concurrency,
  Step, enter, local, acquire, load, store, leave, fail, Reach, here, next, waiting_tasks, start,
}
use claimsintelligence.DocumentProcess.Lock.{on_poll_cases, Local-holds}

-- How many tasks are inside the semaphore.
abbrev pub weight : Stage → ℕ
weight s = if is_inside s then 1 else 0

abbrev pub inside : List Task → ℕ
inside [] = 0
inside (t ∷ ts) = weight t.stage + inside ts

inside-put_at :
    (ts : List Task) (i : ℕ) (t v : Task)
    → get_elem? ts i ≡ some t
    → inside (put_at ts i v) + weight t.stage ≡ inside ts + weight v.stage
inside-put_at [] i t v h = cc
inside-put_at (x ∷ xs) zero t v h =
    subst
      (λ y.
        weight v.stage + inside xs + weight y.stage ≡ weight x.stage + inside xs + weight v.stage)
      (same h) (omega arith)
  where
    same : ◌≡◌ {A = Option Task} (some x) (some t) → x ≡ t
    same e = cc
inside-put_at (x ∷ xs) (suc i) t v h = omega (arith, inside-put_at xs i t v h)

at-put_same {ℓ} :
    {A : Type ℓ} (xs : List A) (i : ℕ) (x v : A)
    → get_elem? xs i ≡ some x
    → get_elem? (put_at xs i v) i ≡ some v
at-put_same [] i x v h = cc
at-put_same (y ∷ ys) zero x v h = refl
at-put_same (y ∷ ys) (suc i) x v h = at-put_same ys i x v h

at-put_other {ℓ} :
    {A : Type ℓ} (xs : List A) (i j : ℕ) (v : A)
    → eqb i j ≡ false
    → get_elem? (put_at xs i v) j ≡ get_elem? xs j
at-put_other [] i j v h = refl
at-put_other (y ∷ ys) zero zero v h = ground arith
at-put_other (y ∷ ys) zero (suc j) v h = refl
at-put_other (y ∷ ys) (suc i) zero v h = refl
at-put_other (y ∷ ys) (suc i) (suc j) v h = at-put_other ys i j v (ground arith)

-- The one that has the lock is a task that holds it.
abbrev pub Holder : List Task → ℕ → Type 0
Holder ts i = (t : Task) × (get_elem? ts i ≡ some t) × (holds t.stage ≡ true)

pub record IsBusy (w : World) : Type 0 where
  pub counted : inside w.tasks ≡ w.running
  pub bounded : w.running ≤ max_concurrency
  pub holder : (i : ℕ) → w.lock ≡ some i → Holder w.tasks i

-- A step of a task that does not hold the lock, or holds it before and after.
Holder-moved :
    (w : World) (i : ℕ) (t : Task) (s : Stage)
    → get_elem? w.tasks i ≡ some t
    → (holds t.stage ≡ true → holds s ≡ true)
    → ((j : ℕ) → w.lock ≡ some j → Holder w.tasks j)
    → (j : ℕ) → w.lock ≡ some j
    → Holder (put_at w.tasks i (record t { stage = s })) j
Holder-moved w i t s at keeps h j e =
    let (u, old, has) = h j e in
    elim (Bool-cases (eqb i j)) [
      | inl same ↦
          let k = (eqb_iff i j).0 same in
          (
            record t { stage = s },
            subst
                (λ k.
                  get_elem? (put_at w.tasks i (record t { stage = s })) k
                  ≡ some (record t { stage = s }))
                k (at-put_same w.tasks i t (record t { stage = s }) at),
            keeps (
                subst (λ x. holds x.stage ≡ true)
                  (same_task u t (sym old ∙ subst (λ k. get_elem? w.tasks k ≡ some t) k at)) has),
          )
      | inr differs ↦ (u, at-put_other w.tasks i j (record t { stage = s }) differs ∙ old, has)
    ]
  where
    same_task : (u t : Task) → ◌≡◌ {A = Option Task} (some u) (some t) → u ≡ t
    same_task u t e = cc

Local-inside : (item : Item) (s s' : Stage) → Local item s s' → (weight s ≡ 1) × (weight s' ≡ 1)
Local-inside item s s' (submit p) = (refl, refl)
Local-inside item s s' (see p status last) =
    (refl, on_poll_cases (λ x. weight x ≡ 1) item p last status refl refl refl)
Local-inside item s s' (give_up p status last) = (refl, refl)
Local-inside item s s' (fetch p status q) = (refl, refl)

next_stage-inside : (a : After) → weight (next_stage a) ≡ 1
next_stage-inside (poll_again p last) = refl
next_stage-inside (finish f) = refl

-- A step that takes as many in as it takes out.
inside_moved :
    (w : World) (i : ℕ) (t : Task) (s : Stage) (m n : ℕ)
    → get_elem? w.tasks i ≡ some t
    → inside w.tasks ≡ w.running
    → weight t.stage ≡ m
    → weight s ≡ n
    → inside (put_at w.tasks i (record t { stage = s })) + m ≡ w.running + n
inside_moved w i t s m n at c e k =
    let p = inside-put_at w.tasks i t (record t { stage = s }) at in omega (arith, p, c, e, k)

IsBusy-Step : (w v : World) → Step w v → IsBusy w → IsBusy v
IsBusy-Step w v (enter i t at e room) b =
    let p = inside_moved w i t started 0 1 at b.counted (rw e refl) refl in
    record {
      counted = omega (arith, p);
      bounded = omega (arith, room);
      holder = Holder-moved w i t started at (rw e (λ h. cc)) b.holder;
    }
IsBusy-Step w v (local i t s at l) b =
    let p =
      inside_moved w i t s 1 1 at b.counted (Local-inside t.item t.stage s l).0
        (Local-inside t.item t.stage s l).1 in
    record {
      counted = omega (arith, p);
      bounded = b.bounded;
      holder = Holder-moved w i t s at (λ h. cc ((Local-holds t.item t.stage s l).0)) b.holder;
    }
IsBusy-Step w v (acquire i t d a at e free) b =
    let p = inside_moved w i t (locked d a) 1 1 at b.counted (rw e refl) refl in
    record {
      counted = omega (arith, p);
      bounded = b.bounded;
      holder = λ j h.
          subst (Holder (put_at w.tasks i (record t { stage = locked d a }))) (same_place i j h) (
            record t { stage = locked d a },
            at-put_same w.tasks i t (record t { stage = locked d a }) at,
            refl,
          );
    }
  where
    same_place : (i j : ℕ) → ◌≡◌ {A = Option ℕ} (some i) (some j) → i ≡ j
    same_place i j e = cc
IsBusy-Step w v (load i t d a at e) b =
    let p = inside_moved w i t (loaded d a w.claim) 1 1 at b.counted (rw e refl) refl in
    record {
      counted = omega (arith, p);
      bounded = b.bounded;
      holder = Holder-moved w i t (loaded d a w.claim) at (λ h. refl) b.holder;
    }
IsBusy-Step w v (store i t d a c at e) b =
    let p = inside_moved w i t (next_stage a) 1 1 at b.counted (rw e refl) (next_stage-inside a) in
    record { counted = omega (arith, p); bounded = b.bounded; holder = λ j h. cc }
IsBusy-Step w v (leave i t f at e) b =
    let p = inside_moved w i t (done f) 1 0 at b.counted (rw e refl) refl in
    record {
      counted = omega (arith, p);
      bounded = omega (arith, b.bounded);
      holder = Holder-moved w i t (done f) at (rw e (λ h. cc)) b.holder;
    }
IsBusy-Step w v (fail i t at within going) b =
    let p = inside_moved w i t failed 1 0 at b.counted (rw within refl) refl in
    record {
      counted = omega (arith, p);
      bounded = omega (arith, b.bounded);
      holder = freed b.holder (holds t.stage) refl;
    }
  where
    freed :
        ((j : ℕ) → w.lock ≡ some j → Holder w.tasks j)
        → (b : Bool) → holds t.stage ≡ b
        → (j : ℕ) → (if b then none else w.lock) ≡ some j
        → Holder (put_at w.tasks i (record t { stage = failed })) j
    freed old true has j h = cc
    freed old false not_held j h = Holder-moved w i t failed at (λ has. cc) old j h

inside-waiting : (items : List Item) → inside (waiting_tasks items) ≡ 0
inside-waiting [] = refl
inside-waiting (x ∷ xs) = omega (arith, inside-waiting xs)

pub Reach-IsBusy :
    (items : List Item) (claim : ClaimProcess) (w : World) → Reach (start items claim) w → IsBusy w
Reach-IsBusy items claim w here = record {
  counted = inside-waiting items;
  bounded = omega arith;
  holder = λ i h. cc;
}
Reach-IsBusy items claim w (next {u} {v} r st) = IsBusy-Step u v st (Reach-IsBusy items claim u r)

-- However the tasks interleave, and whatever fails: four at most are inside the semaphore.
pub inside-le :
    (items : List Item) (claim : ClaimProcess) (w : World)
    → Reach (start items claim) w
    → inside w.tasks ≤ max_concurrency
inside-le items claim w r =
    let b = Reach-IsBusy items claim w r in omega (arith, b.counted, b.bounded)
