-- ===== src/DocumentProcess/Lock.antt =====
-- What the lock of document_process_executor.py is for: no write of the claim is lost.
use claimsintelligence.Base.{
  ℕ, zero, suc, String, ◌≡◌, ◌≢◌, ◌⊎◌, inl, inr, refl, sym, ap, ◌∙◌, Bool, true, false, Option,
  none, some, List, [], ◌∷◌, if◌then◌else◌, arith, Bool-cases,
}
use mathlib.Core.Path.{subst}
use claimsintelligence.ContentProcess.{is_terminal}
use claimsintelligence.ClaimWorkflow.Repository.{ContentProcess, ClaimProcess, put_document}
use claimsintelligence.DocumentProcess.Tasks.{
  Item, After, poll_again, finish, progress_of, is_same, Stage, waiting, started, failed, writing,
  locked, loaded, polling, polled, leaving, done, Task, World, get_elem?, put_at, on_poll, Local,
  submit, see, give_up, fetch, next_stage, holds, Step, enter, local, acquire, load, store, leave,
  fail, Reach, here, next, waiting_tasks, start,
}

-- What is at a place after one is changed.
pub put_at_cases {ℓ} :
    {A : Type ℓ} (xs : List A) (i j : ℕ) (v u : A)
    → get_elem? (put_at xs i v) j ≡ some u
    → ((i ≡ j) × (u ≡ v)) ⊎ ((i ≢ j) × (get_elem? xs j ≡ some u))
put_at_cases [] i j v u h = cc
put_at_cases (x ∷ xs) zero zero v u h = inl (refl, cc)
put_at_cases (x ∷ xs) zero (suc j) v u h = inr (omega arith, h)
put_at_cases (x ∷ xs) (suc i) zero v u h = inr (omega arith, h)
put_at_cases (x ∷ xs) (suc i) (suc j) v u h = elim (put_at_cases xs i j v u h) [
  | inl (e, same) ↦ inl (ap suc e, same)
  | inr (differs, old) ↦ inr (omega (arith, differs), old)
]

-- What holds of the stages that a poll may lead to.
pub on_poll_cases :
    (P : Stage → Type 0) (item : Item) (p : String) (last : Option String) (status : String)
    → P (polled p status)
    → P (polling p last)
    → P (writing (progress_of item p status) (poll_again p (some status)))
    → P (on_poll item p last status)
unfolding on_poll
on_poll_cases P item p last status x y z = go (is_terminal status) (is_same last status)
  where
    go :
        (b c : Bool)
        → P (
            if b
            then polled p status
            else if c
            then polling p last
            else writing (progress_of item p status) (poll_again p (some status)))
    go true c = x
    go false true = y
    go false false = z

-- The upserts, the newest first, one after the other.
abbrev pub replay : List ContentProcess → ClaimProcess → ClaimProcess
replay [] c = c
replay (d ∷ ds) c = put_document d (replay ds c)

abbrev Snapshot : Stage → ClaimProcess → Type 0
Snapshot (loaded d a c) claim = c ≡ claim
Snapshot _ claim = Unit

-- A task that holds the lock is the one that has it, and what it has read is what is stored.
abbrev Fits : ℕ → Stage → Option ℕ → ClaimProcess → Type 0
Fits i s lock claim = (holds s ≡ true → lock ≡ some i) × Snapshot s claim

record IsSound (first : ClaimProcess) (w : World) : Type 0 where
  fits : (j : ℕ) (u : Task) → get_elem? w.tasks j ≡ some u → Fits j u.stage w.lock w.claim
  applied : w.claim ≡ replay w.writes first

-- A stage without the lock fits whatever is stored.
Fits-idle :
    (i : ℕ) (s : Stage) (lock : Option ℕ) (claim : ClaimProcess)
    → holds s ≡ false
    → Fits i s lock claim
Fits-idle i waiting lock claim h = (λ k. cc, tt)
Fits-idle i started lock claim h = (λ k. cc, tt)
Fits-idle i failed lock claim h = (λ k. cc, tt)
Fits-idle i (writing d a) lock claim h = (λ k. cc, tt)
Fits-idle i (locked d a) lock claim h = cc
Fits-idle i (loaded d a c) lock claim h = cc
Fits-idle i (polling p last) lock claim h = (λ k. cc, tt)
Fits-idle i (polled p status) lock claim h = (λ k. cc, tt)
Fits-idle i (leaving f) lock claim h = (λ k. cc, tt)
Fits-idle i (done f) lock claim h = (λ k. cc, tt)

-- A task that steps on its own holds no lock before and after.
pub Local-holds :
    (item : Item) (s s' : Stage) → Local item s s' → (holds s ≡ false) × (holds s' ≡ false)
Local-holds item s s' (submit p) = (refl, refl)
Local-holds item s s' (see p status last) =
    (refl, on_poll_cases (λ x. holds x ≡ false) item p last status refl refl refl)
Local-holds item s s' (give_up p status last) = (refl, refl)
Local-holds item s s' (fetch p status q) = (refl, refl)

next_stage-holds : (a : After) → holds (next_stage a) ≡ false
next_stage-holds (poll_again p last) = refl
next_stage-holds (finish f) = refl

-- Two places cannot both have the lock.
one_holder : (lock : Option ℕ) (i j : ℕ) → lock ≡ some i → lock ≡ some j → i ≢ j → ⊥
one_holder lock i j h k differs = differs (the_same (sym h ∙ k))
  where
    the_same : ◌≡◌ {A = Option ℕ} (some i) (some j) → i ≡ j
    the_same e = cc

Fits-moved :
    (w : World) (i : ℕ) (t : Task) (s : Stage) (lock : Option ℕ) (claim : ClaimProcess)
    → Fits i s lock claim
    → ((j : ℕ) (u : Task) → i ≢ j → get_elem? w.tasks j ≡ some u → Fits j u.stage lock claim)
    → (j : ℕ) (u : Task) → get_elem? (put_at w.tasks i (record t { stage = s })) j ≡ some u
    → Fits j u.stage lock claim
Fits-moved w i t s lock claim own others j u h =
    elim (put_at_cases w.tasks i j (record t { stage = s }) u h) [
      | inl (e, same) ↦
          subst (λ k. Fits k u.stage lock claim) e
            (subst (λ x. Fits i x lock claim) (sym (ap (λ x. x.stage) same)) own)
      | inr (differs, old) ↦ others j u differs old
    ]

-- Where a task has the lock, no other has: so the others fit whatever is stored.
others_idle :
    (first : ClaimProcess) (w : World) (i : ℕ) (t : Task) (lock : Option ℕ) (claim : ClaimProcess)
    → IsSound first w
    → get_elem? w.tasks i ≡ some t
    → holds t.stage ≡ true
    → (j : ℕ) (u : Task) → i ≢ j
    → get_elem? w.tasks j ≡ some u
    → Fits j u.stage lock claim
others_idle first w i t lock claim s at has j u differs old = elim (Bool-cases (holds u.stage)) [
  | inl also ↦
      absurd (one_holder w.lock i j ((s.fits i t at).0 has) ((s.fits j u old).0 also) differs)
  | inr idle ↦ Fits-idle j u.stage lock claim idle
]

IsSound-Step : (first : ClaimProcess) (w v : World) → Step w v → IsSound first w → IsSound first v
IsSound-Step first w v (enter i t at e room) s = record {
  fits =
      Fits-moved w i t started w.lock w.claim (Fits-idle i started w.lock w.claim refl)
        (λ j u differs. s.fits j u);
  applied = s.applied;
}
IsSound-Step first w v (local i t x at l) s = record {
  fits =
      Fits-moved w i t x w.lock w.claim
        (Fits-idle i x w.lock w.claim (Local-holds t.item t.stage x l).1)
        (λ j u differs. s.fits j u);
  applied = s.applied;
}
IsSound-Step first w v (acquire i t d a at e free) s = record {
  fits =
      Fits-moved w i t (locked d a) (some i) w.claim (λ h. refl, tt)
        (λ j u differs old. alone j u old (holds u.stage) refl);
  applied = s.applied;
}
  where
    alone :
        (j : ℕ) (u : Task)
        → get_elem? w.tasks j ≡ some u
        → (b : Bool) → holds u.stage ≡ b
        → Fits j u.stage (some i) w.claim
    alone j u old true h = cc ((s.fits j u old).0 h)
    alone j u old false h = Fits-idle j u.stage (some i) w.claim h
IsSound-Step first w v (load i t d a at e) s = record {
  fits =
      Fits-moved w i t (loaded d a w.claim) w.lock w.claim
        (λ h. (s.fits i t at).0 (rw e refl), refl) (λ j u differs. s.fits j u);
  applied = s.applied;
}
IsSound-Step first w v (store i t d a c at e) s = record {
  fits =
      Fits-moved w i t (next_stage a) none (put_document d c)
        (Fits-idle i (next_stage a) none (put_document d c) (next_stage-holds a))
        (others_idle first w i t none (put_document d c) s at (rw e refl));
  applied = ap (put_document d) (subst (λ x. Snapshot x w.claim) e (s.fits i t at).1 ∙ s.applied);
}
IsSound-Step first w v (leave i t f at e) s = record {
  fits =
      Fits-moved w i t (done f) w.lock w.claim (Fits-idle i (done f) w.lock w.claim refl)
        (λ j u differs. s.fits j u);
  applied = s.applied;
}
IsSound-Step first w v (fail i t at inside going) s = record {
  fits =
      Fits-moved w i t failed (if holds t.stage then none else w.lock) w.claim
        (Fits-idle i failed _ w.claim refl)
        (λ j u differs old. freed j u differs old (holds t.stage) refl);
  applied = s.applied;
}
  where
    freed :
        (j : ℕ) (u : Task)
        → i ≢ j
        → get_elem? w.tasks j ≡ some u
        → (b : Bool) → holds t.stage ≡ b
        → Fits j u.stage (if b then none else w.lock) w.claim
    freed j u differs old true h = others_idle first w i t none w.claim s at h j u differs old
    freed j u differs old false h = s.fits j u old

pub waiting_at :
    (items : List Item) (i : ℕ) (u : Task)
    → get_elem? (waiting_tasks items) i ≡ some u
    → u.stage ≡ waiting
waiting_at [] i u h = cc
waiting_at (x ∷ xs) zero u h = ap the_stage (sym h)
  where
    the_stage : Option Task → Stage
    the_stage none = waiting
    the_stage (some t) = t.stage
waiting_at (x ∷ xs) (suc i) u h = waiting_at xs i u h

Reach-IsSound :
    (items : List Item) (claim : ClaimProcess) (w : World)
    → Reach (start items claim) w
    → IsSound claim w
Reach-IsSound items claim w here = record {
  fits = λ j u h. Fits-idle j u.stage none claim (rw (waiting_at items j u h) refl);
  applied = refl;
}
Reach-IsSound items claim w (next {u} {v} r st) =
    IsSound-Step claim u v st (Reach-IsSound items claim u r)

-- However the tasks interleave, and whatever fails: the claim that is stored is the claim of the beginning
-- with every document that was upserted, one upsert after the other. None is lost.
pub claim-replay :
    (items : List Item) (claim : ClaimProcess) (w : World)
    → Reach (start items claim) w
    → w.claim ≡ replay w.writes claim
claim-replay items claim w r = (Reach-IsSound items claim w r).applied
