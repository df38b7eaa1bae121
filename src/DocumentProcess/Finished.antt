-- ===== src/DocumentProcess/Finished.antt =====
-- That a task of document_process_executor.py that has come to its end has left its document in the claim.
use claimsintelligence.Base.{
  ℕ, zero, suc, ◌≤◌, String, ◌≡◌, ◌≢◌, inl, inr, refl, sym, ap, ◌∙◌, true, false, Option, none,
  some, List, [], ◌∷◌, All, if◌then◌else◌, arith, ◌==◌, string_key, eq_iff,
}
use mathlib.Core.Path.{subst}
use claimsintelligence.ClaimWorkflow.Repository.{ContentProcess, ClaimProcess}
use claimsintelligence.ClaimWorkflow.Documents.{
  same_key, count, entry, count-put_document, entry-put_document,
}
use claimsintelligence.DocumentProcess.Tasks.{
  Item, Final, document_of, After, poll_again, finish, Stage, waiting, started, failed, writing,
  locked, loaded, polling, polled, leaving, done, Task, World, get_elem?, put_at, Local, submit,
  see, give_up, fetch, next_stage, Step, enter, local, acquire, load, store, leave, fail, Reach,
  here, next, waiting_tasks, start,
}
use claimsintelligence.DocumentProcess.Lock.{
  put_at_cases, on_poll_cases, replay, claim-replay, waiting_at,
}

-- No two items have the same file name.
abbrev pub Distinct : List Item → Type 0
Distinct [] = Unit
Distinct (x ∷ xs) = All (λ y. (x.file_name == y.file_name) ≡ false) xs × Distinct xs

same_item : (y x : Item) → ◌≡◌ {A = Option Item} (some y) (some x) → y ≡ x
same_item y x e = cc

apart : (a b : String) → (a == b) ≡ false → a ≢ b
apart a b h e = ground (arith, eq_iff a b)

All_at :
    (P : Item → Type 0) (xs : List Item) (i : ℕ) (x : Item)
    → All P xs
    → get_elem? xs i ≡ some x
    → P x
All_at P [] i x a h = cc
All_at P (y ∷ ys) zero x a h = subst P (same_item y x h) a.0
All_at P (y ∷ ys) (suc i) x a h = All_at P ys i x a.1 h

abbrev Differ : Item → Item → Type 0
Differ x y = x.file_name ≢ y.file_name

Differ-at :
    (xs : List Item) (i j : ℕ) (x y : Item)
    → Distinct xs
    → i ≢ j
    → get_elem? xs i ≡ some x
    → get_elem? xs j ≡ some y
    → Differ x y
Differ-at [] i j x y d n h k = cc
Differ-at (z ∷ zs) zero zero x y d n h k = absurd (n refl)
Differ-at (z ∷ zs) zero (suc j) x y d n h k =
    subst (λ w. Differ w y) (same_item z x h)
      (apart z.file_name y.file_name
        (All_at (λ w. (z.file_name == w.file_name) ≡ false) zs j y d.0 k))
Differ-at (z ∷ zs) (suc i) zero x y d n h k =
    subst (λ w. Differ x w) (same_item z y k)
      (λ e.
        apart z.file_name x.file_name
          (All_at (λ w. (z.file_name == w.file_name) ≡ false) zs i x d.0 h) (sym e))
Differ-at (z ∷ zs) (suc i) (suc j) x y d n h k = Differ-at zs i j x y d.1 (λ e. n (ap suc e)) h k

-- The newest upsert of a document with that name and process.
abbrev newest : ContentProcess → List ContentProcess → Option ContentProcess
newest k [] = none
newest k (d ∷ ds) = if same_key d k then some d else newest k ds

-- The document of an upsert that is the last of its task is that of the result.
abbrev Ends : Item → ContentProcess → After → Type 0
Ends item d (poll_again p last) = Unit
Ends item d (finish f) = d ≡ document_of item f

abbrev Own : Item → ContentProcess → After → Type 0
Own item d a = (d.file_name ≡ item.file_name) × Ends item d a

-- What a task upserts is its own, and what it has upserted last is the newest of its name and process.
abbrev Owned : Item → List ContentProcess → Stage → Type 0
Owned item writes (writing d a) = Own item d a
Owned item writes (locked d a) = Own item d a
Owned item writes (loaded d a c) = Own item d a
Owned item writes (leaving f) = newest (document_of item f) writes ≡ some (document_of item f)
Owned item writes (done f) = newest (document_of item f) writes ≡ some (document_of item f)
Owned item writes _ = Unit

record IsOwned (items : List Item) (w : World) : Type 0 where
  placed : (j : ℕ) (u : Task) → get_elem? w.tasks j ≡ some u → get_elem? items j ≡ some u.item
  owned : (j : ℕ) (u : Task) → get_elem? w.tasks j ≡ some u → Owned u.item w.writes u.stage

placed_moved :
    (items : List Item) (w : World) (i : ℕ) (t : Task) (s : Stage)
    → IsOwned items w
    → get_elem? w.tasks i ≡ some t
    → (j : ℕ) (u : Task) → get_elem? (put_at w.tasks i (record t { stage = s })) j ≡ some u
    → get_elem? items j ≡ some u.item
placed_moved items w i t s o at j u h =
    elim (put_at_cases w.tasks i j (record t { stage = s }) u h) [
      | inl (e, same) ↦
          subst (λ k. get_elem? items k ≡ some u.item) e
            (o.placed i t at ∙ ap some (sym (ap (λ x. x.item) same)))
      | inr (differs, old) ↦ o.placed j u old
    ]

Owned-moved :
    (w : World) (i : ℕ) (t : Task) (s : Stage) (writes : List ContentProcess)
    → Owned t.item writes s
    → ((j : ℕ) (u : Task) → i ≢ j → get_elem? w.tasks j ≡ some u → Owned u.item writes u.stage)
    → (j : ℕ) (u : Task) → get_elem? (put_at w.tasks i (record t { stage = s })) j ≡ some u
    → Owned u.item writes u.stage
Owned-moved w i t s writes own others j u h =
    elim (put_at_cases w.tasks i j (record t { stage = s }) u h) [
      | inl (e, same) ↦ subst (λ x. Owned x.item writes x.stage) (sym same) own
      | inr (differs, old) ↦ others j u differs old
    ]

Local-Owned :
    (item : Item) (writes : List ContentProcess) (s s' : Stage)
    → Local item s s'
    → Owned item writes s'
Local-Owned item writes s s' (submit p) = (refl, tt)
Local-Owned item writes s s' (see p status last) =
    on_poll_cases (Owned item writes) item p last status tt tt (refl, tt)
Local-Owned item writes s s' (give_up p status last) = tt
Local-Owned item writes s s' (fetch p status q) = (refl, refl)

same_key_refl : (d : ContentProcess) → same_key d d ≡ true
same_key_refl d = ground (arith, eq_iff d.file_name d.file_name, eq_iff d.process_id d.process_id)

same_key-ne : (d k : ContentProcess) → d.file_name ≢ k.file_name → same_key d k ≡ false
same_key-ne d k n = ground (arith, eq_iff d.file_name k.file_name)

-- The upsert of another task changes nothing of what is the newest of a task.
Owned-other :
    (item : Item) (d : ContentProcess) (writes : List ContentProcess) (s : Stage)
    → d.file_name ≢ item.file_name
    → Owned item writes s
    → Owned item (d ∷ writes) s
Owned-other item d writes waiting n o = tt
Owned-other item d writes started n o = tt
Owned-other item d writes failed n o = tt
Owned-other item d writes (writing e a) n o = o
Owned-other item d writes (locked e a) n o = o
Owned-other item d writes (loaded e a c) n o = o
Owned-other item d writes (polling p last) n o = tt
Owned-other item d writes (polled p status) n o = tt
Owned-other item d writes (leaving f) n o = rw (same_key-ne d (document_of item f) n) o
Owned-other item d writes (done f) n o = rw (same_key-ne d (document_of item f) n) o

Owned-stored :
    (item : Item) (d : ContentProcess) (writes : List ContentProcess) (a : After)
    → Own item d a
    → Owned item (d ∷ writes) (next_stage a)
Owned-stored item d writes (poll_again p last) o = tt
Owned-stored item d writes (finish f) (name, e) =
    subst (λ x. newest (document_of item f) (x ∷ writes) ≡ some (document_of item f)) (sym e)
      (rw (same_key_refl (document_of item f)) refl)

IsOwned-Step :
    (items : List Item) (w v : World)
    → Distinct items
    → Step w v
    → IsOwned items w
    → IsOwned items v
IsOwned-Step items w v d (enter i t at e room) o = record {
  placed = placed_moved items w i t started o at;
  owned = Owned-moved w i t started w.writes tt (λ j u n. o.owned j u);
}
IsOwned-Step items w v d (local i t x at l) o = record {
  placed = placed_moved items w i t x o at;
  owned =
      Owned-moved w i t x w.writes (Local-Owned t.item w.writes t.stage x l) (λ j u n. o.owned j u);
}
IsOwned-Step items w v d (acquire i t c a at e free) o = record {
  placed = placed_moved items w i t (locked c a) o at;
  owned =
      Owned-moved w i t (locked c a) w.writes (subst (Owned t.item w.writes) e (o.owned i t at))
        (λ j u n. o.owned j u);
}
IsOwned-Step items w v d (load i t c a at e) o = record {
  placed = placed_moved items w i t (loaded c a w.claim) o at;
  owned =
      Owned-moved w i t (loaded c a w.claim) w.writes
        (subst (Owned t.item w.writes) e (o.owned i t at)) (λ j u n. o.owned j u);
}
IsOwned-Step items w v d (store i t c a x at e) o =
    let own = subst (Owned t.item w.writes) e (o.owned i t at) in
    record {
      placed = placed_moved items w i t (next_stage a) o at;
      owned =
          Owned-moved w i t (next_stage a) (c ∷ w.writes) (Owned-stored t.item c w.writes a own)
            λ j u n old.
              Owned-other u.item c w.writes u.stage
                (λ same.
                  Differ-at items i j t.item u.item d n (o.placed i t at) (o.placed j u old)
                    (sym own.0 ∙ same))
                (o.owned j u old);
    }
IsOwned-Step items w v d (leave i t f at e) o = record {
  placed = placed_moved items w i t (done f) o at;
  owned =
      Owned-moved w i t (done f) w.writes (subst (Owned t.item w.writes) e (o.owned i t at))
        (λ j u n. o.owned j u);
}
IsOwned-Step items w v d (fail i t at inside going) o = record {
  placed = placed_moved items w i t failed o at;
  owned = Owned-moved w i t failed w.writes tt (λ j u n. o.owned j u);
}

waiting_item :
    (items : List Item) (i : ℕ) (u : Task)
    → get_elem? (waiting_tasks items) i ≡ some u
    → get_elem? items i ≡ some u.item
waiting_item [] i u h = cc
waiting_item (x ∷ xs) zero u h = ap the_item h
  where
    the_item : Option Task → Option Item
    the_item none = none
    the_item (some t) = some t.item
waiting_item (x ∷ xs) (suc i) u h = waiting_item xs i u h

Reach-IsOwned :
    (items : List Item) (claim : ClaimProcess) (w : World)
    → Distinct items
    → Reach (start items claim) w
    → IsOwned items w
Reach-IsOwned items claim w d here = record {
  placed = waiting_item items;
  owned = λ j u h. subst (Owned u.item []) (sym (waiting_at items j u h)) tt;
}
Reach-IsOwned items claim w d (next {u} {v} r st) =
    IsOwned-Step items u v d st (Reach-IsOwned items claim u d r)

-- The claim has what was upserted last of each name and process, and that once at most.
count-replay :
    (k : ContentProcess) (ds : List ContentProcess) (c : ClaimProcess)
    → c.processed_documents ≡ []
    → count k (replay ds c).processed_documents ≤ 1
count-replay k [] c h = rw h (omega arith)
count-replay k (d ∷ ds) c h =
    ground (arith, count-put_document k d (replay ds c), count-replay k ds c h)

entry-replay :
    (k : ContentProcess) (ds : List ContentProcess) (c : ClaimProcess)
    → c.processed_documents ≡ []
    → entry k (replay ds c).processed_documents ≡ newest k ds
entry-replay k [] c h = rw h refl
entry-replay k (d ∷ ds) c h =
    entry-put_document k d (replay ds c) (count-replay k ds c h)
    ∙ ap (λ o. if same_key d k then some d else o) (entry-replay k ds c h)

-- Where the items have different file names and the claim begins with no document: however the tasks
-- interleave and whatever fails, a task that has come to its end has its document in the claim, with
-- its final status and scores, and no other document of that name and process is there.
pub done-entry :
    (items : List Item) (claim : ClaimProcess) (w : World) (i : ℕ) (t : Task) (f : Final)
    → Distinct items
    → claim.processed_documents ≡ []
    → Reach (start items claim) w
    → get_elem? w.tasks i ≡ some t
    → t.stage ≡ done f
    → (entry (document_of t.item f) w.claim.processed_documents ≡ some (document_of t.item f))
      × (count (document_of t.item f) w.claim.processed_documents ≤ 1)
done-entry items claim w i t f d empty r at e =
    let k = document_of t.item f in
    let same = claim-replay items claim w r in
    (
      ap (λ c. entry k c.processed_documents) same
          ∙ entry-replay k w.writes claim empty
          ∙ subst (Owned t.item w.writes) e ((Reach-IsOwned items claim w d r).owned i t at),
      subst (λ c. count k c.processed_documents ≤ 1) (sym same)
          (count-replay k w.writes claim empty),
    )
