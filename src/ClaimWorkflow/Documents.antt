-- ===== src/ClaimWorkflow/Documents.antt =====
-- The documents of a claim, as `Upsert_Content_Process` of repositories/claim_processes.py puts them.
use claimsintelligence.Base.{
  ℕ, suc, ◌-◌, ◌≡◌, refl, Bool, ◌&&◌, List, [], ◌∷◌, ◌++◌, arith, ◌≤◌, Option, none, some, false,
  ◌∙◌, if◌then◌else◌, ◌==◌, string_key, eq_iff, Bool-cases, inl, inr,
}
use claimsintelligence.ClaimWorkflow.Repository.{
  ClaimProcess, ContentProcess, without, put_document,
}

abbrev pub same_key : ContentProcess → ContentProcess → Bool
same_key x d = x.file_name == d.file_name && x.process_id == d.process_id

-- The documents with the file name and the process of the given one.
abbrev pub count : ContentProcess → List ContentProcess → ℕ
count k [] = 0
count k (x ∷ xs) = if same_key x k then suc (count k xs) else count k xs

count-append :
    (k d : ContentProcess) (xs : List ContentProcess)
    → count k (xs ++ d ∷ []) ≡ (if same_key d k then suc (count k xs) else count k xs)
count-append k d [] = refl
count-append k d (x ∷ xs) = ground (arith, count-append k d xs)

count-without :
    (k d : ContentProcess) (xs : List ContentProcess)
    → count k (without d xs) ≡ (if same_key d k then count k xs - 1 else count k xs)
unfolding without
count-without k d [] = ground arith
count-without k d (x ∷ xs) = ground (
  arith,
  count-without k d xs,
  eq_iff x.file_name d.file_name,
  eq_iff x.process_id d.process_id,
  eq_iff x.file_name k.file_name,
  eq_iff x.process_id k.process_id,
  eq_iff d.file_name k.file_name,
  eq_iff d.process_id k.process_id,
)

-- A document that is put into a claim is there once more than before, less the one that it takes the
-- place of, if there is one: so once, where there was one at most. The numbers of the documents with
-- another name or process do not change.
pub count-put_document :
    (k d : ContentProcess) (c : ClaimProcess)
    → count k (put_document d c).processed_documents ≡ (
        if same_key d k
        then suc (count k c.processed_documents - 1)
        else count k c.processed_documents)
unfolding put_document
count-put_document k d c = ground (
  arith,
  count-without k d c.processed_documents,
  count-append k d (without d c.processed_documents),
)

-- The first document with the file name and the process of the given one.
abbrev pub entry : ContentProcess → List ContentProcess → Option ContentProcess
entry k [] = none
entry k (x ∷ xs) = if same_key x k then some x else entry k xs

entry-none : (k : ContentProcess) (xs : List ContentProcess) → count k xs ≡ 0 → entry k xs ≡ none
entry-none k [] h = refl
entry-none k (x ∷ xs) h = ground (arith, entry-none k xs)

entry-append :
    (k d : ContentProcess) (xs : List ContentProcess)
    → count k xs ≡ 0
    → entry k (xs ++ d ∷ []) ≡ (if same_key d k then some d else none)
entry-append k d [] h = refl
entry-append k d (x ∷ xs) h = ground (arith, entry-append k d xs)

entry-append_other :
    (k d : ContentProcess) (xs : List ContentProcess)
    → same_key d k ≡ false
    → entry k (xs ++ d ∷ []) ≡ entry k xs
entry-append_other k d [] h = rw h refl
entry-append_other k d (x ∷ xs) h = ground (arith, entry-append_other k d xs h)

entry-without :
    (k d : ContentProcess) (xs : List ContentProcess)
    → same_key d k ≡ false
    → entry k (without d xs) ≡ entry k xs
unfolding without
entry-without k d [] h = refl
entry-without k d (x ∷ xs) h = ground (
  arith,
  h,
  entry-without k d xs h,
  eq_iff x.file_name d.file_name,
  eq_iff x.process_id d.process_id,
  eq_iff x.file_name k.file_name,
  eq_iff x.process_id k.process_id,
  eq_iff d.file_name k.file_name,
  eq_iff d.process_id k.process_id,
)

-- Where there was one document of a name and process at most: after a document is put into the claim, the one
-- that is found is the new one, if it is of that name and process, and what was found before otherwise.
pub entry-put_document :
    (k d : ContentProcess) (c : ClaimProcess)
    → count k c.processed_documents ≤ 1
    → entry k (put_document d c).processed_documents
      ≡ (if same_key d k then some d else entry k c.processed_documents)
unfolding put_document
entry-put_document k d c h = elim (Bool-cases (same_key d k)) [
  | inl same ↦ rw same (
      entry-append k d (without d c.processed_documents)
        (ground (arith, same, count-without k d c.processed_documents))
      ∙ rw same refl)
  | inr differs ↦ rw differs (
      entry-append_other k d (without d c.processed_documents) differs
      ∙ entry-without k d c.processed_documents differs)
]
