-- ===== src/Upload/Safety.antt =====
-- What the file names are like that `sanitize_filename` of upload_validation.py lets through.
use claimsintelligence.Base.{
  ℕ, zero, suc, ◌+◌, ◌-◌, ◌≤◌, ◌<◌, ◌≡◌, refl, Bool, true, false, ◌&&◌, Option, none, some, [], ◌∷◌,
  ◌++◌, arith, if◌then◌else◌, length, take, ltb, max, Bool-cases, inl, inr, length-append,
  length-take, select,
}
use claimsintelligence.Exec.{exn, value_error, Outcome, returned, raised}
use claimsintelligence.Upload.Filename.{
  Text, codes, Unicode, is_printed, is_safe, substitute, is_edge, lstrip, rstrip_cons, rstrip,
  splitext, is_nil, or_file, is_dots, cut_stem, finish, assemble, encoded, slashes, after_slash,
  sanitize_filename,
}

abbrev pub all_safe : Text → Bool
all_safe [] = true
all_safe (c ∷ s) = is_safe c && all_safe s

substitute_safe : (in_run : Bool) (s : Text) → all_safe (substitute in_run s) ≡ true
unfolding substitute
substitute_safe in_run [] = refl
substitute_safe true (c ∷ s) = elim (Bool-cases (is_safe c)) [
  | inl safe ↦ rw (safe, substitute) (rw safe (substitute_safe false s))
  | inr not_safe ↦ rw (not_safe, substitute) (substitute_safe true s)
]
substitute_safe false (c ∷ s) = elim (Bool-cases (is_safe c)) [
  | inl safe ↦ rw (safe, substitute) (rw safe (substitute_safe false s))
  | inr not_safe ↦ rw (not_safe, substitute) (substitute_safe true s)
]

length-substitute : (in_run : Bool) (s : Text) → length (substitute in_run s) ≤ length s
unfolding substitute
length-substitute in_run [] = omega arith
length-substitute true (c ∷ s) = elim (Bool-cases (is_safe c)) [
  | inl safe ↦ rw (safe, substitute) (omega (arith, length-substitute false s))
  | inr not_safe ↦ rw (not_safe, substitute) (omega (arith, length-substitute true s))
]
length-substitute false (c ∷ s) = elim (Bool-cases (is_safe c)) [
  | inl safe ↦ rw (safe, substitute) (omega (arith, length-substitute false s))
  | inr not_safe ↦ rw (not_safe, substitute) (omega (arith, length-substitute true s))
]

and_split : (a b : Bool) → (a && b) ≡ true → (a ≡ true) × (b ≡ true)
and_split a b h = (ground arith, ground arith)

and_join : (a b : Bool) → a ≡ true → b ≡ true → (a && b) ≡ true
and_join a b h k = ground arith

safe-if :
    (b : Bool) (s t : Text)
    → all_safe s ≡ true
    → all_safe t ≡ true
    → all_safe (if b then s else t) ≡ true
safe-if true s t h k = h
safe-if false s t h k = k

take_safe : (n : ℕ) (s : Text) → all_safe s ≡ true → all_safe (take n s) ≡ true
take_safe zero s h = refl
take_safe (suc n) [] h = refl
take_safe (suc n) (c ∷ s) h =
    let (first, rest) = and_split (is_safe c) (all_safe s) h in
    and_join (is_safe c) (all_safe (take n s)) first (take_safe n s rest)

append_safe : (s t : Text) → all_safe s ≡ true → all_safe t ≡ true → all_safe (s ++ t) ≡ true
append_safe [] t h k = k
append_safe (c ∷ s) t h k =
    let (first, rest) = and_split (is_safe c) (all_safe s) h in
    and_join (is_safe c) (all_safe (s ++ t)) first (append_safe s t rest k)

lstrip_safe : (s : Text) → all_safe s ≡ true → all_safe (lstrip s) ≡ true
unfolding lstrip
lstrip_safe [] h = refl
lstrip_safe (c ∷ s) h =
    let (first, rest) = and_split (is_safe c) (all_safe s) h in
    safe-if (is_edge c) (lstrip s) (c ∷ s) (lstrip_safe s rest) h

rstrip_cons_safe :
    (c : ℕ) (s : Text) → is_safe c ≡ true → all_safe s ≡ true → all_safe (rstrip_cons c s) ≡ true
rstrip_cons_safe c [] h k = safe-if (is_edge c) [] (c ∷ []) refl (and_join (is_safe c) true h refl)
rstrip_cons_safe c (d ∷ s) h k = and_join (is_safe c) (all_safe (d ∷ s)) h k

rstrip_safe : (s : Text) → all_safe s ≡ true → all_safe (rstrip s) ≡ true
unfolding rstrip
rstrip_safe [] h = refl
rstrip_safe (c ∷ s) h =
    let (first, rest) = and_split (is_safe c) (all_safe s) h in
    rstrip_cons_safe c (rstrip s) first (rstrip_safe s rest)

rstrip-rstrip_cons : (c : ℕ) (s : Text) → rstrip s ≡ s → rstrip (rstrip_cons c s) ≡ rstrip_cons c s
unfolding rstrip
rstrip-rstrip_cons c [] h = elim (Bool-cases (is_edge c)) [
  | inl edge ↦ rw edge refl
  | inr inner ↦ rw (inner, rstrip) (rw inner refl)
]
rstrip-rstrip_cons c (d ∷ s) h = rw h refl

rstrip_idem : (s : Text) → rstrip (rstrip s) ≡ rstrip s
unfolding rstrip
rstrip_idem [] = refl
rstrip_idem (c ∷ s) = rstrip-rstrip_cons c (rstrip s) (rstrip_idem s)

length-rstrip_cons : (c : ℕ) (s : Text) → length (rstrip_cons c s) ≤ suc (length s)
length-rstrip_cons c [] = elim (Bool-cases (is_edge c)) [
  | inl edge ↦ rw edge (omega arith)
  | inr inner ↦ rw inner (omega arith)
]
length-rstrip_cons c (d ∷ s) = omega arith

length-rstrip : (s : Text) → length (rstrip s) ≤ length s
unfolding rstrip
length-rstrip [] = omega arith
length-rstrip (c ∷ s) = omega (arith, length-rstrip s, length-rstrip_cons c (rstrip s))

length-cut_stem :
    (n : ℕ) (stem ext : Text) → length ext < n → length (cut_stem n stem ext ++ ext) ≤ n
length-cut_stem n stem ext h = elim (Bool-cases (ltb n (length stem + length ext))) [
  | inl long ↦ rw long (
      omega (
        arith,
        h,
        length-append (take (max 1 (n - length ext)) stem) ext,
        length-take (max 1 (n - length ext)) stem,
      ))
  | inr fits ↦
      let few : length stem + length ext ≤ n = ground arith in
      rw fits (omega (arith, few, length-append stem ext))
]

cut_stem_safe :
    (n : ℕ) (stem ext : Text) → all_safe stem ≡ true → all_safe (cut_stem n stem ext) ≡ true
cut_stem_safe n stem ext h =
    safe-if (ltb n (length stem + length ext)) (take (max 1 (n - length ext)) stem) stem
      (take_safe (max 1 (n - length ext)) stem h) h

-- A name for the storage: of letters, digits, spaces and the marks `._()-`, neither empty nor made
-- of one or two dots, without a space or a dot at its end, and of so many characters at most.
pub record IsSafeName (max_chars : ℕ) (s : Text) : Type 0 where
  pub safe : all_safe s ≡ true
  pub named : is_dots s ≡ false
  pub ends : rstrip s ≡ s
  pub short : length s ≤ max_chars

finish-IsSafeName :
    (n : ℕ) (s : Text)
    → 4 ≤ n
    → all_safe s ≡ true
    → rstrip s ≡ s
    → length s ≤ n
    → IsSafeName n (finish s)
unfolding rstrip
finish-IsSafeName n s room safe ends short = elim (Bool-cases (is_dots s)) [
  | inl dots ↦
      rw dots (record { safe = refl; named = refl; ends = refl; short = omega (arith, room) })
  | inr named ↦ rw named (record { safe = safe; named = named; ends = ends; short = short })
]

assemble-IsSafeName : (n : ℕ) (s : Text) → 16 < n → IsSafeName n (assemble n s)
unfolding assemble
assemble-IsSafeName n s room =
    finish-IsSafeName n (rstrip whole) (omega (arith, room))
      (rstrip_safe whole (
        append_safe (cut_stem n stem ext) ext (cut_stem_safe n stem ext stem_safe)
          (substitute_safe false (take 16 parts.1))))
      (rstrip_idem whole) (omega (arith, length-rstrip whole, length-cut_stem n stem ext ext_short))
  where
    parts : Text × Text
    parts = splitext (if is_dots s then codes "file" else s)

    ext : Text
    ext = substitute false (take 16 parts.1)

    stem : Text
    stem = or_file (lstrip (rstrip (substitute false parts.0)))

    whole : Text
    whole = cut_stem n stem ext ++ ext

    stem_safe : all_safe stem ≡ true
    stem_safe =
        let inner = lstrip (rstrip (substitute false parts.0)) in
        safe-if (is_nil inner) (codes "file") inner refl
          (lstrip_safe _ (rstrip_safe _ (substitute_safe false parts.0)))

    ext_short : length ext < n
    ext_short =
        omega (arith, room, length-substitute false (take 16 parts.1), length-take 16 parts.1)

file-IsSafeName : (n : ℕ) → 16 < n → IsSafeName n (codes "file")
unfolding rstrip
file-IsSafeName n room = record {
  safe = refl;
  named = refl;
  ends = refl;
  short = omega (arith, room);
}

abbrev Passes : ℕ → Outcome Text → Type 0
Passes n (returned s) = IsSafeName n s
Passes n (raised e) = Unit

Passes-if :
    (n : ℕ) (b : Bool) (o p : Outcome Text)
    → Passes n o
    → Passes n p
    → Passes n (if b then o else p)
Passes-if n true o p h k = h
Passes-if n false o p h k = k

sanitize_filename-Passes :
    (u : Unicode) (filename : Option Text) (n bytes : ℕ)
    → 16 < n
    → Passes n (sanitize_filename u filename n bytes)
unfolding sanitize_filename
sanitize_filename-Passes u none n bytes room = file-IsSafeName n room
sanitize_filename-Passes u (some filename) n bytes room =
    let sent = encoded u (u.nfkc (u.strip (after_slash (slashes filename)))) in
    Passes-if n (is_nil filename) (returned (codes "file")) _ (file-IsSafeName n room) (
      Passes-if n (ltb bytes sent.1) (raised (exn value_error "Filename is too long"))
        (returned (assemble n (select is_printed sent.0))) tt
        (assemble-IsSafeName n (select is_printed sent.0) room))

passed : (n : ℕ) (o : Outcome Text) (s : Text) → Passes n o → o ≡ returned s → IsSafeName n s
passed n o s h e = (rw e at h)

-- Where more than 16 characters are allowed, every name that is let through is a safe name, however
-- Unicode is normalized and encoded.
pub sanitize_filename-IsSafeName :
    (u : Unicode) (filename : Option Text) (max_chars max_utf8_bytes : ℕ) (s : Text)
    → 16 < max_chars
    → sanitize_filename u filename max_chars max_utf8_bytes ≡ returned s
    → IsSafeName max_chars s
sanitize_filename-IsSafeName u filename n bytes s room =
    passed n (sanitize_filename u filename n bytes) s
      (sanitize_filename-Passes u filename n bytes room)
