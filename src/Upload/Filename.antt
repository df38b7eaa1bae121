-- ===== src/Upload/Filename.antt =====
-- `sanitize_filename` of upload_validation.py. A text is the list of its characters' codes.
use Prim.Native.Char.{code}
use Prim.Native.String.{String, ◌∷◌}
use claimsintelligence.Base.{
  ℕ, ◌+◌, ◌-◌, Bool, true, false, not, ◌&&◌, ◌||◌, Option, none, some, List, [], ◌∷◌, ◌++◌,
  if◌then◌else◌, length, take, leb, ltb, eqb, max, select,
}
use claimsintelligence.Exec.{exn, value_error, Outcome, returned, raised}

abbrev pub Text : Type 0
Text = List ℕ

abbrev pub codes : String → Text
codes String.[] = []
codes (c ∷ s) = code c ∷ codes s

-- `unicodedata.normalize("NFKC", s)`, `str.strip` and the length of the UTF-8 form of a text, of
-- which `to_utf8` gives none where there is a surrogate, and `replaced` is the text with those
-- replaced.
pub record Unicode : Type 0 where
  pub nfkc : Text → Text
  pub strip : Text → Text
  pub to_utf8 : Text → Option ℕ
  pub replaced : Text → Text × ℕ

-- s.replace("\\\\", "/"): two backslashes become a slash
unfoldable pub slashes : Text → Text
slashes [] = []
slashes (c ∷ []) = c ∷ []
slashes (c ∷ d ∷ s) =
    let after_both = slashes s in
    let after_one = slashes (d ∷ s) in
    if eqb c 92 && eqb d 92 then 47 ∷ after_both else c ∷ after_one

abbrev pub in_text : ℕ → Text → Bool
in_text c [] = false
in_text c (d ∷ s) = eqb c d || in_text c s

-- s.split("/")[-1]
unfoldable pub after_slash : Text → Text
after_slash [] = []
after_slash (c ∷ s) =
    let rest = after_slash s in
    if in_text 47 (c ∷ s) then (if eqb c 47 && not (in_text 47 s) then s else rest) else c ∷ s

-- ch >= " " and ch not in "\x7f"
abbrev pub is_printed : ℕ → Bool
is_printed c = leb 32 c && not (eqb c 127)

-- [A-Za-z0-9 ._()\-]
abbrev pub is_safe : ℕ → Bool
is_safe c =
    (leb 65 c && leb c 90)
    || (leb 97 c && leb c 122)
    || (leb 48 c && leb c 57)
    || eqb c 32
    || eqb c 46
    || eqb c 95
    || eqb c 40
    || eqb c 41
    || eqb c 45

-- Each run of other characters becomes one underscore; `in_run` is set inside a run.
unfoldable pub substitute : Bool → Text → Text
substitute in_run [] = []
substitute in_run (c ∷ s) =
    let go_on = substitute true s in
    let fresh = substitute false s in
    if is_safe c then c ∷ fresh else if in_run then go_on else 95 ∷ go_on

-- A space or a dot.
abbrev pub is_edge : ℕ → Bool
is_edge c = eqb c 32 || eqb c 46

unfoldable pub lstrip : Text → Text
lstrip [] = []
lstrip (c ∷ s) = let rest = lstrip s in if is_edge c then rest else c ∷ s

abbrev pub rstrip_cons : ℕ → Text → Text
rstrip_cons c [] = if is_edge c then [] else c ∷ []
rstrip_cons c (d ∷ s) = c ∷ d ∷ s

unfoldable pub rstrip : Text → Text
rstrip [] = []
rstrip (c ∷ s) = rstrip_cons c (rstrip s)

-- The text up to its last dot, and from there, if a dot comes behind the last slash.
unfoldable pub split_dot : Text → Text × Text
split_dot [] = ([], [])
split_dot (c ∷ s) =
    let (stem, ext) = split_dot s in
    if eqb c 46 && not (in_text 46 s || in_text 47 s) then ([], c ∷ s) else (c ∷ stem, ext)

abbrev pub all_dots : Text → Bool
all_dots [] = true
all_dots (c ∷ s) = eqb c 46 && all_dots s

-- os.path.splitext: a name that has only dots before its last dot has no extension.
unfoldable pub splitext : Text → Text × Text
splitext s =
    let (stem, ext) = split_dot s in if all_dots (after_slash stem) then (s, []) else (stem, ext)

abbrev pub is_nil : Text → Bool
is_nil [] = true
is_nil (c ∷ s) = false

abbrev pub or_file : Text → Text
or_file s = if is_nil s then codes "file" else s

-- s in {"", ".", ".."}
abbrev pub is_dots : Text → Bool
is_dots s = all_dots s && leb (length s) 2

abbrev pub cut_stem : ℕ → Text → Text → Text
cut_stem max_chars stem ext =
    if ltb max_chars (length stem + length ext)
    then take (max 1 (max_chars - length ext)) stem
    else stem

abbrev pub finish : Text → Text
finish candidate = if is_dots candidate then codes "file" else candidate

-- From the name without control characters on.
unfoldable pub assemble : ℕ → Text → Text
assemble max_chars s =
    let (stem, ext) = splitext (if is_dots s then codes "file" else s) in
    let safe_ext = substitute false (take 16 ext) in
    let safe_stem = or_file (lstrip (rstrip (substitute false stem))) in
    finish (rstrip (cut_stem max_chars safe_stem safe_ext ++ safe_ext))

-- The text and the length of its UTF-8 form.
abbrev pub encoded : Unicode → Text → Text × ℕ
encoded u s = elim (u.to_utf8 s) [ none ↦ u.replaced s | some n ↦ (s, n) ]

unfoldable pub sanitize_filename : Unicode → Option Text → ℕ → ℕ → Outcome Text
sanitize_filename u none max_chars max_utf8_bytes = returned (codes "file")
sanitize_filename u (some filename) max_chars max_utf8_bytes =
    if is_nil filename
    then returned (codes "file")
    else let (normalized, utf8_bytes) =
        encoded u (u.nfkc (u.strip (after_slash (slashes filename)))) in
      if ltb max_utf8_bytes utf8_bytes
      then raised (exn value_error "Filename is too long")
      else returned (assemble max_chars (select is_printed normalized))
