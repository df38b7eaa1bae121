-- ===== src/ResponseClient/Truncate.antt =====
-- `_truncate_text` of azure_openai_response_retry.py. A text is the list of its characters' codes.
use Prim.Native.Char.{code}
use Prim.Native.String.{String, ◌∷◌}
use claimsintelligence.Base.{
  ℕ, zero, suc, ◌+◌, ◌-◌, ◌/◌, ◌%◌, ◌≤◌, ◌≡◌, Bool, true, false, List, [], ◌∷◌, ◌++◌, arith,
  if◌then◌else◌, length, take, last_n, leb, eqb, min, length-append, length-take, length-drop,
  Bool-cases, inl, inr,
}

abbrev pub Text : Type 0
Text = List ℕ

abbrev pub codes : String → Text
codes String.[] = []
codes (c ∷ s) = code c ∷ codes s

-- str(n), for as many digits as `n` can have
unfoldable pub digits : ℕ → ℕ → Text → Text
digits zero n acc = acc
digits (suc fuel) n acc =
    let more = digits fuel (n / 10) ((48 + n % 10) ∷ acc) in
    if eqb (n / 10) 0 then (48 + n % 10) ∷ acc else more

abbrev pub decimal : ℕ → Text
decimal n = digits (suc n) n []

unfoldable pub marker : ℕ → Text
marker omitted = codes "\n... [TRUNCATED " ++ decimal omitted ++ codes " CHARS] ...\n"

-- What stands between the head and the tail: as much of the marker as fits.
abbrev pub with_tail : ℕ → Text → Text → Text → Text
with_tail max_chars text head tail =
    let budget = max_chars - (length head + length tail) in
    let omitted = length text - (length head + length tail) in
    if eqb budget 0 then head ++ tail else head ++ take budget (marker omitted) ++ tail

-- The sizes are not negative: the configuration is cut off at 0. `marker[:budget]` is the marker
-- itself where that is no longer than the budget.
unfoldable pub truncate_text : Text → ℕ → ℕ → ℕ → Text
truncate_text text max_chars keep_head_chars keep_tail_chars =
    if eqb max_chars 0
    then []
    else if leb (length text) max_chars
    then text
    else let head = take (min keep_head_chars max_chars) text in
      let remaining = max_chars - length head in
      let tail_len = min keep_tail_chars remaining in
      if eqb remaining 0
      then head
      else if eqb tail_len 0
      then head
      else with_tail max_chars text head (last_n tail_len text)

length-if :
    (b : Bool) (x y : Text) (n : ℕ) → length x ≤ n → length y ≤ n → length (if b then x else y) ≤ n
length-if true x y n h k = h
length-if false x y n h k = k

length-with_tail :
    (max_chars : ℕ) (text head tail : Text)
    → length head + length tail ≤ max_chars
    → length (with_tail max_chars text head tail) ≤ max_chars
length-with_tail max_chars text head tail h =
    length-if (eqb budget 0) (head ++ tail) (head ++ take budget between ++ tail) max_chars
      (omega (arith, h, length-append head tail))
      (rw
        (
          length-append (head ++ take budget between) tail,
          length-append head (take budget between),
          length-take budget between,
        )
        (omega (arith, h)))
  where
    budget : ℕ
    budget = max_chars - (length head + length tail)

    between : Text
    between = marker (length text - (length head + length tail))

length-last_n : (n : ℕ) (text : Text) → length (last_n n text) ≤ n
length-last_n n text = omega (arith, length-drop (length text - n) text)

short : (text : Text) (n : ℕ) → leb (length text) n ≡ true → length text ≤ n
short text n h = ground arith

-- A truncated text is no longer than it may be.
pub length-truncate_text :
    (text : Text) (max_chars keep_head_chars keep_tail_chars : ℕ)
    → length (truncate_text text max_chars keep_head_chars keep_tail_chars) ≤ max_chars
unfolding truncate_text
length-truncate_text text max_chars keep_head_chars keep_tail_chars =
    length-if (eqb max_chars 0) [] _ max_chars (omega arith)
      (elim (Bool-cases (leb (length text) max_chars)) [
        | inl fits ↦ rw fits (short text max_chars fits)
        | inr long ↦ rw long (
            length-if (eqb remaining 0) head (if eqb tail_len 0 then head else between) max_chars
              head_fits
              (length-if (eqb tail_len 0) head between max_chars head_fits
                (length-with_tail max_chars text head tail both_fit)))
      ])
  where
    head : Text
    head = take (min keep_head_chars max_chars) text

    remaining : ℕ
    remaining = max_chars - length head

    tail_len : ℕ
    tail_len = min keep_tail_chars remaining

    tail : Text
    tail = last_n tail_len text

    between : Text
    between = with_tail max_chars text head tail

    head_fits : length head ≤ max_chars
    head_fits = omega (arith, length-take (min keep_head_chars max_chars) text)

    both_fit : length head + length tail ≤ max_chars
    both_fit = omega (arith, head_fits, length-last_n tail_len text)

-- A text that fits is left as it is.
pub truncate_text-short :
    (text : Text) (max_chars keep_head_chars keep_tail_chars : ℕ)
    → length text ≤ max_chars
    → truncate_text text max_chars keep_head_chars keep_tail_chars ≡ text
unfolding truncate_text
truncate_text-short [] max_chars keep_head_chars keep_tail_chars h = ground arith
truncate_text-short (c ∷ text) max_chars keep_head_chars keep_tail_chars h = ground arith
