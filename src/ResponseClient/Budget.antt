-- ===== src/ResponseClient/Budget.antt =====
-- What the trimming of the messages keeps to: `_trim_messages` of azure_openai_response_retry.py.
use claimsintelligence.Base.{
  ℕ, zero, suc, ◌+◌, ◌-◌, ◌≤◌, ◌<◌, ◌≡◌, refl, Bool, true, false, ◌&&◌, List, [], ◌∷◌, ◌++◌, arith,
  if◌then◌else◌, length, take, ltb, leb, eqb, min, max, ◌⊎◌, inl, inr, string_key, ap, ◌∙◌,
  Bool-cases,
}
use claimsintelligence.Dict.{get-set}
use claimsintelligence.ResponseClient.Truncate.{Text, truncate_text, length-truncate_text}
use claimsintelligence.ResponseClient.Trim.{
  ContextTrimConfig, Framework, text, text_content, Message, dict, chat_message,
  estimate_message_text, set_message_text, size, total_chars, pop_at, drop_oldest, largest_idx,
  cut_text, cut_at, truncate_largest, system_messages, combine, within_budget, trim_messages,
}

-- Where a `ChatMessage` with one text has that text, the text that was set is the one read.
pub estimate-set_message_text :
    (fw : Framework) (m : Message) (s : Text)
    → fw.chat_text (text_content s ∷ []) ≡ s
    → estimate_message_text fw (set_message_text m s) ≡ s
unfolding estimate_message_text set_message_text
estimate-set_message_text fw (dict d) s h = ground (
  arith,
  get-set d "content" "content" (text s),
  get-set d "text" "text" (text s),
  get-set d "text" "content" (text s),
  get-set d "contents" "contents" (text s),
  get-set d "contents" "text" (text s),
  get-set d "contents" "content" (text s),
)
estimate-set_message_text fw (chat_message role contents) s h = h

length-pop_at : (n : ℕ) (ms : List Message) → n < length ms → length ms ≡ suc (length (pop_at n ms))
length-pop_at n [] h = omega (arith, h)
length-pop_at zero (m ∷ ms) h = refl
length-pop_at (suc n) (m ∷ ms) h = omega (arith, length-pop_at n ms (omega (arith, h)))

take-pop_at : (n : ℕ) (ms : List Message) → take n (pop_at n ms) ≡ take n ms
take-pop_at zero [] = refl
take-pop_at zero (m ∷ ms) = refl
take-pop_at (suc n) [] = refl
take-pop_at (suc n) (m ∷ ms) = ap (◌∷◌ m) (take-pop_at n ms)

module _ (fw : Framework) (cfg : ContextTrimConfig) where
  abbrev pub Ended : ℕ → List Message → Type 0
  Ended min_keep ms = (length ms ≤ min_keep) ⊎ (total_chars fw cfg ms ≤ cfg.max_total_chars)

  Ended-if :
      (b : Bool) (x y : List Message) (min_keep : ℕ)
      → (b ≡ true → Ended min_keep x)
      → (b ≡ false → Ended min_keep y)
      → Ended min_keep (if b then x else y)
  Ended-if true x y min_keep f g = f refl
  Ended-if false x y min_keep f g = g refl

  stopped :
      (min_keep : ℕ) (ms : List Message)
      → (ltb min_keep (length ms) && ltb cfg.max_total_chars (total_chars fw cfg ms)) ≡ false
      → Ended min_keep ms
  stopped min_keep ms off = ground arith

  -- Where the loop may drop a message for every one there is, it ends with as few messages as are to
  -- be kept, or within the budget.
  pub drop_oldest-ends :
      (fuel min_keep drop_index : ℕ) (ms : List Message)
      → length ms ≤ fuel
      → drop_index ≤ min_keep
      → Ended min_keep (drop_oldest fw cfg fuel min_keep drop_index ms)
  unfolding drop_oldest
  drop_oldest-ends zero min_keep drop_index ms h k = inl (omega (arith, h))
  drop_oldest-ends (suc fuel) min_keep drop_index ms h k =
      Ended-if (ltb min_keep (length ms) && ltb cfg.max_total_chars (total_chars fw cfg ms)) inner
        ms min_keep
        (λ on.
          Ended-if (leb (length ms) drop_index) ms
            (drop_oldest fw cfg fuel min_keep drop_index (pop_at drop_index ms)) min_keep
            (λ gone. inl (ground (arith, k)))
            (λ there.
              let short : drop_index < length ms = ground arith in
              drop_oldest-ends fuel min_keep drop_index (pop_at drop_index ms)
                (omega (arith, length-pop_at drop_index ms short)) k))
        (λ off. stopped min_keep ms off)
    where
      inner : List Message
      inner =
          if leb (length ms) drop_index
          then ms
          else drop_oldest fw cfg fuel min_keep drop_index (pop_at drop_index ms)

  -- The messages before the one that is dropped stay.
  take-drop_oldest :
      (fuel min_keep n : ℕ) (ms : List Message)
      → take n (drop_oldest fw cfg fuel min_keep n ms) ≡ take n ms
  unfolding drop_oldest
  take-drop_oldest zero min_keep n ms = refl
  take-drop_oldest (suc fuel) min_keep n ms =
      ground (arith, take-drop_oldest fuel min_keep n (pop_at n ms), take-pop_at n ms)

  module _ (lawful : (s : Text) → fw.chat_text (text_content s ∷ []) ≡ s) where
    size-cut_text :
        (available : ℕ) (m : Message) → size fw cfg (cut_text fw cfg available m) ≤ available
    unfolding cut_text
    size-cut_text available m = rw (estimate-set_message_text fw m cut (lawful cut)) (
        length-truncate_text whole available (min cfg.keep_head_chars available)
          (min cfg.keep_tail_chars available))
      where
        whole : Text
        whole = estimate_message_text fw m

        cut : Text
        cut =
            truncate_text whole available (min cfg.keep_head_chars available)
              (min cfg.keep_tail_chars available)

    fitting :
        (ms : List Message)
        → total_chars fw cfg ms ≤ cfg.max_total_chars
        → total_chars fw cfg (truncate_largest fw cfg ms) ≤ cfg.max_total_chars
    unfolding truncate_largest
    fitting ms h =
        let fits : ltb cfg.max_total_chars (total_chars fw cfg ms) ≡ false = ground arith in
        rw fits h

    truncate_largest-fits :
        (ms : List Message)
        → Ended 1 ms
        → cfg.keep_head_chars + cfg.keep_tail_chars ≤ cfg.max_total_chars
        → total_chars fw cfg (truncate_largest fw cfg ms) ≤ cfg.max_total_chars
    unfolding truncate_largest total_chars largest_idx cut_at
    truncate_largest-fits ms (inr fits) room = fitting ms fits
    truncate_largest-fits [] (inl few) room = fitting [] (omega arith)
    truncate_largest-fits (m ∷ n ∷ ms) (inl few) room = omega (arith, few)
    truncate_largest-fits (m ∷ []) (inl few) room =
        elim (Bool-cases (ltb cfg.max_total_chars (size fw cfg m + 0))) [
          | inr fits ↦ rw fits (ground arith)
          | inl large ↦
              let available : ℕ =
                max (cfg.keep_head_chars + cfg.keep_tail_chars) (cfg.max_total_chars - 0) in
              rw large (omega (arith, room, size-cut_text available m))
        ]

    -- Where a `ChatMessage` with one text has that text, the trimming is on, with a budget into which
    -- the head and the tail of a truncated text fit, and no leading system message is kept: the
    -- trimmed messages are within the budget.
    pub total_chars-trim_messages :
        (ms : List Message)
        → cfg.enabled ≡ true
        → 0 < cfg.max_total_chars
        → cfg.keep_head_chars + cfg.keep_tail_chars ≤ cfg.max_total_chars
        → system_messages fw cfg ms ≡ []
        → total_chars fw cfg (trim_messages fw cfg ms) ≤ cfg.max_total_chars
    unfolding trim_messages within_budget
    total_chars-trim_messages ms on budget room none_kept =
        simp (on, positive, none_kept)
          (truncate_largest-fits _
            (drop_oldest-ends (length (combine fw cfg ms)) 1 0 (combine fw cfg ms) (omega arith)
              (omega arith))
            room)
      where
        positive : eqb cfg.max_total_chars 0 ≡ false
        positive = ground arith

  take-append : (xs ys : List Message) → take (length xs) (xs ++ ys) ≡ xs
  take-append [] ys = refl
  take-append (x ∷ xs) ys = ap (◌∷◌ x) (take-append xs ys)

  -- Before the largest message is truncated, the messages still start with the leading system
  -- messages, where those are kept: none of them is dropped to meet the budget.
  pub take-drop_oldest-combine :
      (ms : List Message)
      → let n = length (system_messages fw cfg ms) in
        take n (drop_oldest fw cfg (length (combine fw cfg ms)) (max 1 n) n (combine fw cfg ms))
        ≡ system_messages fw cfg ms
  unfolding combine
  take-drop_oldest-combine ms =
      let n : ℕ = length (system_messages fw cfg ms) in
      take-drop_oldest (length (combine fw cfg ms)) (max 1 n) n (combine fw cfg ms)
      ∙ take-append (system_messages fw cfg ms) _
