-- ===== src/ResponseClient/Trim.antt =====
-- The messages of a request, and `_trim_messages` of azure_openai_response_retry.py. Messages are
-- values: that the source changes a `ChatMessage` in place, also for its caller, is left out.
use claimsintelligence.Base.{
  ℕ, zero, suc, ◌+◌, ◌-◌, String, Bool, true, false, not, ◌&&◌, ◌||◌, Option, none, some, List, [],
  ◌∷◌, ◌++◌, if◌then◌else◌, length, take, drop, last_n, ltb, leb, eqb, min, max, nat_key,
  string_key,
}
use claimsintelligence.Dict
use claimsintelligence.Dict.{Dict}
use claimsintelligence.ResponseClient.Truncate.{Text, codes, truncate_text}

-- The sizes are what `from_env` leaves: not negative, and at least one message is kept.
pub record ContextTrimConfig : Type 0 where
  pub enabled : Bool
  pub max_total_chars : ℕ
  pub max_message_chars : ℕ
  pub keep_last_messages : ℕ
  pub keep_head_chars : ℕ
  pub keep_tail_chars : ℕ
  pub keep_system_messages : Bool
  pub retry_on_context_error : Bool

-- A value in a message that is a dictionary: no value, a text, or another one with its `str`.
pub data Value : Type 0 where
  nothing : Value
  text : Text → Value
  other : Text → Value

-- An item of the contents of a `ChatMessage`: a text, or another kind of content.
pub data Content : Type 0 where
  text_content : Text → Content
  other_content : Text → Content

pub data Message : Type 0 where
  dict : Dict String Value → Message
  chat_message : Option Text → List Content → Message

-- What the framework and `str` make of a message: the text of a `ChatMessage`, and the text of a
-- dictionary that has none of the keys.
pub record Framework : Type 0 where
  pub chat_text : List Content → Text
  pub dict_text : Dict String Value → Text

abbrev pub safe_str : Value → Text
safe_str nothing = []
safe_str (text s) = s
safe_str (other s) = s

abbrev pub first_of : Option Value → Text → Text
first_of none else_text = else_text
first_of (some v) else_text = safe_str v

unfoldable pub estimate_message_text : Framework → Message → Text
estimate_message_text fw (dict d) =
    first_of (Dict.get d "content")
      (first_of (Dict.get d "text") (first_of (Dict.get d "contents") (fw.dict_text d)))
estimate_message_text fw (chat_message role contents) = fw.chat_text contents

abbrev pub is_there {ℓ} : {A : Type ℓ} → Option A → Bool
is_there none = false
is_there (some a) = true

unfoldable pub set_message_text : Message → Text → Message
set_message_text (dict d) new_text =
    if is_there (Dict.get d "content")
    then dict (Dict.set d "content" (text new_text))
    else if is_there (Dict.get d "text")
    then dict (Dict.set d "text" (text new_text))
    else if is_there (Dict.get d "contents")
    then dict (Dict.set d "contents" (text new_text))
    else dict (Dict.set d "content" (text new_text))
set_message_text (chat_message role contents) new_text =
    chat_message role (text_content new_text ∷ [])

unfoldable pub get_message_role : Message → Option Text
get_message_role (dict d) = elim (Dict.get d "role") [
  | none ↦ none
  | some v ↦ elim v [ nothing ↦ none | text s ↦ some s | other s ↦ none ]
]
get_message_role (chat_message role contents) = role

abbrev pub text_eq : Text → Text → Bool
text_eq [] [] = true
text_eq [] (d ∷ t) = false
text_eq (c ∷ s) [] = false
text_eq (c ∷ s) (d ∷ t) = eqb c d && text_eq s t

abbrev pub is_system : Message → Bool
is_system m = elim (get_message_role m) [ none ↦ false | some role ↦ text_eq role (codes "system") ]

-- The leading system messages.
unfoldable pub leading : List Message → List Message
leading [] = []
leading (m ∷ ms) = let more = leading ms in if is_system m then m ∷ more else []

abbrev pub Fingerprint : Type 0
Fingerprint = Text × Text

-- (text[:200], text[-200:])
abbrev pub fingerprint : Text → Fingerprint
fingerprint s = (take 200 s, last_n 200 s)

abbrev pub seen : Fingerprint → List Fingerprint → Bool
seen fp [] = false
seen (a, b) ((c, d) ∷ fps) = (text_eq a c && text_eq b d) || seen (a, b) fps

-- combined.pop(n)
abbrev pub pop_at : ℕ → List Message → List Message
pop_at n [] = []
pop_at zero (m ∷ ms) = ms
pop_at (suc n) (m ∷ ms) = m ∷ pop_at n ms

module _ (fw : Framework) (cfg : ContextTrimConfig) where
  abbrev pub size : Message → ℕ
  size m = length (estimate_message_text fw m)

  unfoldable pub shorten : Message → Message
  shorten m =
      let s = estimate_message_text fw m in
      if not (eqb cfg.max_message_chars 0) && ltb cfg.max_message_chars (length s)
      then set_message_text m
          (truncate_text s cfg.max_message_chars cfg.keep_head_chars cfg.keep_tail_chars)
      else m

  -- Without the messages whose text was seen, and with long texts truncated.
  unfoldable pub clean : List Fingerprint → List Message → List Message
  clean fps [] = []
  clean fps (m ∷ ms) =
      let fp = fingerprint (estimate_message_text fw m) in
      let without = clean fps ms in
      let rest = clean (fp ∷ fps) ms in if seen fp fps then without else shorten m ∷ rest

  unfoldable pub total_chars : List Message → ℕ
  total_chars [] = 0
  total_chars (m ∷ ms) = size m + total_chars ms

  -- The loop that drops the oldest messages, for at most so many rounds.
  unfoldable pub drop_oldest : ℕ → ℕ → ℕ → List Message → List Message
  drop_oldest zero min_keep drop_index combined = combined
  drop_oldest (suc fuel) min_keep drop_index combined =
      let rest = drop_oldest fuel min_keep drop_index (pop_at drop_index combined) in
      if ltb min_keep (length combined) && ltb cfg.max_total_chars (total_chars combined)
      then (if leb (length combined) drop_index then combined else rest)
      else combined

  -- The index of the first of the largest messages, with its size.
  abbrev pub largest_from : ℕ → ℕ → ℕ → List Message → ℕ
  largest_from best best_size i [] = best
  largest_from best best_size i (m ∷ ms) =
      let keep = largest_from best best_size (suc i) ms in
      let take_it = largest_from i (size m) (suc i) ms in
      if ltb best_size (size m) then take_it else keep

  unfoldable pub largest_idx : List Message → ℕ
  largest_idx [] = 0
  largest_idx (m ∷ ms) = largest_from 0 (size m) 1 ms

  -- The text of one message is cut to `available`.
  unfoldable pub cut_text : ℕ → Message → Message
  cut_text available m = set_message_text m (
      truncate_text (estimate_message_text fw m) available (min cfg.keep_head_chars available)
        (min cfg.keep_tail_chars available))

  unfoldable pub cut_at : ℕ → ℕ → List Message → List Message
  cut_at n available [] = []
  cut_at zero available (m ∷ ms) = cut_text available m ∷ ms
  cut_at (suc n) available (m ∷ ms) = m ∷ cut_at n available ms

  unfoldable pub truncate_largest : List Message → List Message
  truncate_largest combined =
      if ltb cfg.max_total_chars (total_chars combined)
      then (let i = largest_idx combined in
          let others_chars = total_chars (pop_at i combined) in
          let available =
            max (cfg.keep_head_chars + cfg.keep_tail_chars) (cfg.max_total_chars - others_chars) in
          cut_at i available combined)
      else combined

  abbrev pub system_messages : List Message → List Message
  system_messages ms = if cfg.keep_system_messages then leading ms else []

  abbrev pub last_messages : List Message → List Message
  last_messages tail =
      if eqb cfg.keep_last_messages 0 then tail else last_n cfg.keep_last_messages tail

  -- `system_messages + cleaned`
  unfoldable pub combine : List Message → List Message
  combine ms =
      let system = system_messages ms in
      system ++ clean [] (last_messages (drop (length system) ms))

  -- Without kept system messages the first message goes first.
  unfoldable pub within_budget : ℕ → List Message → List Message
  within_budget systems combined =
      truncate_largest (drop_oldest (length combined) (max 1 systems) systems combined)

  unfoldable pub trim_messages : List Message → List Message
  trim_messages ms =
      if not cfg.enabled
      then ms
      else if eqb cfg.max_total_chars 0
      then combine ms
      else within_budget (length (system_messages ms)) (combine ms)
