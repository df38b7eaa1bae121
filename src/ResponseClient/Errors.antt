-- ===== src/ResponseClient/Errors.antt =====
-- What kind of failure an exception tells of: `_looks_like_rate_limit`,
-- `_looks_like_access_check_challenge`, `_is_transient_error` and `_looks_like_context_length` of
-- azure_openai_response_retry.py.
use claimsintelligence.Base.{
  ℕ, ◌+◌, Bool, true, false, ◌||◌, ◌&&◌, Option, none, some, List, [], ◌∷◌, leb, eqb, if◌then◌else◌,
  String,
}
use claimsintelligence.ResponseClient.Truncate.{Text, codes}

-- `str` of an exception, its attributes `status_code` and `status`, where they are numbers, and what
-- `_try_get_retry_after_seconds` finds in it, where that is not negative.
pub record Info : Type 0 where
  pub message : Text
  pub status_code : Option ℕ
  pub status : Option ℕ
  pub retry_after : Option ℕ

-- An exception, with its `__cause__` if there is one.
pub data Error : Type 0 where
  alone : Info → Error
  caused_by : Info → Error → Error

abbrev pub info : Error → Info
info (alone i) = i
info (caused_by i e) = i

-- s.lower(), as far as letters of ASCII come of it: the Kelvin sign becomes a k, and the dotted I an
-- i with a combining dot.
abbrev pub lower_to : ℕ → Text → Text
lower_to c rest =
    if leb 65 c && leb c 90
    then (c + 32) ∷ rest
    else if eqb c 0x212a
    then 107 ∷ rest
    else if eqb c 0x130
    then 105 ∷ 0x307 ∷ rest
    else c ∷ rest

unfoldable pub lower : Text → Text
lower [] = []
lower (c ∷ s) = lower_to c (lower s)

abbrev pub starts : Text → Text → Bool
starts [] s = true
starts (d ∷ t) [] = false
starts (d ∷ t) (c ∷ s) = eqb d c && starts t s

-- t in s
unfoldable pub occurs : Text → Text → Bool
occurs t [] = starts t []
occurs t (c ∷ s) = starts t (c ∷ s) || occurs t s

unfoldable pub any_occurs : List String → Text → Bool
any_occurs [] s = false
any_occurs (w ∷ ws) s = occurs (codes w) s || any_occurs ws s

-- getattr(error, "status_code", None) or getattr(error, "status", None)
abbrev pub or_status : Option ℕ → Option ℕ → Option ℕ
or_status none s = s
or_status (some c) s = if eqb c 0 then s else some c

abbrev pub status_of : Info → Option ℕ
status_of i = or_status i.status_code i.status

abbrev pub is_status : ℕ → Option ℕ → Bool
is_status n none = false
is_status n (some c) = eqb c n

unfoldable pub tells_rate_limit : Info → Bool
tells_rate_limit i =
    any_occurs ("too many requests" ∷ "rate limit" ∷ "429" ∷ "throttle" ∷ []) (lower i.message)
    || is_status 429 (status_of i)

unfoldable pub looks_like_rate_limit : Error → Bool
looks_like_rate_limit (alone i) = tells_rate_limit i
looks_like_rate_limit (caused_by i cause) = tells_rate_limit i || looks_like_rate_limit cause

unfoldable pub tells_access_check_challenge : Info → Bool
tells_access_check_challenge i =
    any_occurs ("check-access-response-enc" ∷ "could not obtain the account information" ∷ [])
      (lower i.message)

unfoldable pub looks_like_access_check_challenge : Error → Bool
looks_like_access_check_challenge (alone i) = tells_access_check_challenge i
looks_like_access_check_challenge (caused_by i cause) =
    tells_access_check_challenge i || looks_like_access_check_challenge cause

unfoldable pub is_transient_error : Error → Bool
is_transient_error e = looks_like_rate_limit e || looks_like_access_check_challenge e

unfoldable pub tells_context_length : Info → Bool
tells_context_length i =
    any_occurs
      ("exceeds the context window" ∷ "maximum context length" ∷ "context length"
        ∷ "too many tokens" ∷ "prompt is too long" ∷ "input is too long"
        ∷ "please reduce the length" ∷ [])
      (lower i.message)
    || is_status 400 (status_of i)
    || is_status 413 (status_of i)

unfoldable pub looks_like_context_length : Error → Bool
looks_like_context_length (alone i) = tells_context_length i
looks_like_context_length (caused_by i cause) =
    tells_context_length i || looks_like_context_length cause
