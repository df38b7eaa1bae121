-- ===== src/QueueService/PayloadLaws.antt =====
-- What `_build_task_param` of queue_service.py accepts.
use package.text.Mathlib.Text.{starts_with}
use claimsintelligence.Base.{
  ℕ, String, ◌≡◌, refl, Bool, true, false, Option, none, some, List, arith, if◌then◌else◌, is_empty,
  is_space, strip, strip_by, strip_by_idem,
}
use claimsintelligence.Exec.{Exn, exn, value_error, Outcome, returned, raised}
use claimsintelligence.QueueService.Payload.{
  Json, string, object, Fields, Raw, missing, text, bytes, Codec, field_get, str_json, is_truthy,
  claim_id_of, parse_json, unwrap_base64, parse_text, parse_claim_task_parameters, recheck,
  build_task_param,
}

is_empty-strip : (s : String) → is_empty s ≡ true → is_empty (strip s) ≡ true
unfolding strip_by
is_empty-strip String.[] h = refl
is_empty-strip (String.◌∷◌ c s) h = cc

starts_with-empty : (s : String) → is_empty s ≡ true → starts_with s "{" ≡ false
starts_with-empty String.[] h = refl
starts_with-empty (String.◌∷◌ c s) h = cc

module _ (codec : Codec) where
  -- An id with no white space at its ends, which is not empty.
  abbrev pub IsClean : String → Type 0
  IsClean c = (strip c ≡ c) × (is_empty c ≡ false)

  recheck-IsClean : (r : Outcome String) {c : String} → recheck codec r ≡ returned c → IsClean c
  recheck-IsClean (raised e) h = cc
  recheck-IsClean (returned d) h = ground (arith, strip_by_idem is_space d)

  -- An accepted claim id is not empty, and has no white space at its ends.
  pub build_task_param-IsClean :
      (raw : Raw) {c : String} → build_task_param codec raw ≡ returned c → IsClean c
  unfolding build_task_param
  build_task_param-IsClean raw h = recheck-IsClean (parse_claim_task_parameters codec raw) h

  abbrev IsValueError : Outcome String → Type 0
  IsValueError (returned c) = Unit
  IsValueError (raised e) = e.class ≡ value_error

  claim_id-IsValueError : (v : Option Json) → IsValueError (claim_id_of codec v)
  claim_id-IsValueError none = refl
  claim_id-IsValueError (some v) =
      ifs (is_empty (strip (if is_truthy v then str_json codec v else "")))
    where
      ifs :
          (b : Bool)
          → IsValueError (
              if b
              then raised (exn value_error "claim_process_id is empty")
              else returned (strip (if is_truthy v then str_json codec v else "")))
      ifs true = refl
      ifs false = tt

  parse_json-IsValueError : (j : Option Json) → IsValueError (parse_json codec j)
  parse_json-IsValueError none = refl
  parse_json-IsValueError (some (object fs)) =
      claim_id-IsValueError (field_get fs "claim_process_id")
  parse_json-IsValueError (some _) = refl

  checked-IsValueError :
      (empty? brace? : Bool) (r : Outcome String) (e e' : Exn)
      → IsValueError r
      → e.class ≡ value_error
      → e'.class ≡ value_error
      → IsValueError (if empty? then raised e else if brace? then r else raised e')
  checked-IsValueError true brace? r e e' h k l = k
  checked-IsValueError false true r e e' h k l = h
  checked-IsValueError false false r e e' h k l = l

  parse_text-IsValueError : (s : String) → IsValueError (parse_text codec s)
  unfolding parse_text
  parse_text-IsValueError s =
      let content = strip (unwrap_base64 codec s) in
      checked-IsValueError (is_empty content) (starts_with content "{")
        (parse_json codec (codec.json_loads content)) _ _
        (parse_json-IsValueError (codec.json_loads content)) refl refl

  decoded-IsValueError :
      (o : Option String)
      → IsValueError
          (elim o [ none ↦ raised (exn value_error "invalid utf-8") | some s ↦ parse_text codec s ])
  decoded-IsValueError none = refl
  decoded-IsValueError (some s) = parse_text-IsValueError s

  parse-IsValueError : (raw : Raw) → IsValueError (parse_claim_task_parameters codec raw)
  unfolding parse_claim_task_parameters
  parse-IsValueError missing = refl
  parse-IsValueError (text s) = parse_text-IsValueError s
  parse-IsValueError (bytes bs) = decoded-IsValueError (codec.utf8_decode bs)

  recheck-IsValueError : (r : Outcome String) → IsValueError r → IsValueError (recheck codec r)
  recheck-IsValueError (raised e) h = h
  recheck-IsValueError (returned c) h = ifs (is_empty (strip c))
    where
      ifs :
          (b : Bool)
          → IsValueError (
              if b
              then raised (exn value_error "claim_process_id is empty")
              else returned (strip c))
      ifs true = refl
      ifs false = tt

  error_class :
      (r : Outcome String) (e : Exn) → IsValueError r → r ≡ raised e → e.class ≡ value_error
  error_class (returned c) e h k = cc
  error_class (raised x) e h k = ground (arith, h)

  -- A payload that is refused is refused by a ValueError.
  pub build_task_param-error :
      (raw : Raw) (e : Exn) → build_task_param codec raw ≡ raised e → e.class ≡ value_error
  unfolding build_task_param
  build_task_param-error raw e =
      error_class _ e
        (recheck-IsValueError (parse_claim_task_parameters codec raw) (parse-IsValueError raw))

  -- A payload that the queue has wrapped in base64, and one given as bytes, are read as the text
  -- itself, if the text is not base64 again.
  pub wrapped_as_plain :
      (wrapped plain : String) (raw : List ℕ)
      → codec.b64decode wrapped ≡ some raw
      → codec.utf8_decode raw ≡ some plain
      → codec.b64decode plain ≡ none
      → (build_task_param codec (text wrapped) ≡ build_task_param codec (text plain))
        × (build_task_param codec (bytes raw) ≡ build_task_param codec (text plain))
  unfolding build_task_param
  wrapped_as_plain wrapped plain raw d u n = (ground arith, ground arith)

  -- A JSON object is read as the text under its key, without the white space at its ends, unless
  -- nothing is left of it.
  pub build-object :
      (plain : String) (fs : Fields) (id : String)
      → codec.b64decode plain ≡ none
      → starts_with (strip plain) "{" ≡ true
      → codec.json_loads (strip plain) ≡ some (object fs)
      → field_get fs "claim_process_id" ≡ some (string id)
      → is_empty (strip id) ≡ false
      → build_task_param codec (text plain) ≡ returned (strip id)
  unfolding build_task_param
  build-object plain fs id n b j f e =
      ground (arith, starts_with-empty (strip plain), is_empty-strip id, strip_by_idem is_space id)
