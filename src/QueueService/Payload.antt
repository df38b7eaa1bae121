-- ===== src/QueueService/Payload.antt =====
-- `parse_claim_task_parameters_from_queue_content` and `_build_task_param` of queue_service.py.
-- The decoders of Python's standard library (`bytes.decode`, `base64.b64decode`, `json.loads`) are
-- taken as arguments: what is stated holds whatever they answer.
use claimsintelligence.Base.{
  ℕ, String, Bool, true, false, not, Option, none, some, List, if◌then◌else◌, ◌==◌, string_key,
  is_empty, strip,
}
use claimsintelligence.Exec.{Outcome, returned, raised, value_error, exn}
use package.text.Mathlib.Text.{starts_with}

-- A number carries whether it is zero, and what `str` prints of it.
mutual
  pub data Json : Type 0 where
    null : Json
    boolean : Bool → Json
    number : Bool → String → Json
    string : String → Json
    array : Items → Json
    object : Fields → Json

  pub data Items : Type 0 where
    nil : Items
    cons : Json → Items → Items

  pub data Fields : Type 0 where
    end : Fields
    field : String → Json → Fields → Fields

-- The value of `QueueMessage.content`.
pub data Raw : Type 0 where
  missing : Raw
  text : String → Raw
  bytes : List ℕ → Raw

-- `none` where the function raises.
pub record Codec : Type 0 where
  pub utf8_decode : List ℕ → Option String
  pub b64decode : String → Option (List ℕ)
  pub json_loads : String → Option Json
  pub repr_json : Json → String
  pub repr_bytes : List ℕ → String

-- data.get(key)
unfoldable pub field_get : Fields → String → Option Json
field_get end k = none
field_get (field j v rest) k = if j == k then some v else field_get rest k

-- bool(value)
abbrev pub is_truthy : Json → Bool
is_truthy null = false
is_truthy (boolean b) = b
is_truthy (number zero? t) = not zero?
is_truthy (string s) = not (is_empty s)
is_truthy (array nil) = false
is_truthy (array (cons x xs)) = true
is_truthy (object end) = false
is_truthy (object (field k v rest)) = true

module _ (codec : Codec) where
  -- str(value)
  abbrev pub str_json : Json → String
  str_json null = "None"
  str_json (boolean true) = "True"
  str_json (boolean false) = "False"
  str_json (number zero? t) = t
  str_json (string s) = s
  str_json (array xs) = codec.repr_json (array xs)
  str_json (object fs) = codec.repr_json (object fs)

  -- The strict base64 decoding replaces the text only where its bytes are UTF-8.
  abbrev redecode : String → Option (List ℕ) → String
  redecode content none = content
  redecode content (some raw) = elim (codec.utf8_decode raw) [ none ↦ content | some t ↦ t ]

  unfoldable pub unwrap_base64 : String → String
  unwrap_base64 content = redecode content (codec.b64decode content)

  -- str(data.get("claim_process_id") or "").strip(), and its test
  abbrev pub claim_id_of : Option Json → Outcome String
  claim_id_of none = raised (exn value_error "Queue JSON must include 'claim_process_id'")
  claim_id_of (some v) =
      let claim_process_id = strip (if is_truthy v then str_json v else "") in
      if is_empty claim_process_id
      then raised (exn value_error "claim_process_id is empty")
      else returned claim_process_id

  abbrev pub parse_json : Option Json → Outcome String
  parse_json none = raised (exn value_error "invalid JSON")
  parse_json (some (object fs)) = claim_id_of (field_get fs "claim_process_id")
  parse_json (some _) = raised (exn value_error "Queue message JSON must be an object")

  unfoldable pub parse_text : String → Outcome String
  unfolding unwrap_base64
  parse_text raw =
      let content = strip (unwrap_base64 raw) in
      if is_empty content
      then raised (exn value_error "Queue message content is empty")
      else if starts_with content "{"
      then parse_json (codec.json_loads content)
      else raised (exn value_error "Queue message must be JSON with 'claim_process_id'")

  unfoldable pub parse_claim_task_parameters : Raw → Outcome String
  unfolding parse_text
  parse_claim_task_parameters missing = raised (exn value_error "Queue message content is empty")
  parse_claim_task_parameters (text s) = parse_text s
  parse_claim_task_parameters (bytes bs) = elim (codec.utf8_decode bs) [
    | none ↦ raised (exn value_error "invalid utf-8")
    | some s ↦ parse_text s
  ]

  abbrev pub recheck : Outcome String → Outcome String
  recheck (raised e) = raised e
  recheck (returned claim_process_id) =
      let batch_id = strip claim_process_id in
      if is_empty batch_id
      then raised (exn value_error "claim_process_id is empty")
      else returned batch_id

  unfoldable pub build_task_param : Raw → Outcome String
  unfolding parse_claim_task_parameters
  build_task_param raw = recheck (parse_claim_task_parameters raw)
