-- ===== src/DocumentProcess.antt =====
-- Parts of steps/document_process/executor/document_process_executor.py: the names that claims are
-- given, the types that documents are said to be of, and, in Tasks, how the documents are processed.
pub mod Naming
pub mod Types
pub mod Tasks
pub mod Lock
pub mod Occupancy
pub mod Progress
pub mod Finished
mod Tests
use claimsintelligence.Base.{
  ℕ, ◌+◌, String, Bool, true, false, Option, none, some, List, [], ◌∷◌, if◌then◌else◌, ◌==◌,
  string_key, nat_key, is_empty, strip, ◌||◌,
}
use claimsintelligence.Dict.{Dict, get, set}

-- The time of the last name, as a number of its digits, and the number of the name within that time.
pub record ClaimNames : Type 0 where
  pub last_ts : Option ℕ
  pub seq : ℕ

abbrev pub is_last : Option ℕ → ℕ → Bool
is_last none ts = false
is_last (some last) ts = ts == last

-- What is done under the lock: the number of a name of that time.
unfoldable pub next_sequence : ℕ → ClaimNames → ℕ × ClaimNames
next_sequence ts s =
    let t : ClaimNames =
      if is_last s.last_ts ts
      then record s { seq = s.seq + 1 }
      else record { last_ts = some ts; seq = 0 } in
    (t.seq, t)

-- The time and the number of each name, for claims of those times.
unfoldable pub generate_names : List ℕ → ClaimNames → List (ℕ × ℕ)
generate_names [] s = []
generate_names (ts ∷ rest) s =
    let (seq, t) = next_sequence ts s in (ts, seq) ∷ generate_names rest t

-- An entry of the sidecar's files: something else, or a dictionary with a name and a category.
pub data Entry : Type 0 where
  no_dictionary : Entry
  file : Option String → Option String → Entry

abbrev pub category_types : Dict String String
category_types =
    ("auto_insurance_claim_form", "claim_form")
    ∷ ("police_report", "police_report")
    ∷ ("repair_estimate", "repair_estimate")
    ∷ ("damage_photo", "damage_photo")
    ∷ []

abbrev pub put_type : String → Option String → Dict String String → Dict String String
put_type file_name none d = d
put_type file_name (some t) d = if is_empty file_name || is_empty t then d else set d file_name t

abbrev pub or_no_text : Option String → String
or_no_text none = ""
or_no_text (some t) = t

-- `normalize` is `lower` and then `replace` of a space by an underscore.
module _ (normalize : String → String) where
  unfoldable pub dsl_document_type : Option String → Option String
  dsl_document_type none = none
  dsl_document_type (some category) =
      if is_empty category then none else get category_types (normalize (strip category))

  unfoldable pub read_types : List Entry → Dict String String → Dict String String
  read_types [] d = d
  read_types (no_dictionary ∷ es) d = read_types es d
  read_types (file file_name category ∷ es) d =
      read_types es (put_type (or_no_text file_name) (dsl_document_type category) d)
