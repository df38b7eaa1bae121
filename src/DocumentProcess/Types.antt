-- ===== src/DocumentProcess/Types.antt =====
-- Which type the sidecar of document_process_executor.py gives a document.
use claimsintelligence.Base.{
  String, ◌≡◌, refl, ap, ◌∙◌, Bool, true, false, ◌||◌, Option, none, some, List, [], ◌∷◌,
  if◌then◌else◌, ◌==◌, string_key, is_empty,
}
use claimsintelligence.Dict.{Dict, get, set, get-set}
use claimsintelligence.DocumentProcess.{
  Entry, no_dictionary, file, dsl_document_type, put_type, or_no_text, read_types,
}

module _ (normalize : String → String) where
  -- The type that an entry gives to the file of that name, if it does.
  abbrev pub named_type : String → String → Option String → Option String
  named_type name file_name none = none
  named_type name file_name (some t) =
      if is_empty file_name || is_empty t then none else if file_name == name then some t else none

  abbrev pub entry_type : String → Entry → Option String
  entry_type name no_dictionary = none
  entry_type name (file file_name category) =
      named_type name (or_no_text file_name) (dsl_document_type normalize category)

  abbrev pub or_else : Option String → Option String → Option String
  or_else (some t) o = some t
  or_else none o = o

  -- That of the last entry that gives one, or what was given before.
  abbrev pub last_type : String → List Entry → Option String → Option String
  last_type name [] o = o
  last_type name (e ∷ es) o = last_type name es (or_else (entry_type name e) o)

  put-type :
      (name file_name : String) (t : Option String) (d : Dict String String)
      → get (put_type file_name t d) name ≡ or_else (named_type name file_name t) (get d name)
  put-type name file_name none d = refl
  put-type name file_name (some t) d = of_empty (is_empty file_name || is_empty t)
    where
      of_same :
          (b : Bool)
          → (if b then some t else get d name) ≡ or_else (if b then some t else none) (get d name)
      of_same true = refl
      of_same false = refl

      of_empty :
          (b : Bool)
          → get (if b then d else set d file_name t) name
            ≡ or_else (if b then none else if file_name == name then some t else none) (get d name)
      of_empty true = refl
      of_empty false = get-set d file_name name t ∙ of_same (file_name == name)

  -- The type of a document is that of the last entry that has its name and a category that is known, or what it
  -- was before the entries.
  pub get-read_types :
      (name : String) (es : List Entry) (d : Dict String String)
      → get (read_types normalize es d) name ≡ last_type name es (get d name)
  unfolding read_types
  get-read_types name [] d = refl
  get-read_types name (no_dictionary ∷ es) d = get-read_types name es d
  get-read_types name (file file_name category ∷ es) d =
      get-read_types name es _
      ∙ ap (last_type name es)
          (put-type name (or_no_text file_name) (dsl_document_type normalize category) d)
