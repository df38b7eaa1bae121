-- ===== src/SchemaVault/Shelf.antt =====
-- The sets of schemasetvault.py as what they stand for: a list of schema ids by the id of a set.
use claimsintelligence.Base.{
  String, ◌≡◌, Bool, not, Option, none, some, List, [], ◌∷◌, ◌++◌, map, if◌then◌else◌, ◌==◌,
  string_key, select,
}
use claimsintelligence.Exec.{Outcome, returned, raised}
use claimsintelligence.SchemaVault.{Schema, SchemaSet, Collection, Vault, IsSole, is_found}
use claimsintelligence.SchemaVault.Sets.{
  add_new, delete_by_id, add_schema_to_set, remove_schema_from_set,
}

pub data Command : Type 0 where
  create : String → String → String → String → Command
  drop_set : String → Command
  put_in : String → String → String → String → Command
  take_out : String → String → String → Command

abbrev pub Shelf : Type 0
Shelf = String → Option (List String)

abbrev pub changed : String → (List String → List String) → Shelf → Shelf
changed i g v j = if j == i then elim (v j) [ none ↦ none | some l ↦ some (g l) ] else v j

-- What a command does, where `registered` tells which schemas there are.
abbrev pub next : (String → Bool) → Command → Shelf → Shelf
next registered (create i now name description) v = λ j. if j == i then some [] else v j
next registered (drop_set i) v = λ j. if j == i then none else v j
next registered (put_in new_id now i schema) v =
    if registered schema then changed i (λ l. l ++ schema ∷ []) v else v
next registered (take_out now i schema) v = changed i (select λ k. not (k == schema)) v

-- What it raises, if it does.
abbrev pub fails : (String → Bool) → Command → Shelf → Option String
fails registered (put_in new_id now i schema) v = elim (v i) [
  | none ↦ some "Schema Set not found"
  | some l ↦ if registered schema then none else some "Schema not found"
]
fails registered (take_out now i schema) v = elim (v i) [
  | none ↦ some "Schema Set not found"
  | some l ↦ none
]
fails registered _ v = none

-- The id of a new set is not that of another.
abbrev pub IsFresh : Command → Shelf → Type 0
IsFresh (create i now name description) v = v i ≡ none
IsFresh _ v = Unit

abbrev pub ids : SchemaSet → List String
ids d = map (λ m. m.schema_id) d.schemas

abbrev pub ids_of : List SchemaSet → Option (List String)
ids_of [] = none
ids_of (d ∷ ds) = some (ids d)

abbrev pub Fits : List SchemaSet → Option (List String) → Type 0
Fits l o = IsSole l × (ids_of l ≡ o)

abbrev pub error_of {ℓ} : {A : Type ℓ} → Outcome A → Option String
error_of (returned a) = none
error_of (raised e) = some e.message

module _ {S T : Type 0} (sets : Collection S SchemaSet) (schemas : Collection T Schema) where
  abbrev pub finished {ℓ} : {A : Type ℓ} → Outcome A × Vault S T → Option String × Vault S T
  finished (r, s) = (error_of r, s)

  abbrev pub execute : Command → Vault S T → Option String × Vault S T
  execute (create i now name description) s =
      finished (add_new sets schemas i now name description s)
  execute (drop_set i) s = finished (delete_by_id sets schemas i s)
  execute (put_in new_id now i schema) s =
      finished (add_schema_to_set sets schemas new_id now i schema s)
  execute (take_out now i schema) s = finished (remove_schema_from_set sets schemas now i schema s)

  -- The vault has the sets of the shelf, each once.
  abbrev pub Shelves : Vault S T → Shelf → Type 0
  Shelves s v = (i : String) → Fits (sets.find_document i s.schemasets) (v i)

  abbrev pub registered : Vault S T → String → Bool
  registered s i = is_found (schemas.find_document i s.schemas)
