-- ===== src/SchemaVault/Tests.antt =====
-- Collections that are lists of documents, and the theorems applied to them.
use claimsintelligence.Base.{
  String, ◌≡◌, refl, ◌∙◌, Bool, true, false, none, some, List, [], ◌∷◌, if◌then◌else◌, ◌==◌,
  string_key, length, eq_iff, map, arith,
}
use claimsintelligence.Exec.{returned}
use claimsintelligence.SchemaVault.{
  Schema, SchemaSet, Collection, CollectionLaws, Vault, IsSole, is_found, first, Env,
}
use claimsintelligence.SchemaVault.Sets.{get_all_schemas_in_set, add_schema_to_set}
use claimsintelligence.SchemaVault.Schemas.{delete}
use claimsintelligence.SchemaVault.Shelf.{
  Command, put_in, Shelf, next, Shelves, execute, registered, Fits,
}
use claimsintelligence.SchemaVault.Listing.Added.{with_last, listed_after_add}
use claimsintelligence.SchemaVault.Refine.{execute-Shelves}
use claimsintelligence.SchemaVault.Listing.{only_others, listed_after_delete}

module _ {D : Type 0} (id_of : D → String) where
  abbrev has_id : String → D → Bool
  has_id i d = i == id_of d

  abbrev found : String → List D → List D
  found i [] = []
  found i (d ∷ ds) = if has_id i d then d ∷ found i ds else found i ds

  abbrev replaced : String → (D → D) → List D → List D
  replaced i f [] = []
  replaced i f (d ∷ ds) = (if has_id i d then f d else d) ∷ replaced i f ds

  abbrev without : String → List D → List D
  without i [] = []
  without i (d ∷ ds) = if has_id i d then without i ds else d ∷ without i ds

  abbrev list_collection : Collection (List D) D
  list_collection = record {
    find_document = found;
    insert_document = λ d s. d ∷ s;
    update_document = replaced;
    delete_document = without;
    deleted_count = λ i s. length (found i s);
  }

  found_queried : (i : String) (s : List D) (d : D) → first (found i s) ≡ some d → id_of d ≡ i
  found_queried i [] d h = cc
  found_queried i (e ∷ s) d h = ground (arith, eq_iff i (id_of e), found_queried i s d)

  found_inserted : (d : D) (s : List D) → found (id_of d) s ≡ [] → found (id_of d) (d ∷ s) ≡ d ∷ []
  found_inserted d s h = rw ((eq_iff (id_of d) (id_of d)).1 refl, h) refl

  found_other :
      (d : D) (s : List D) (i : String) → (i == id_of d) ≡ false → found i (d ∷ s) ≡ found i s
  found_other d s i h = rw h refl

  found_replaced :
      (i j : String) (f : D → D) (s : List D)
      → ((e : D) → id_of (f e) ≡ id_of e)
      → found j (replaced i f s) ≡ (if j == i then map f (found j s) else found j s)
  found_replaced i j f [] k = ground arith
  found_replaced i j f (d ∷ s) k =
      ground
        (arith, k d, eq_iff i (id_of d), eq_iff j (id_of d), eq_iff j i, found_replaced i j f s k)

  found_without :
      (i j : String) (s : List D) → found j (without i s) ≡ (if j == i then [] else found j s)
  found_without i j [] = ground arith
  found_without i j (d ∷ s) =
      ground (arith, eq_iff i (id_of d), eq_iff j (id_of d), eq_iff j i, found_without i j s)

  count_sole : (l : List D) → IsSole l → length l ≡ (if is_found l then 1 else 0)
  count_sole [] h = refl
  count_sole (d ∷ []) h = refl
  count_sole (d ∷ e ∷ l) h = absurd h

  list_laws : CollectionLaws list_collection id_of
  list_laws = record {
    queried = found_queried;
    inserted = found_inserted;
    not_inserted = found_other;
    updated = λ i f s d keeps e. found_replaced i i f s keeps ∙ rw ((eq_iff i i).1 refl, e) refl;
    not_updated = λ i j f s keeps n. found_replaced i j f s keeps ∙ rw n refl;
    deleted = λ i s sole. found_without i i s ∙ rw ((eq_iff i i).1 refl) refl;
    not_deleted = λ i j s n. found_without i j s ∙ rw n refl;
    counted = λ i s sole. count_sole (found i s) sole;
  }

abbrev set_collection : Collection (List SchemaSet) SchemaSet
set_collection = list_collection λ d. d.id

abbrev schema_collection : Collection (List Schema) Schema
schema_collection = list_collection λ d. d.id

abbrev police_report : Schema
police_report = record {
  id = "s1";
  class_name = "PoliceReport";
  description = "a police report";
  file_name = "police.json";
  content_type = "application/json";
  created_on = none;
}

abbrev receipt : Schema
receipt = record {
  id = "s2";
  class_name = "Receipt";
  description = "a receipt";
  file_name = "receipt.json";
  content_type = "application/json";
  created_on = none;
}

abbrev auto_claim : SchemaSet
auto_claim = record {
  id = "set1";
  name = "Auto Claim";
  description = "";
  created_on = "now";
  updated_on = "now";
  schemas = record { id = "m1"; schema_id = "s1"; description = "a police report" } ∷ [];
}

abbrev vault : Vault (List SchemaSet) (List Schema)
vault = record { schemasets = auto_claim ∷ []; schemas = police_report ∷ receipt ∷ []; calls = [] }

abbrev shelf : Shelf
shelf i = if i == "set1" then some ("s1" ∷ []) else none

vault-Shelves : Shelves set_collection schema_collection vault shelf
vault-Shelves i = go (i == "set1") refl
  where
    go :
        (b : Bool)
        → (i == "set1") ≡ b
        → Fits (set_collection.find_document i (auto_claim ∷ [])) (shelf i)
    go true e = rw e (tt, refl)
    go false e = rw e (tt, refl)

abbrev command : Command
command = put_in "m2" "later" "set1" "s2"

execute-Shelves_example :
    Shelves set_collection schema_collection
      (execute set_collection schema_collection command vault).1
      (next (registered set_collection schema_collection vault) command shelf)
    × ((execute set_collection schema_collection command vault).0 ≡ none)
execute-Shelves_example =
    execute-Shelves set_collection schema_collection (list_laws λ d. d.id) (list_laws λ d. d.id)
      command vault shelf tt vault-Shelves

abbrev replies : Env
replies calls c = returned "now"

listed_after_delete_example :
    (get_all_schemas_in_set set_collection schema_collection "set1"
      (delete replies schema_collection "s1" vault).1).0
    ≡ only_others "s1" (get_all_schemas_in_set set_collection schema_collection "set1" vault).0
listed_after_delete_example =
    listed_after_delete set_collection schema_collection (list_laws λ d. d.id) replies "s1" "set1"
      vault tt

listed_after_add_example :
    (get_all_schemas_in_set set_collection schema_collection "set1"
      (add_schema_to_set set_collection schema_collection "m2" "later" "set1" "s2" vault).1).0
    ≡ with_last receipt (get_all_schemas_in_set set_collection schema_collection "set1" vault).0
listed_after_add_example =
    listed_after_add set_collection schema_collection (list_laws λ d. d.id) (list_laws λ d. d.id)
      "m2" "later" "set1" "s2" vault receipt [] tt refl
