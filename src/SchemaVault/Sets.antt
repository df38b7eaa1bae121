-- ===== src/SchemaVault/Sets.antt =====
-- `SchemaSets` of schemasetvault.py.
use claimsintelligence.Base.{
  String, Bool, not, Option, none, some, List, [], ◌∷◌, ◌++◌, ◌==◌, string_key, select, leb,
}
use claimsintelligence.Exec.{Exec, pure, gets, modify, ◌>>=◌, ◌>>◌}
use claimsintelligence.SchemaVault.{
  Schema, SchemaMetadata, SchemaSet, Collection, Vault, first, or_raise,
}

abbrev pub set_schemas : List SchemaMetadata → String → SchemaSet → SchemaSet
set_schemas l now d = record d { schemas = l; updated_on = now }

abbrev pub metadata_of : String → Schema → SchemaMetadata
metadata_of new_id schema = record {
  id = new_id;
  schema_id = schema.id;
  description = schema.description;
}

-- `new_id` is the text of a uuid4 and `now` the time.
module _ {S T : Type 0} (sets : Collection S SchemaSet) (schemas : Collection T Schema) where
  abbrev pub put_sets : (S → S) → Exec (Vault S T) (Unit {0})
  put_sets f = modify λ s. record s { schemasets = f s.schemasets }

  unfoldable pub add_new : String → String → String → String → Exec (Vault S T) SchemaSet
  add_new new_id now name description = do
    let new_schemaset : SchemaSet = record {
      id = new_id;
      name = name;
      description = description;
      created_on = now;
      updated_on = now;
      schemas = [];
    }
    put_sets (sets.insert_document new_schemaset)
    pure new_schemaset

  unfoldable pub get_by_id : String → Exec (Vault S T) (Option SchemaSet)
  get_by_id i = gets λ s. first (sets.find_document i s.schemasets)

  unfoldable pub delete_by_id : String → Exec (Vault S T) Bool
  delete_by_id i = do
    n ← gets λ s. sets.deleted_count i s.schemasets
    put_sets (sets.delete_document i)
    pure (leb 1 n)

  abbrev pub save_schemas :
      String → List SchemaMetadata → String → SchemaSet → Exec (Vault S T) SchemaSet
  save_schemas i l now schemaset = do
    put_sets (sets.update_document i (set_schemas l now))
    pure (set_schemas l now schemaset)

  unfoldable pub add_schema_to_set : String → String → String → String → Exec (Vault S T) SchemaSet
  add_schema_to_set new_id now schemaset_id schema_id = do
    schemaset_docs ← gets λ s. sets.find_document schemaset_id s.schemasets
    schemaset ← or_raise "Schema Set not found" schemaset_docs
    schema_docs ← gets λ s. schemas.find_document schema_id s.schemas
    schema_object ← or_raise "Schema not found" schema_docs
    save_schemas schemaset_id (schemaset.schemas ++ metadata_of new_id schema_object ∷ []) now
        schemaset

  unfoldable pub remove_schema_from_set : String → String → String → Exec (Vault S T) SchemaSet
  remove_schema_from_set now schemaset_id schema_id = do
    schemaset_docs ← gets λ s. sets.find_document schemaset_id s.schemasets
    schemaset ← or_raise "Schema Set not found" schemaset_docs
    save_schemas schemaset_id (select (λ m. not (m.schema_id == schema_id)) schemaset.schemas) now
        schemaset

  -- The registered schemas among those of the metadata.
  unfoldable pub gather : T → List SchemaMetadata → List Schema
  gather t [] = []
  gather t (m ∷ ms) = elim (first (schemas.find_document m.schema_id t)) [
    | none ↦ gather t ms
    | some d ↦ d ∷ gather t ms
  ]

  unfoldable pub get_all_schemas_in_set : String → Exec (Vault S T) (List Schema)
  get_all_schemas_in_set schemaset_id = do
    schemaset_docs ← gets λ s. sets.find_document schemaset_id s.schemasets
    schemaset ← or_raise "Schema Set not found" schemaset_docs
    gets λ s. gather s.schemas schemaset.schemas
