-- ===== src/SchemaVault/Schemas.antt =====
-- `Schemas` of schemavault.py. The envelope is the text of its JSON.
use claimsintelligence.Base.{String, some}
use claimsintelligence.Exec.{Exec, pure, gets, modify, ◌>>=◌, ◌>>◌}
use claimsintelligence.SchemaVault.{
  Schema, Collection, Vault, Env, perform, upload_blob, delete_blob_and_cleanup, or_raise,
}

module _ {S T : Type 0} (env : Env) (schemas : Collection T Schema) where
  abbrev pub put_schemas : (T → T) → Exec (Vault S T) (Unit {0})
  put_schemas f = modify λ s. record s { schemas = f s.schemas }

  unfoldable pub add_json : Schema → String → Exec (Vault S T) Schema
  add_json schema body = do
    date ← perform env (upload_blob schema.id schema.file_name body)
    let dated : Schema = record schema { created_on = some date }
    put_schemas (schemas.insert_document dated)
    pure dated

  unfoldable pub delete : String → Exec (Vault S T) Schema
  delete schema_id = do
    docs ← gets λ s. schemas.find_document schema_id s.schemas
    schema_object ← or_raise "Schema not found" docs
    put_schemas (schemas.delete_document schema_id)
    perform env (delete_blob_and_cleanup schema_object.id schema_object.file_name)
    pure schema_object
