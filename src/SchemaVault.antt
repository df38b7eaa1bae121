-- ===== src/SchemaVault.antt =====
-- The schemas and the schema sets of src/ContentProcessorAPI/app/routers/logics, and the collections
-- of the database and the blobs that they are kept in.
pub mod Schemas
pub mod Sets
pub mod Shelf
pub mod Refine
pub mod Listing
mod Tests
use claimsintelligence.Base.{
  ℕ, String, ◌≡◌, Bool, true, false, Option, none, some, List, [], ◌∷◌, if◌then◌else◌, ◌==◌,
  string_key,
}
use claimsintelligence.Exec.{Exn, exn, other, Exec, Outcome, returned, raised, pure, raise}

-- Without the times that the schema is given, but for `created_on`.
pub record Schema : Type 0 where
  pub id : String
  pub class_name : String
  pub description : String
  pub file_name : String
  pub content_type : String
  pub created_on : Option String

pub record SchemaMetadata : Type 0 where
  pub id : String
  pub schema_id : String
  pub description : String

pub record SchemaSet : Type 0 where
  pub id : String
  pub name : String
  pub description : String
  pub created_on : String
  pub updated_on : String
  pub schemas : List SchemaMetadata

-- A collection of the database, with the operations on the documents of an `Id` that
-- `CosmosMongDBHelper` hands on to pymongo. The calls of the database succeed.
pub record Collection (Documents D : Type 0) : Type 0 where
  pub find_document : String → Documents → List D
  pub insert_document : D → Documents → Documents
  pub update_document : String → (D → D) → Documents → Documents
  pub delete_document : String → Documents → Documents
  pub deleted_count : String → Documents → ℕ

-- The documents of an `Id`, if there is one at most.
abbrev pub IsSole {ℓ} : {D : Type ℓ} → List D → Type 0
IsSole [] = Unit
IsSole (d ∷ []) = Unit
IsSole (d ∷ e ∷ ds) = ⊥

abbrev pub is_found {ℓ} : {D : Type ℓ} → List D → Bool
is_found [] = false
is_found (d ∷ ds) = true

abbrev pub first {ℓ} : {D : Type ℓ} → List D → Option D
first [] = none
first (d ∷ ds) = some d

-- What the database does, for updates that keep the `Id`.
pub record CollectionLaws {Documents D : Type 0} (c : Collection Documents D) (id_of : D → String)
    : Type 0 where
  pub queried :
      (i : String) (s : Documents) (d : D) → first (c.find_document i s) ≡ some d → id_of d ≡ i
  pub inserted :
      (d : D) (s : Documents)
      → c.find_document (id_of d) s ≡ []
      → c.find_document (id_of d) (c.insert_document d s) ≡ d ∷ []
  pub not_inserted :
      (d : D) (s : Documents) (i : String)
      → (i == id_of d) ≡ false
      → c.find_document i (c.insert_document d s) ≡ c.find_document i s
  pub updated :
      (i : String) (f : D → D) (s : Documents) (d : D)
      → ((e : D) → id_of (f e) ≡ id_of e)
      → c.find_document i s ≡ d ∷ []
      → c.find_document i (c.update_document i f s) ≡ f d ∷ []
  pub not_updated :
      (i j : String) (f : D → D) (s : Documents)
      → ((e : D) → id_of (f e) ≡ id_of e)
      → (j == i) ≡ false
      → c.find_document j (c.update_document i f s) ≡ c.find_document j s
  pub deleted :
      (i : String) (s : Documents)
      → IsSole (c.find_document i s)
      → c.find_document i (c.delete_document i s) ≡ []
  pub not_deleted :
      (i j : String) (s : Documents)
      → (j == i) ≡ false
      → c.find_document j (c.delete_document i s) ≡ c.find_document j s
  pub counted :
      (i : String) (s : Documents)
      → IsSole (c.find_document i s)
      → c.deleted_count i s ≡ (if is_found (c.find_document i s) then 1 else 0)

-- The calls of the blob storage, with a folder and a name.
pub data BlobCall : Type 0 where
  upload_blob : String → String → String → BlobCall
  download_blob : String → String → BlobCall
  delete_blob_and_cleanup : String → String → BlobCall

-- The collections of the sets, `S`, and of the schemas, `T`, and the calls, the newest first.
pub record Vault (S T : Type 0) : Type 0 where
  pub schemasets : S
  pub schemas : T
  pub calls : List BlobCall

-- The reply, by the calls before.
abbrev pub Env : Type 0
Env = List BlobCall → BlobCall → Outcome String

unfoldable pub perform : {S T : Type 0} → Env → BlobCall → Exec (Vault S T) String
perform env c s = (env s.calls c, record s { calls = c ∷ s.calls })

-- The first document, or the error of that text.
abbrev pub or_raise : {S D : Type 0} → String → List D → Exec S D
or_raise what [] = raise (exn other what)
or_raise what (d ∷ ds) = pure d
