-- ===== src/SchemaVault/Listing/Added.antt =====
-- That `GetAllSchemasInSet` lists a schema that `AddSchemaToSet` of schemasetvault.py has put in the set.
use claimsintelligence.Base.{
  String, ◌≡◌, refl, sym, ap, ◌∙◌, Option, none, some, List, [], ◌∷◌, ◌++◌,
}
use mathlib.Core.Path.{subst}
use claimsintelligence.Exec.{Outcome, returned, raised}
use claimsintelligence.SchemaVault.{
  Schema, SchemaMetadata, SchemaSet, Collection, CollectionLaws, Vault, IsSole, first,
}
use claimsintelligence.SchemaVault.Sets.{
  gather, get_all_schemas_in_set, add_schema_to_set, set_schemas, metadata_of,
}
use claimsintelligence.SchemaVault.Refine.{put_in_none, put_in_some, saved}
use claimsintelligence.SchemaVault.Listing.{listing, listing_lem}

-- The schemas and one more, if there is a list.
abbrev pub with_last : Schema → Outcome (List Schema) → Outcome (List Schema)
with_last o (returned l) = returned (l ++ o ∷ [])
with_last o (raised e) = raised e

module _ {S T : Type 0} (sets : Collection S SchemaSet) (schemas : Collection T Schema)
    (set_laws : CollectionLaws sets (λ d. d.id)) (laws : CollectionLaws schemas (λ d. d.id)) where
  after_first :
      (ms : List Schema) (o : Option Schema) (os : List Schema)
      → (elim o [ none ↦ ms ++ os | some d ↦ d ∷ (ms ++ os) ])
        ≡ (elim o [ none ↦ ms | some d ↦ d ∷ ms ]) ++ os
  after_first ms none os = refl
  after_first ms (some d) os = refl

  gather-append :
      (t : T) (ms : List SchemaMetadata) (m : SchemaMetadata) (o : Schema)
      → first (schemas.find_document m.schema_id t) ≡ some o
      → gather sets schemas t (ms ++ m ∷ []) ≡ gather sets schemas t ms ++ o ∷ []
  unfolding gather
  gather-append t [] m o e = rw (gather, e) refl
  gather-append t (n ∷ ms) m o e =
      ap
        (λ l. elim (first (schemas.find_document n.schema_id t)) as (λ x. List Schema) [
          | none ↦ l
          | some d ↦ d ∷ l
        ])
        (gather-append t ms m o e)
      ∙ (after_first (gather sets schemas t ms) (first (schemas.find_document n.schema_id t))
          (o ∷ []))

  -- Where there is one set of an id at most, and a schema is registered: after it is put in the set, the
  -- set lists what it listed before and then the schema, or the same error.
  pub listed_after_add :
      (new_id now set_id schema_id : String) (s : Vault S T) (o : Schema) (os : List Schema)
      → IsSole (sets.find_document set_id s.schemasets)
      → schemas.find_document schema_id s.schemas ≡ o ∷ os
      → (get_all_schemas_in_set sets schemas set_id
          (add_schema_to_set sets schemas new_id now set_id schema_id s).1).0
        ≡ with_last o (get_all_schemas_in_set sets schemas set_id s).0
  listed_after_add new_id now set_id schema_id s o os sole found =
      go (sets.find_document set_id s.schemasets) refl
    where
      go :
          (l : List SchemaSet)
          → sets.find_document set_id s.schemasets ≡ l
          → (get_all_schemas_in_set sets schemas set_id
              (add_schema_to_set sets schemas new_id now set_id schema_id s).1).0
            ≡ with_last o (get_all_schemas_in_set sets schemas set_id s).0
      go [] e =
          ap (λ x. (get_all_schemas_in_set sets schemas set_id x.1).0)
            (put_in_none sets schemas set_laws laws new_id now set_id schema_id s e)
          ∙ listing_lem sets schemas laws set_id s
          ∙ ap (λ x. listing sets schemas laws x s.schemas) e
          ∙ ap (λ x. with_last o (listing sets schemas laws x s.schemas)) (sym e)
          ∙ ap (with_last o) (sym (listing_lem sets schemas laws set_id s))
      go (d ∷ []) e =
          let l = d.schemas ++ metadata_of new_id o ∷ [] in
          let t = (saved sets schemas set_laws laws now set_id l d s).1 in
          ap (λ x. (get_all_schemas_in_set sets schemas set_id x.1).0)
            (put_in_some sets schemas set_laws laws new_id now set_id schema_id d o os s e found)
          ∙ listing_lem sets schemas laws set_id t
          ∙ ap (λ x. listing sets schemas laws x s.schemas)
              (set_laws.updated set_id (set_schemas l now) s.schemasets d (λ x. refl) e)
          ∙ ap returned (
              gather-append s.schemas d.schemas (metadata_of new_id o) o (
                ap (λ k. first (schemas.find_document k s.schemas))
                  (laws.queried schema_id s.schemas o (ap first found))
                ∙ ap first found))
          ∙ ap (λ x. with_last o (listing sets schemas laws x s.schemas)) (sym e)
          ∙ ap (with_last o) (sym (listing_lem sets schemas laws set_id s))
      go (d ∷ d' ∷ ds) e = absurd (subst IsSole e sole)
