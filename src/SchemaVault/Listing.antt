-- ===== src/SchemaVault/Listing.antt =====
-- What `GetAllSchemasInSet` of schemasetvault.py lists after a schema is put in the set, and after it is
-- deleted.
pub mod Added
use claimsintelligence.Base.{
  ℕ, String, ◌≡◌, refl, sym, ap, ◌∙◌, Bool, true, false, not, Option, none, some, List, [], ◌∷◌,
  ◌++◌, if◌then◌else◌, ◌==◌, string_key, select, Bool-cases, inl, inr, eq_iff,
}
use mathlib.Core.Path.{subst}
use claimsintelligence.Exec.{exn, other, Exec, Outcome, returned, raised, pure, continue, ◌>>=◌}
use claimsintelligence.SchemaVault.{
  Schema, SchemaMetadata, SchemaSet, Collection, CollectionLaws, Vault, IsSole, first, Env, perform,
  delete_blob_and_cleanup,
}
use claimsintelligence.SchemaVault.Sets.{gather, get_all_schemas_in_set}
use claimsintelligence.SchemaVault.Schemas.{delete}

-- The schemas but for that one, if there is a list.
abbrev pub only_others : String → Outcome (List Schema) → Outcome (List Schema)
only_others i (returned l) = returned (select (λ d. not (d.id == i)) l)
only_others i (raised e) = raised e

module _ {S T : Type 0} (sets : Collection S SchemaSet) (schemas : Collection T Schema)
    (laws : CollectionLaws schemas (λ d. d.id)) where
  abbrev is_other : String → Schema → Bool
  is_other i d = not (d.id == i)

  dropped :
      (t : T) (i : String) (ms : List SchemaMetadata) (o : Option Schema)
      → ((d : Schema) → o ≡ some d → (d.id == i) ≡ true)
      → select (is_other i) (gather sets schemas t ms)
        ≡ select
            (is_other i)
            (elim o [ none ↦ gather sets schemas t ms | some d ↦ d ∷ gather sets schemas t ms ])
  unfolding select
  dropped t i ms none h = refl
  dropped t i ms (some d) h = rw (h d refl) refl

  kept :
      (t : T) (i : String) (ms : List SchemaMetadata) (rest : List Schema) (o : Option Schema)
      → ((d : Schema) → o ≡ some d → (d.id == i) ≡ false)
      → rest ≡ select (is_other i) (gather sets schemas t ms)
      → (elim o [ none ↦ rest | some d ↦ d ∷ rest ])
        ≡ select
            (is_other i)
            (elim o [ none ↦ gather sets schemas t ms | some d ↦ d ∷ gather sets schemas t ms ])
  unfolding select
  kept t i ms rest none h e = e
  kept t i ms rest (some d) h e = rw (h d refl) (ap (λ l. d ∷ l) e)

  -- Where `t'` has no schema of that id, and the others of `t`.
  gather_without :
      (i : String) (t t' : T) (ms : List SchemaMetadata)
      → schemas.find_document i t' ≡ []
      → ((j : String) → (j == i) ≡ false → schemas.find_document j t' ≡ schemas.find_document j t)
      → gather sets schemas t' ms ≡ select (is_other i) (gather sets schemas t ms)
  unfolding gather select
  gather_without i t t' [] h k = refl
  gather_without i t t' (m ∷ ms) h k =
      let rest = gather_without i t t' ms h k in
      elim (Bool-cases (m.schema_id == i)) [
        | inl e ↦
            rw (gather, ap (λ k. schemas.find_document k t') ((eq_iff m.schema_id i).0 e) ∙ h)
              (rest
                ∙ dropped t i ms (first (schemas.find_document m.schema_id t)) λ d found.
                  (eq_iff d.id i).1
                    (laws.queried m.schema_id t d found ∙ (eq_iff m.schema_id i).0 e))
        | inr e ↦
            rw (gather, k m.schema_id e)
              (kept t i ms _ (first (schemas.find_document m.schema_id t))
                (λ d found. ap (λ k. k == i) (laws.queried m.schema_id t d found) ∙ e) rest)
      ]

  settled :
      (o : Outcome String) (d : Schema) (t : Vault S T) → (continue o (λ date. pure d) t).1 ≡ t
  unfolding ◌>>=◌
  settled (returned date) d t = refl
  settled (raised e) d t = refl

  delete_state :
      (env : Env) (i : String) (d : Schema) (ds : List Schema) (s : Vault S T)
      → schemas.find_document i s.schemas ≡ d ∷ ds
      → (delete env schemas i s).1 ≡ record s {
        schemas = schemas.delete_document i s.schemas;
        calls = delete_blob_and_cleanup d.id d.file_name ∷ s.calls;
      }
  unfolding delete perform ◌>>=◌
  delete_state env i d ds s e =
      rw e (settled (env s.calls (delete_blob_and_cleanup d.id d.file_name)) d _)

  delete_none :
      (env : Env) (i : String) (s : Vault S T)
      → schemas.find_document i s.schemas ≡ []
      → (delete env schemas i s).1 ≡ s
  unfolding delete ◌>>=◌
  delete_none env i s e = rw e refl

  -- What is listed, by the set that is found.
  abbrev pub listing : List SchemaSet → T → Outcome (List Schema)
  listing [] t = raised (exn other "Schema Set not found")
  listing (d ∷ ds) t = returned (gather sets schemas t d.schemas)

  pub listing_lem :
      (i : String) (s : Vault S T)
      → (get_all_schemas_in_set sets schemas i s).0
        ≡ listing (sets.find_document i s.schemasets) s.schemas
  unfolding get_all_schemas_in_set ◌>>=◌
  listing_lem i s = go (sets.find_document i s.schemasets) refl
    where
      go :
          (l : List SchemaSet)
          → sets.find_document i s.schemasets ≡ l
          → (get_all_schemas_in_set sets schemas i s).0 ≡ listing l s.schemas
      go [] e = rw e refl
      go (d ∷ ds) e = rw e refl

  listing_without :
      (i : String) (t t' : T) (l : List SchemaSet)
      → schemas.find_document i t' ≡ []
      → ((j : String) → (j == i) ≡ false → schemas.find_document j t' ≡ schemas.find_document j t)
      → listing l t' ≡ only_others i (listing l t)
  listing_without i t t' [] h k = refl
  listing_without i t t' (d ∷ ds) h k = ap returned (gather_without i t t' d.schemas h k)

  -- Where there is one schema of an id at most: after it is deleted, whether it was there and whether its
  -- blob could be deleted, each set lists what it listed before, in the same order, without that
  -- schema, or the same error.
  pub listed_after_delete :
      (env : Env) (i set_id : String) (s : Vault S T)
      → IsSole (schemas.find_document i s.schemas)
      → (get_all_schemas_in_set sets schemas set_id (delete env schemas i s).1).0
        ≡ only_others i (get_all_schemas_in_set sets schemas set_id s).0
  listed_after_delete env i set_id s sole = go (schemas.find_document i s.schemas) refl
    where
      from :
          (t : Vault S T)
          → (delete env schemas i s).1 ≡ t
          → t.schemasets ≡ s.schemasets
          → schemas.find_document i t.schemas ≡ []
          → ((j : String)
              → (j == i) ≡ false
              → schemas.find_document j t.schemas ≡ schemas.find_document j s.schemas)
          → (get_all_schemas_in_set sets schemas set_id (delete env schemas i s).1).0
            ≡ only_others i (get_all_schemas_in_set sets schemas set_id s).0
      from t e same h k =
          ap (λ x. (get_all_schemas_in_set sets schemas set_id x).0) e
          ∙ listing_lem set_id t
          ∙ ap (λ x. listing (sets.find_document set_id x) t.schemas) same
          ∙ listing_without i s.schemas t.schemas (sets.find_document set_id s.schemasets) h k
          ∙ ap (only_others i) (sym (listing_lem set_id s))

      go :
          (l : List Schema)
          → schemas.find_document i s.schemas ≡ l
          → (get_all_schemas_in_set sets schemas set_id (delete env schemas i s).1).0
            ≡ only_others i (get_all_schemas_in_set sets schemas set_id s).0
      go [] e = from s (delete_none env i s e) refl e (λ j differs. refl)
      go (d ∷ ds) e =
          from _ (delete_state env i d ds s e) refl (laws.deleted i s.schemas sole)
            (λ j differs. laws.not_deleted i j s.schemas differs)
