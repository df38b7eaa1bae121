-- ===== src/SchemaVault/Refine.antt =====
-- That the sets of schemasetvault.py behave as the shelf says.
use claimsintelligence.Base.{
  String, ◌≡◌, refl, sym, ap, ◌∙◌, Bool, true, false, not, Option, none, some, List, [], ◌∷◌, ◌++◌,
  map, if◌then◌else◌, ◌==◌, string_key, select, Bool-cases, inl, inr, eq_iff,
}
use mathlib.Core.Path.{subst}
use claimsintelligence.Exec.{exn, other, Outcome, returned, raised, ◌>>=◌}
use claimsintelligence.SchemaVault.{
  Schema, SchemaMetadata, SchemaSet, Collection, CollectionLaws, Vault, IsSole, is_found, first,
}
use claimsintelligence.SchemaVault.Sets.{
  add_new, delete_by_id, add_schema_to_set, remove_schema_from_set, set_schemas, metadata_of,
}
use claimsintelligence.SchemaVault.Shelf.{
  Command, create, drop_set, put_in, take_out, Shelf, changed, next, fails, IsFresh, ids, ids_of,
  finished, execute, Shelves, registered,
}

none-found : (l : List SchemaSet) → ids_of l ≡ none → l ≡ []
none-found [] e = refl
none-found (d ∷ ds) e = cc

map-append {ℓ} :
    {A B : Type ℓ} (f : A → B) (xs ys : List A) → map f (xs ++ ys) ≡ map f xs ++ map f ys
map-append f [] ys = refl
map-append f (x ∷ xs) ys = ap (λ l. f x ∷ l) (map-append f xs ys)

if-map {ℓ} :
    {A B : Type ℓ} (f : A → B) (b : Bool) (x y : List A)
    → map f (if b then x else y) ≡ (if b then map f x else map f y)
if-map f true x y = refl
if-map f false x y = refl

select-map {ℓ} :
    {A B : Type ℓ} (f : A → B) (p : B → Bool) (xs : List A)
    → map f (select (λ x. p (f x)) xs) ≡ select p (map f xs)
unfolding select
select-map f p [] = refl
select-map f p (x ∷ xs) =
    if-map f (p (f x)) _ _ ∙ ap (λ l. if p (f x) then f x ∷ l else l) (select-map f p xs)

module _ {S T : Type 0} (sets : Collection S SchemaSet) (schemas : Collection T Schema)
    (laws : CollectionLaws sets (λ d. d.id))
    (schema_laws : CollectionLaws schemas (λ d. d.id)) where
  insert-Shelves :
      (d : SchemaSet) (s : Vault S T) (v : Shelf)
      → v d.id ≡ none
      → Shelves sets schemas s v
      → Shelves sets schemas
          (record s { schemasets = sets.insert_document d s.schemasets })
          (λ j. if j == d.id then some (ids d) else v j)
  insert-Shelves d s v free h j = elim (Bool-cases (j == d.id)) [
    | inl e ↦
        rw (e, (eq_iff j d.id).0 e, laws.inserted d s.schemasets (none-found _ ((h d.id).1 ∙ free)))
          (tt, refl)
    | inr e ↦ rw (e, laws.not_inserted d s.schemasets j e) (h j)
  ]

  delete-Shelves :
      (i : String) (s : Vault S T) (v : Shelf)
      → Shelves sets schemas s v
      → Shelves sets schemas
          (record s { schemasets = sets.delete_document i s.schemasets })
          (λ j. if j == i then none else v j)
  delete-Shelves i s v h j = elim (Bool-cases (j == i)) [
    | inl e ↦ rw (e, (eq_iff j i).0 e, laws.deleted i s.schemasets (h i).0) (tt, refl)
    | inr e ↦ rw (e, laws.not_deleted i j s.schemasets e) (h j)
  ]

  update-Shelves :
      (i : String) (f : SchemaSet → SchemaSet) (g : List String → List String) (d : SchemaSet)
      (s : Vault S T) (v : Shelf)
      → ((e : SchemaSet) → (f e).id ≡ e.id)
      → ids (f d) ≡ g (ids d)
      → sets.find_document i s.schemasets ≡ d ∷ []
      → Shelves sets schemas s v
      → Shelves sets schemas
          (record s { schemasets = sets.update_document i f s.schemasets })
          (changed i g v)
  update-Shelves i f g d s v keeps e found h j = elim (Bool-cases (j == i)) [
    | inl same ↦
        rw
          (
            same,
            (eq_iff j i).0 same,
            laws.updated i f s.schemasets d keeps found,
            sym (h i).1 ∙ ap ids_of found,
          )
          (tt, ap some e)
    | inr differs ↦ rw (differs, laws.not_updated i j f s.schemasets keeps differs) (h j)
  ]

  missed-Shelves :
      (i : String) (g : List String → List String) (s : Vault S T) (v : Shelf)
      → sets.find_document i s.schemasets ≡ []
      → Shelves sets schemas s v
      → Shelves sets schemas s (changed i g v)
  missed-Shelves i g s v e h j = elim (Bool-cases (j == i)) [
    | inl same ↦ rw (same, (eq_iff j i).0 same, e, sym (h i).1 ∙ ap ids_of e) (tt, refl)
    | inr differs ↦ rw differs (h j)
  ]

  -- From `s` to what a command gives, as the shelf says.
  abbrev Does : Command → Vault S T → Shelf → Option String × Vault S T → Type 0
  Does c s v x =
      Shelves sets schemas x.1 (next (registered sets schemas s) c v)
      × (x.0 ≡ fails (registered sets schemas s) c v)

  -- By the set that is found.
  take_out_none :
      (now i schema : String) (s : Vault S T)
      → sets.find_document i s.schemasets ≡ []
      → remove_schema_from_set sets schemas now i schema s
        ≡ (raised (exn other "Schema Set not found"), s)
  unfolding remove_schema_from_set ◌>>=◌
  take_out_none now i schema s e = rw e refl

  abbrev pub saved :
      String → String → List SchemaMetadata → SchemaSet → Vault S T → Outcome SchemaSet × Vault S T
  saved now i l d s = (
    returned (set_schemas l now d),
    record s { schemasets = sets.update_document i (set_schemas l now) s.schemasets },
  )

  abbrev without_schema : String → SchemaSet → List SchemaMetadata
  without_schema schema d = select (λ m. not (m.schema_id == schema)) d.schemas

  take_out_some :
      (now i schema : String) (d : SchemaSet) (s : Vault S T)
      → sets.find_document i s.schemasets ≡ d ∷ []
      → remove_schema_from_set sets schemas now i schema s
        ≡ saved now i (without_schema schema d) d s
  unfolding remove_schema_from_set ◌>>=◌
  take_out_some now i schema d s e = rw e refl

  pub put_in_none :
      (new_id now i schema : String) (s : Vault S T)
      → sets.find_document i s.schemasets ≡ []
      → add_schema_to_set sets schemas new_id now i schema s
        ≡ (raised (exn other "Schema Set not found"), s)
  unfolding add_schema_to_set ◌>>=◌
  put_in_none new_id now i schema s e = rw e refl

  put_in_unknown :
      (new_id now i schema : String) (d : SchemaSet) (s : Vault S T)
      → sets.find_document i s.schemasets ≡ d ∷ []
      → schemas.find_document schema s.schemas ≡ []
      → add_schema_to_set sets schemas new_id now i schema s
        ≡ (raised (exn other "Schema not found"), s)
  unfolding add_schema_to_set ◌>>=◌
  put_in_unknown new_id now i schema d s e k = rw (e, k) refl

  pub put_in_some :
      (new_id now i schema : String) (d : SchemaSet) (o : Schema) (os : List Schema) (s : Vault S T)
      → sets.find_document i s.schemasets ≡ d ∷ []
      → schemas.find_document schema s.schemas ≡ o ∷ os
      → add_schema_to_set sets schemas new_id now i schema s
        ≡ saved now i (d.schemas ++ metadata_of new_id o ∷ []) d s
  unfolding add_schema_to_set ◌>>=◌
  put_in_some new_id now i schema d o os s e k = rw (e, k) refl

  take_out-Does :
      (now i schema : String) (s : Vault S T) (v : Shelf)
      → Shelves sets schemas s v
      → Does (take_out now i schema) s v (execute sets schemas (take_out now i schema) s)
  take_out-Does now i schema s v h = go (sets.find_document i s.schemasets) refl
    where
      c : Command
      c = take_out now i schema

      go :
          (l : List SchemaSet)
          → sets.find_document i s.schemasets ≡ l
          → Does c s v (execute sets schemas c s)
      go [] e =
          subst (λ x. Does c s v (finished sets schemas x)) (sym (take_out_none now i schema s e))
            (
              missed-Shelves i (select λ k. not (k == schema)) s v e h,
              rw (sym (h i).1 ∙ ap ids_of e) refl,
            )
      go (d ∷ []) e =
          subst (λ x. Does c s v (finished sets schemas x)) (sym (take_out_some now i schema d s e))
            (
              update-Shelves i (set_schemas (without_schema schema d) now)
                  (select λ k. not (k == schema)) d s v (λ x. refl)
                  (select-map (λ m. m.schema_id) (λ k. not (k == schema)) d.schemas) e h,
              rw (sym (h i).1 ∙ ap ids_of e) refl,
            )
      go (d ∷ d' ∷ ds) e = absurd (subst IsSole e (h i).0)

  put_in-Does :
      (new_id now i schema : String) (s : Vault S T) (v : Shelf)
      → Shelves sets schemas s v
      → Does (put_in new_id now i schema) s v (execute sets schemas (put_in new_id now i schema) s)
  put_in-Does new_id now i schema s v h =
      go (sets.find_document i s.schemasets) (schemas.find_document schema s.schemas) refl refl
    where
      c : Command
      c = put_in new_id now i schema

      go :
          (l : List SchemaSet) (k : List Schema)
          → sets.find_document i s.schemasets ≡ l
          → schemas.find_document schema s.schemas ≡ k
          → Does c s v (execute sets schemas c s)
      go [] k e f =
          subst (λ x. Does c s v (finished sets schemas x))
            (sym (put_in_none new_id now i schema s e))
            (
              either (is_found (schemas.find_document schema s.schemas)),
              rw (sym (h i).1 ∙ ap ids_of e) refl,
            )
        where
          either :
              (b : Bool)
              → Shelves sets schemas s (if b then changed i (λ l. l ++ schema ∷ []) v else v)
          either true = missed-Shelves i (λ l. l ++ schema ∷ []) s v e h
          either false = h
      go (d ∷ []) [] e f =
          subst (λ x. Does c s v (finished sets schemas x))
            (sym (put_in_unknown new_id now i schema d s e f))
            (rw f h, rw (sym (h i).1 ∙ ap ids_of e, f) refl)
      go (d ∷ []) (o ∷ os) e f =
          subst (λ x. Does c s v (finished sets schemas x))
            (sym (put_in_some new_id now i schema d o os s e f))
            (
              rw f (
                  update-Shelves i (set_schemas (d.schemas ++ metadata_of new_id o ∷ []) now)
                    (λ l. l ++ schema ∷ []) d s v (λ x. refl)
                    (map-append (λ m. m.schema_id) d.schemas (metadata_of new_id o ∷ [])
                      ∙ ap (λ k. ids d ++ k ∷ [])
                          (schema_laws.queried schema s.schemas o (ap first f)))
                    e h),
              rw (sym (h i).1 ∙ ap ids_of e, f) refl,
            )
      go (d ∷ d' ∷ ds) k e f = absurd (subst IsSole e (h i).0)

  -- Where the vault has the sets of a shelf, each once, and the id of a new set is not taken:
  -- after any command it has those of the shelf that the command gives, each once, and the command
  -- raises what is said of it, or nothing.
  pub execute-Shelves :
      (c : Command) (s : Vault S T) (v : Shelf)
      → IsFresh c v
      → Shelves sets schemas s v
      → Shelves sets schemas (execute sets schemas c s).1 (next (registered sets schemas s) c v)
        × ((execute sets schemas c s).0 ≡ fails (registered sets schemas s) c v)
  unfolding add_new delete_by_id ◌>>=◌
  execute-Shelves (create i now name description) s v f h = (insert-Shelves _ s v f h, refl)
  execute-Shelves (drop_set i) s v f h = (delete-Shelves i s v h, refl)
  execute-Shelves (put_in new_id now i schema) s v f h = put_in-Does new_id now i schema s v h
  execute-Shelves (take_out now i schema) s v f h = take_out-Does now i schema s v h
