-- ===== src/Config/EntityCopies.antt =====
-- `Copy` of a query entity and of an index in cache_configuration.go.
use mcgv.Base.{◌≡◌, refl, ap, List, [], ◌∷◌, map, All, String, lookup, string_keys}
use mcgv.Metadata.Wire.Sequences.{HasKeys, lookup-new}
use mcgv.Config.{QueryIndex, QueryEntity, copy_index, copy_entity}

module _ (Value : Type 0) where
  copies_of_indexes : (qs : List QueryIndex) → map (copy_index Value) qs ≡ qs
  unfolding copy_index
  copies_of_indexes [] = refl
  copies_of_indexes (q ∷ qs) = ap (λ l. q ∷ l) (copies_of_indexes qs)

  -- The names, the fields and the indexes are equal, and a field has the same alias.
  pub record SameEntity (q q' : QueryEntity Value) : Type 0 where
    pub key_type_same : q'.key_type ≡ q.key_type
    pub val_type_same : q'.val_type ≡ q.val_type
    pub tbl_name_same : q'.tbl_name ≡ q.tbl_name
    pub key_fld_name_same : q'.key_fld_name ≡ q.key_fld_name
    pub val_fld_name_same : q'.val_fld_name ≡ q.val_fld_name
    pub fields_same : q'.fields ≡ q.fields
    pub alias_same : (k : String) → lookup k q'.aliases ≡ lookup k q.aliases
    pub indexes_same : q'.indexes ≡ q.indexes

  -- As many, and in the same order.
  abbrev pub SameEntities : List (QueryEntity Value) → List (QueryEntity Value) → Type 0
  SameEntities [] [] = Unit
  SameEntities (q ∷ qs) (q' ∷ qs') = SameEntity q q' × SameEntities qs qs'
  SameEntities _ _ = ⊥

  -- No field has two aliases.
  abbrev pub HaveKeys : List (QueryEntity Value) → Type 0
  HaveKeys qs = All (λ q. HasKeys q.aliases) qs

  copy_entity-SameEntity :
      (q : QueryEntity Value) → HasKeys q.aliases → SameEntity q (copy_entity Value q)
  unfolding copy_entity
  copy_entity-SameEntity q h = record {
    key_type_same = refl;
    val_type_same = refl;
    tbl_name_same = refl;
    key_fld_name_same = refl;
    val_fld_name_same = refl;
    fields_same = refl;
    alias_same = λ k. lookup-new k q.aliases h;
    indexes_same = copies_of_indexes q.indexes;
  }

  pub copies-SameEntities :
      (qs : List (QueryEntity Value)) → HaveKeys qs → SameEntities qs (map (copy_entity Value) qs)
  copies-SameEntities [] h = tt
  copies-SameEntities (q ∷ qs) h = (copy_entity-SameEntity q h.0, copies-SameEntities qs h.1)
