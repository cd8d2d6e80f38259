-- ===== src/Schema/Built.antt =====
-- A `binarySchemaBuilder` of binary_schema.go to which fields are added.
use mcgv.Base.{
  ℕ, ◌^◌, ◌<◌, ◌≡◌, refl, sym, ◌∙◌, arith, List, [], ◌∷◌, ◌++◌, append_assoc, append-nil,
}
use mcgv.Schema.{BinarySchemaBuilder, new_builder, add_field, update_schema_id}

abbrev pub add_all : BinarySchemaBuilder → List (ℕ × ℕ) → BinarySchemaBuilder
add_all bld [] = bld
add_all bld ((id, offset) ∷ ds) = add_all (add_field bld id offset) ds

pub add_all-last :
    (bld : BinarySchemaBuilder) (ds : List (ℕ × ℕ)) (id offset : ℕ)
    → add_field (add_all bld ds) id offset ≡ add_all bld (ds ++ ((id, offset) ∷ []))
add_all-last bld [] id offset = refl
add_all-last bld ((i, o) ∷ ds) id offset = add_all-last (add_field bld i o) ds id offset

add_all-data :
    (bld : BinarySchemaBuilder) (ds : List (ℕ × ℕ)) → (add_all bld ds).data_of ≡ bld.data_of ++ ds
unfolding add_field
add_all-data bld [] = sym (append-nil bld.data_of)
add_all-data bld ((i, o) ∷ ds) =
    add_all-data (add_field bld i o) ds ∙ append_assoc bld.data_of ((i, o) ∷ []) ds

pub new_data : (ds : List (ℕ × ℕ)) → (add_all new_builder ds).data_of ≡ ds
unfolding new_builder
new_data ds = add_all-data new_builder ds

add_all-small :
    (bld : BinarySchemaBuilder) (ds : List (ℕ × ℕ))
    → bld.schema_id < 2 ^ 32
    → (add_all bld ds).schema_id < 2 ^ 32
unfolding add_field update_schema_id
add_all-small bld [] h = h
add_all-small bld ((i, o) ∷ ds) h = add_all-small (add_field bld i o) ds (omega arith)

pub new_small : (ds : List (ℕ × ℕ)) → (add_all new_builder ds).schema_id < 2 ^ 32
unfolding new_builder
new_small ds = add_all-small new_builder ds (omega arith)
