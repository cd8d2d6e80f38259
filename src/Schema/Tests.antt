-- ===== src/Schema/Tests.antt =====
-- The theorem on the footer of binary_schema.go at a concrete schema.
use mcgv.Base.{ℕ, ◌≡◌, refl, arith, false, [], ◌∷◌}
use mcgv.Schema.{BinarySchemaBuilder, fnv1_offset_basis, write_footer, footer_size}
use mcgv.Schema.Footer.{footer_bytes, IsLeastSize, ReadBack, write_footer-Emits}
use mcgv.Stream.Out.Writes.{Emits}

-- Two fields, the second after 300 bytes.
abbrev two_fields : BinarySchemaBuilder
two_fields = record { schema_id = fnv1_offset_basis; data_of = (97, 24) ∷ ((98, 300) ∷ []) }

write_footer-Emits_example :
    (size : ℕ) × IsLeastSize 300 size
    × (footer_size two_fields ≡ size)
    × Emits (write_footer two_fields false) (footer_bytes false size two_fields.data_of)
    × ReadBack size two_fields.data_of
write_footer-Emits_example =
    write_footer-Emits two_fields false ((97, 24) ∷ []) 98 300 refl (omega arith, (omega arith, tt))
      (omega arith)
