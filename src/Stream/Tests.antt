-- ===== src/Stream/Tests.antt =====
-- Runs of buffer.go, and the theorems at concrete inputs.
use mcgv.Base.{ℕ, ◌+◌, ◌≡◌, refl, arith, List, [], ◌∷◌, ok, length}
use mcgv.Base.Bytes.{le_bytes}
use mcgv.Stream.Types.{uint16s, int32s, is_little_endian, little, big}
use mcgv.Stream.Out.{
  Out, contents, new_output_stream, write_slice, write_primitive_slice_fast, write_each,
}
use mcgv.Stream.Out.Writes.{Emits, new-IsValid}
use mcgv.Stream.Out.Slices.{
  high_first, slice_bytes, write_slice-Emits, write_slice_big_endian, fast-each,
}

endian_test_constant : is_little_endian ≡ mcgv.Base.true
unfolding is_little_endian
endian_test_constant = refl

write_slice-Emits_example :
    Emits (write_slice little int32s (7 ∷ 300 ∷ [])) (slice_bytes 4 (7 ∷ 300 ∷ []))
write_slice-Emits_example = write_slice-Emits int32s 7 (300 ∷ [])

write_slice_big_endian_example : Emits (write_slice big uint16s (258 ∷ [])) (high_first (258 ∷ []))
write_slice_big_endian_example = write_slice_big_endian 258 []

fast-each_example :
    (t : Out) × (u : Out) × (write_primitive_slice_fast little 2
        (258 ∷ 3 ∷ [])
        (new_output_stream 1)
      ≡ ok t)
    × (write_each 2 (258 ∷ 3 ∷ []) (new_output_stream 1) ≡ ok u)
    × (contents t ≡ contents u)
    × (t.position ≡ u.position)
unfolding new_output_stream le_bytes
fast-each_example = fast-each 2 258 (3 ∷ []) (new_output_stream 1) (new-IsValid 1) (omega arith)
