-- ===== src/Marshal/RoundTrip.antt =====
-- `unmarshal` after `marshal` (marshaller.go).
use mcgv.Base.{ℕ, zero, suc, ◌+◌, ◌-◌, ◌*◌, ◌%◌, ◌^◌, ◌≤◌, ◌<◌, ◌≡◌, refl, sym, ap, ◌∙◌}
use mcgv.Base.{append-nil}
use mcgv.Base.{List, [], ◌∷◌, ◌++◌, some, length, All, arith, ok, length-append}
use mcgv.Base.Bytes.{le_bytes, length-le_bytes}
use mcgv.Stream.Types.{
  Elem, bools, int8s, uint16s, int16s, uint32s, int32s, uints, ints, uint64s, int64s, float32s,
  float64s, elem_bytes, little,
}
use mcgv.Stream.In.{Read, new_input_stream}
use mcgv.Stream.In.Reads.{
  Reads, bind_Reads, map_Reads, return-Reads, room_Reads, uint8_Reads, uint16_Reads, uint32_Reads,
  uint64_Reads, bool_Reads, slice_Reads, Shows, new-Shows,
}
use mcgv.Stream.Out.Slices.{slice_bytes, length-slice_bytes}
use mathlib.Core.Path.{subst}
use mcgv.Marshal.Types.{
  TypeDesc, byte_type, short_type, int_type, long_type, float_type, double_type, char_type,
  bool_type, string_type, uuid_type, date_type, byte_array_type, short_array_type, int_array_type,
  long_array_type, float_array_type, double_array_type, char_array_type, bool_array_type,
  string_array_type, uuid_array_type, date_array_type, object_array_type, collection_type, map_type,
  time_type, time_array_type, null_type, optimized_marshaller_object_type, code,
}
use mcgv.Marshal.Types.{string, uuid, time, date, strings, uuids, times, dates}
use mcgv.Marshal.Types.{
  Payload, nil, null_of, bool, uint8, int8, uint16, int16, uint32, int32, uint, int, uint64, int64,
  float32, float64, slice, bytes, scalar, typed_array, object_array, collection, map, optimized,
  other,
}
use mcgv.Marshal.Types.{Payloads, end, item, Entries, done, entry, count_items, count_entries}
use mcgv.Marshal.Writer.{int32_of}
use mcgv.Marshal.Encoding.{encode, encode_items, encode_entries}
use mcgv.Marshal.Reader.{
  find_code, supported, read_class, read_array, read_items, read_entries, read_object_array,
  read_collection, read_map, unmarshal_case, unmarshal,
}
use mcgv.Marshal.Encoding.{IsCovered, AreCovered, EntriesCovered}
use mcgv.Marshal.Writer.{marshal}
use mcgv.Marshal.Writes.{marshal-Emits}
use mcgv.Stream.Out.{Out, Write, max_int32, contents, new_output_stream}
use mcgv.Stream.Out.Writes.{new-IsValid, contents-new}
use mcgv.Marshal.Canon.{
  canon, canon_items, canon_entries, depth, depth_items, depth_entries, IsLength, IsInRange,
  ItemsInRange, EntriesInRange,
}
use mcgv.Marshal.Scalars.{length_Reads, byte_array_Reads, scalar_Reads, typed_array_Reads}

-- A primitive array, whose bytes are those of elements of any type of the same width.
array_Reads :
    (el : Elem) (v : ℕ) (vs : List ℕ)
    → IsLength (length (v ∷ vs))
    → All (λ n. n < 256 ^ elem_bytes el) (v ∷ vs)
    → Reads
        (read_array little el)
        (le_bytes 4 (int32_of (length (v ∷ vs))) ++ slice_bytes (elem_bytes el) (v ∷ vs))
        (slice el (v ∷ vs))
unfolding read_array
array_Reads el v vs n h =
    let size = le_bytes 4 (int32_of (length (v ∷ vs))) in
    room_Reads 4 _ _ _
      (omega (
        arith,
        length-append size (slice_bytes (elem_bytes el) (v ∷ vs)),
        length-le_bytes 4 (int32_of (length (v ∷ vs))),
      ))
      (bind_Reads _ (length_Reads (length (v ∷ vs)) n) (
        room_Reads (length (v ∷ vs) * elem_bytes el) _ _ _
          (omega (arith, length-slice_bytes (elem_bytes el) (v ∷ vs)))
          (map_Reads _ (slice el) _ (v ∷ vs) (slice_Reads el v vs h))))

class_Reads : Reads read_class (le_bytes 4 (2 ^ 32 - 1)) (2 ^ 32 - 1, [])
unfolding read_class le_bytes
class_Reads =
    room_Reads 4 _ _ _ (omega (arith, length-le_bytes 4 (2 ^ 32 - 1)))
      (bind_Reads _ (uint32_Reads (2 ^ 32 - 1) (omega arith)) (return-Reads (2 ^ 32 - 1, [])))

byte_slice : (vs : List ℕ) → All (λ n. n < 256 ^ 1) vs → slice_bytes 1 vs ≡ vs
unfolding le_bytes
byte_slice [] h = refl
byte_slice (v ∷ vs) h = let low : v % 256 ≡ v = omega (arith, h.0) in rw (low, byte_slice vs h.1)

depth_positive : (p : Payload) → 1 ≤ depth p
unfolding depth
depth_positive (object_array v) = omega arith
depth_positive _ = omega arith

module _ (read_other : TypeDesc → Read Payload) where
  -- One level of `unmarshal`: the descriptor, then its case.
  level_Reads :
      (t : TypeDesc) (fuel : ℕ) (b : List ℕ) (p : Payload)
      → code t < 256
      → find_code (code t) supported ≡ some t
      → Reads
          (unmarshal_case little read_other (code t) (some t) (unmarshal little read_other fuel))
          b
          p
      → Reads (unmarshal little read_other (suc fuel)) (code t ∷ b) p
  unfolding unmarshal
  level_Reads t fuel b p byte found h =
      room_Reads 1 _ (code t ∷ b) p (omega arith)
        (bind_Reads _ (uint8_Reads (code t) byte) (rw found h))

  mutual
    unfolding encode encode_items encode_entries canon canon_items canon_entries depth depth_items
        depth_entries IsInRange ItemsInRange EntriesInRange unmarshal_case read_items read_entries
        read_object_array read_collection read_map

    reads :
        (p : Payload) (fuel : ℕ)
        → depth p ≤ suc fuel
        → IsInRange p
        → Reads (unmarshal little read_other (suc fuel)) (encode p) (canon p)
    reads nil fuel d h = level_Reads null_type fuel _ _ (omega arith) refl (return-Reads nil)
    reads (null_of k) fuel d h =
        level_Reads null_type fuel _ _ (omega arith) refl (return-Reads nil)
    reads (bool v) fuel d h =
        level_Reads bool_type fuel _ _ (omega arith) refl
          (map_Reads _ bool _ v (room_Reads 1 _ _ v (omega arith) (bool_Reads v)))
    reads (uint8 v) fuel d h =
        level_Reads byte_type fuel _ _ (omega arith) refl
          (map_Reads _ int8 _ v (room_Reads 1 _ _ v (omega arith) (uint8_Reads v h)))
    reads (int8 v) fuel d h =
        level_Reads byte_type fuel _ _ (omega arith) refl
          (map_Reads _ int8 _ v (room_Reads 1 _ _ v (omega arith) (uint8_Reads v h)))
    reads (uint16 v) fuel d h = level_Reads char_type fuel _ _ (omega arith) refl (
        map_Reads _ uint16 _ v
          (room_Reads 2 _ _ v (omega (arith, length-le_bytes 2 v)) (uint16_Reads v h)))
    reads (int16 v) fuel d h = level_Reads short_type fuel _ _ (omega arith) refl (
        map_Reads _ int16 _ v
          (room_Reads 2 _ _ v (omega (arith, length-le_bytes 2 v)) (uint16_Reads v h)))
    reads (uint32 v) fuel d h = level_Reads int_type fuel _ _ (omega arith) refl (
        map_Reads _ int32 _ v
          (room_Reads 4 _ _ v (omega (arith, length-le_bytes 4 v)) (uint32_Reads v h)))
    reads (int32 v) fuel d h = level_Reads int_type fuel _ _ (omega arith) refl (
        map_Reads _ int32 _ v
          (room_Reads 4 _ _ v (omega (arith, length-le_bytes 4 v)) (uint32_Reads v h)))
    reads (uint v) fuel d h = level_Reads long_type fuel _ _ (omega arith) refl (
        map_Reads _ int64 _ v
          (room_Reads 8 _ _ v (omega (arith, length-le_bytes 8 v)) (uint64_Reads v h)))
    reads (int v) fuel d h = level_Reads long_type fuel _ _ (omega arith) refl (
        map_Reads _ int64 _ v
          (room_Reads 8 _ _ v (omega (arith, length-le_bytes 8 v)) (uint64_Reads v h)))
    reads (uint64 v) fuel d h = level_Reads long_type fuel _ _ (omega arith) refl (
        map_Reads _ int64 _ v
          (room_Reads 8 _ _ v (omega (arith, length-le_bytes 8 v)) (uint64_Reads v h)))
    reads (int64 v) fuel d h = level_Reads long_type fuel _ _ (omega arith) refl (
        map_Reads _ int64 _ v
          (room_Reads 8 _ _ v (omega (arith, length-le_bytes 8 v)) (uint64_Reads v h)))
    reads (float32 v) fuel d h = level_Reads float_type fuel _ _ (omega arith) refl (
        map_Reads _ float32 _ v
          (room_Reads 4 _ _ v (omega (arith, length-le_bytes 4 v)) (uint32_Reads v h)))
    reads (float64 v) fuel d h = level_Reads double_type fuel _ _ (omega arith) refl (
        map_Reads _ float64 _ v
          (room_Reads 8 _ _ v (omega (arith, length-le_bytes 8 v)) (uint64_Reads v h)))
    reads (slice el []) fuel d h = absurd (omega arith)
    reads (slice bools (v ∷ vs)) fuel d h =
        level_Reads bool_array_type fuel _ _ (omega arith) refl (array_Reads bools v vs h.1 h.2)
    reads (slice uint16s (v ∷ vs)) fuel d h =
        level_Reads char_array_type fuel _ _ (omega arith) refl (array_Reads uint16s v vs h.1 h.2)
    reads (slice int16s (v ∷ vs)) fuel d h =
        level_Reads short_array_type fuel _ _ (omega arith) refl (array_Reads int16s v vs h.1 h.2)
    reads (slice uint32s (v ∷ vs)) fuel d h =
        level_Reads int_array_type fuel _ _ (omega arith) refl (array_Reads int32s v vs h.1 h.2)
    reads (slice int32s (v ∷ vs)) fuel d h =
        level_Reads int_array_type fuel _ _ (omega arith) refl (array_Reads int32s v vs h.1 h.2)
    reads (slice uints (v ∷ vs)) fuel d h =
        level_Reads long_array_type fuel _ _ (omega arith) refl (array_Reads int64s v vs h.1 h.2)
    reads (slice ints (v ∷ vs)) fuel d h =
        level_Reads long_array_type fuel _ _ (omega arith) refl (array_Reads int64s v vs h.1 h.2)
    reads (slice uint64s (v ∷ vs)) fuel d h =
        level_Reads long_array_type fuel _ _ (omega arith) refl (array_Reads int64s v vs h.1 h.2)
    reads (slice int64s (v ∷ vs)) fuel d h =
        level_Reads long_array_type fuel _ _ (omega arith) refl (array_Reads int64s v vs h.1 h.2)
    reads (slice float32s (v ∷ vs)) fuel d h =
        level_Reads float_array_type fuel _ _ (omega arith) refl (array_Reads float32s v vs h.1 h.2)
    reads (slice float64s (v ∷ vs)) fuel d h =
        level_Reads double_array_type fuel _ _ (omega arith) refl
          (array_Reads float64s v vs h.1 h.2)
    reads (slice int8s (v ∷ vs)) fuel d h =
        subst
          (λ (b : List ℕ).
            Reads (unmarshal little read_other (suc fuel))
              (12 ∷ (le_bytes 4 (int32_of (length (v ∷ vs))) ++ b)) (bytes (v ∷ vs)))
          (sym (byte_slice (v ∷ vs) h.2))
          (level_Reads byte_array_type fuel _ _ (omega arith) refl
            (map_Reads _ bytes _ (v ∷ vs) (byte_array_Reads (v ∷ vs) h.1)))
    reads (bytes v) fuel d h =
        level_Reads byte_array_type fuel _ _ (omega arith) refl
          (map_Reads _ bytes _ v (byte_array_Reads v h))
    reads (scalar (string v)) fuel d h =
        level_Reads string_type fuel _ _ (omega arith) refl
          (map_Reads _ scalar _ _ (scalar_Reads (string v) h))
    reads (scalar (uuid v)) fuel d h =
        level_Reads uuid_type fuel _ _ (omega arith) refl
          (map_Reads _ scalar _ _ (scalar_Reads (uuid v) h))
    reads (scalar (time v)) fuel d h =
        level_Reads time_type fuel _ _ (omega arith) refl
          (map_Reads _ scalar _ _ (scalar_Reads (time v) h))
    reads (scalar (date v)) fuel d h =
        level_Reads date_type fuel _ _ (omega arith) refl
          (map_Reads _ scalar _ _ (scalar_Reads (date v) h))
    reads (typed_array strings v) fuel d h =
        level_Reads string_array_type fuel _ _ (omega arith) refl
          (typed_array_Reads strings v h.0 h.1)
    reads (typed_array uuids v) fuel d h =
        level_Reads uuid_array_type fuel _ _ (omega arith) refl (typed_array_Reads uuids v h.0 h.1)
    reads (typed_array times v) fuel d h =
        level_Reads time_array_type fuel _ _ (omega arith) refl (typed_array_Reads times v h.0 h.1)
    reads (typed_array dates v) fuel d h =
        level_Reads date_array_type fuel _ _ (omega arith) refl (typed_array_Reads dates v h.0 h.1)
    reads (object_array v) fuel d h = level_Reads object_array_type fuel _ _ (omega arith) refl (
        bind_Reads _ class_Reads (
          room_Reads 4 _ _ _
            (omega (
              arith,
              length-append (le_bytes 4 (int32_of (count_items v))) (encode_items v),
              length-le_bytes 4 (int32_of (count_items v)),
            ))
            (bind_Reads _ (length_Reads (count_items v) h.0)
              (map_Reads _ object_array _ _ (items_read v fuel (omega arith) h.1)))))
    reads (collection kind v) fuel d h = level_Reads collection_type fuel _ _ (omega arith) refl (
        room_Reads 4 _ _ _
          (omega (
            arith,
            length-append (le_bytes 4 (int32_of (count_items v))) (kind ∷ encode_items v),
            length-le_bytes 4 (int32_of (count_items v)),
          ))
          (bind_Reads _ (length_Reads (count_items v) h.0) (
            room_Reads 1 _ _ _ (omega arith) (
              bind_Reads _ (uint8_Reads kind h.1)
                (map_Reads _ (collection kind) _ _ (items_read v fuel (omega arith) h.2))))))
    reads (map kind v) fuel d h = level_Reads map_type fuel _ _ (omega arith) refl (
        room_Reads 4 _ _ _
          (omega (
            arith,
            length-append (le_bytes 4 (int32_of (count_entries v))) (kind ∷ encode_entries v),
            length-le_bytes 4 (int32_of (count_entries v)),
          ))
          (bind_Reads _ (length_Reads (count_entries v) h.0) (
            room_Reads 1 _ _ _ (omega arith) (
              bind_Reads _ (uint8_Reads kind h.1)
                (map_Reads _ (map kind) _ _ (entries_read v fuel (omega arith) h.2))))))
    reads (optimized v) fuel d h =
        level_Reads optimized_marshaller_object_type fuel _ _ (omega arith) refl
          (map_Reads _ optimized _ v (byte_array_Reads v h))
    reads (other n) fuel d h = absurd h

    items_read :
        (vs : Payloads) (fuel : ℕ)
        → depth_items vs ≤ fuel
        → ItemsInRange vs
        → Reads
            (read_items (unmarshal little read_other fuel) (count_items vs))
            (encode_items vs)
            (canon_items vs)
    items_read end fuel d h = return-Reads end
    items_read (item v vs) zero d h = absurd (omega (arith, depth_positive v))
    items_read (item v vs) (suc fuel) d h =
        bind_Reads _ (reads v fuel (omega arith) h.0)
          (map_Reads _ (item (canon v)) _ _ (items_read vs (suc fuel) (omega arith) h.1))

    entries_read :
        (es : Entries) (fuel : ℕ)
        → depth_entries es ≤ fuel
        → EntriesInRange es
        → Reads
            (read_entries (unmarshal little read_other fuel) (count_entries es))
            (encode_entries es)
            (canon_entries es)
    entries_read done fuel d h = return-Reads done
    entries_read (entry k v es) zero d h = absurd (omega (arith, depth_positive v))
    entries_read (entry k v es) (suc fuel) d h = bind_Reads _ (reads k fuel (omega arith) h.0) (
        bind_Reads _ (reads v fuel (omega arith) h.1) (
          map_Reads _ (entry (canon k) (canon v)) _ _
            (entries_read es (suc fuel) (omega arith) h.2)))

  -- On a little-endian machine `unmarshal` reads the wire format of a payload in range, whatever follows
  -- it, with fuel for the depth of the payload, and returns the payload with the signed integer types,
  -- and with untyped nulls.
  pub unmarshal-Reads :
      (p : Payload) (fuel : ℕ)
      → depth p ≤ fuel
      → IsInRange p
      → Reads (unmarshal little read_other fuel) (encode p) (canon p)
  unmarshal-Reads p zero d h = absurd (omega (arith, depth_positive p))
  unmarshal-Reads p (suc fuel) d h = reads p fuel d h

mutual
  unfolding IsInRange ItemsInRange EntriesInRange IsCovered AreCovered EntriesCovered

  pub range_covers : (p : Payload) → IsInRange p → IsCovered p
  range_covers (slice el v) h = h.0
  range_covers (object_array v) h = range_covers_items v h.1
  range_covers (collection kind v) h = range_covers_items v h.2
  range_covers (map kind v) h = range_covers_entries v h.2
  range_covers (other n) h = h
  range_covers _ h = tt

  range_covers_items : (vs : Payloads) → ItemsInRange vs → AreCovered vs
  range_covers_items end h = tt
  range_covers_items (item v vs) h = (range_covers v h.0, range_covers_items vs h.1)

  range_covers_entries : (es : Entries) → EntriesInRange es → EntriesCovered es
  range_covers_entries done h = tt
  range_covers_entries (entry k v es) h =
      (range_covers k h.0, range_covers v h.1, range_covers_entries es h.2)

read_whole :
    (read_other : TypeDesc → Read Payload) (p : Payload)
    → IsInRange p
    → unmarshal little read_other (depth p) (new_input_stream (encode p) 0)
      ≡ ok (canon p, new_input_stream (encode p) (length (encode p)))
unfolding new_input_stream
read_whole read_other p h =
    let shows : Shows (new_input_stream (encode p) 0) (encode p ++ []) =
      rw (append-nil (encode p)) (new-Shows (encode p)) in
    (unmarshal-Reads read_other p (depth p) (omega arith) h).result (new_input_stream (encode p) 0)
      [] shows
    ∙ ap (λ (k : ℕ). ok (canon p, record { buffer = encode p; position = k })) (omega arith)

-- On a little-endian machine, a payload in range that fits 2 ^ 31 - 1 bytes is written to a new
-- stream without a panic, and `unmarshal` reads the payload back from the contents, with the signed
-- integer types and untyped nulls, and takes all of them.
pub unmarshal-marshal :
    (write_other : ℕ → Write) (read_other : TypeDesc → Read Payload) (p : Payload) (n : ℕ)
    → IsInRange p
    → length (encode p) ≤ max_int32
    → (s : Out) × (marshal little write_other p (new_output_stream n) ≡ ok s)
      × (unmarshal little read_other (depth p) (new_input_stream (contents s) 0)
          ≡ ok (canon p, new_input_stream (contents s) (length (contents s))))
unmarshal-marshal write_other read_other p n h small =
    let start = new_output_stream n in
    let room : start.position + length (encode p) ≤ max_int32 =
      unfold new_output_stream in omega arith in
    let (s, e, a) =
      (marshal-Emits write_other p (range_covers p h)).fits start (new-IsValid n) room in
    let whole : contents s ≡ encode p =
      a.grown ∙ ap (λ (l : List ℕ). l ++ encode p) (contents-new n) in
    (s, e, rw whole (read_whole read_other p h))
