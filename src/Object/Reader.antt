-- ===== src/Object/Reader.antt =====
-- `binaryObjectImpl` of binary_object.go: the header of an object, and its fields by their names.
use mcgv.Base.{ℕ, zero, suc, ◌+◌, ◌-◌, ◌*◌, bit_and, Bool, not, List, [], ◌∷◌}
use mcgv.Base.{
  ◌⊎◌, inl, inr, Option, none, some, Result, ok, err, panic, stuck, ◌>>=◌, leb, ltb, ◌==◌, ◌&&◌,
  if◌then◌else◌,
}
use mcgv.Base.{String, length, take, drop}
use mcgv.Base.Bytes.{of_le}
use mcgv.Stream.Types.{Error}
use mcgv.Stream.In.{new_input_stream}
use mcgv.Marshal.Reader.{unmarshal_string}
use mcgv.Schema.{BinarySchema}
use mcgv.Object.{Marshaller}

-- `binaryObjectImpl`
pub record BinaryObject : Type 0 where
  pub type_id : ℕ
  pub bytes : List ℕ

-- The errors of `getTypeId` and `Field`; that of `getSchema` by a handle.
pub data FieldError : Type 0 where
  corrupted no_schema : FieldError
  schema_failed : ℕ → FieldError
  unmarshal_failed : Error → FieldError

-- `n` bytes at `pos`, as a little-endian number.
abbrev pub word_at : ℕ → ℕ → List ℕ → ℕ
word_at n pos bytes = of_le (take n (drop pos bytes))

abbrev pub is_short : BinaryObject → Bool
is_short b = ltb (length b.bytes) 24

unfoldable pub flags_of : BinaryObject → ℕ
unfolding of_le
flags_of b = if is_short b then 0 else word_at 2 2 b.bytes

unfoldable pub schema_id_of : BinaryObject → ℕ
unfolding of_le
schema_id_of b = if is_short b then 0 else word_at 4 16 b.bytes

-- `HashCode`
unfoldable pub object_hash_code : BinaryObject → ℕ
unfolding of_le
object_hash_code b = if is_short b then 0 else word_at 4 8 b.bytes

abbrev pub has_flag : ℕ → ℕ → Bool
has_flag flags flag = bit_and flags flag == flag

-- `bytes[low:high]`, for bytes up to the capacity.
abbrev pub sub_slice : List ℕ → ℕ → ℕ → Result FieldError (List ℕ)
sub_slice bytes low high =
    if leb low high && leb high (length bytes)
    then ok (take (high - low) (drop low bytes))
    else panic

-- `footer`: its bytes up to its capacity, which reaches to the end of the data and is more than its
-- length if the object has raw data; its length; and the size of an offset. A start past the end makes
-- the length negative, and the slice panics. The data has no capacity beyond its length here.
unfoldable pub footer_of : BinaryObject → Result FieldError (List ℕ × ℕ × ℕ)
unfolding flags_of of_le
footer_of b =
    let flags = flags_of b in
    let size = if has_flag flags 8 then 1 else if has_flag flags 16 then 2 else 4 in
    let start = word_at 4 20 b.bytes in
    let raw = if has_flag flags 4 then 4 else 0 in
    if is_short b
    then ok ([], 0, 0)
    else if not (has_flag flags 2)
    then ok ([], 0, 0)
    else if leb (start + raw) (length b.bytes)
    then ok (drop start b.bytes, length b.bytes - raw - start, size)
    else panic

-- The loop of `Field` over the ids of a schema: the last index that has the id.
unfoldable pub last_index : ℕ → List ℕ → ℕ → Option ℕ → Option ℕ
last_index id [] idx found = found
last_index id (i ∷ ids) idx found =
    last_index id ids (suc idx) (if i == id then some idx else found)

-- The index of a field in the schema that `getSchema` finds, times the size of an offset.
abbrev pub place_in_schema : ℕ → ℕ → FieldError ⊎ Option BinarySchema → Result FieldError (Option ℕ)
place_in_schema field_id size (inl e) = err e
place_in_schema field_id size (inr none) = err no_schema
place_in_schema field_id size (inr (some schema)) =
    elim (last_index field_id schema.field_ids 0 none) [
      | none ↦ ok none
      | some idx ↦ ok (some (idx * size))
    ]

-- The loop of `Field` over a footer with ids of a length, from `pos` on: where the offset of the field
-- stands. Each round takes one of the fuel.
unfoldable pub find_entry : ℕ → ℕ → List ℕ → ℕ → ℕ → ℕ → Result FieldError (Option ℕ)
unfolding of_le
find_entry zero len footer size id pos = stuck
find_entry (suc fuel) len footer size id pos =
    let rest = find_entry fuel len footer size id (pos + 4 + size) in
    if not (ltb pos len)
    then ok none
    else (sub_slice footer pos (pos + 4) >>= λ w.
        if of_le w == id then ok (some (pos + 4)) else rest)

module _ (marsh : Marshaller) where
  open marsh use {Value, unmarshal_value, type_id_of, field_id_of}

  -- `getTypeId`: a type that is not registered is known by its name. The id that it keeps in the object
  -- is the one that it finds again.
  unfoldable pub get_type_id : BinaryObject → Result FieldError ℕ
  unfolding of_le unmarshal_string new_input_stream
  get_type_id b =
      let raw = word_at 4 4 b.bytes in
      let named : Result FieldError ℕ = elim (unmarshal_string (new_input_stream b.bytes 24)) [
        | ok (name, s) ↦ ok (type_id_of name)
        | err e ↦ err corrupted
        | panic ↦ panic
        | stuck ↦ stuck
      ] in
      if is_short b
      then err corrupted
      else if not (b.type_id == 0)
      then ok b.type_id
      else if raw == 0
      then named
      else ok raw

  -- Where the offset of the field with an id stands in the footer. `schemas` is `getSchema`, which is
  -- asked if the footer has no ids.
  unfoldable pub find_field :
      (ℕ → ℕ → FieldError ⊎ Option BinarySchema)
      → BinaryObject
      → ℕ
      → ℕ
      → List ℕ
      → ℕ
      → ℕ
      → Result FieldError (Option ℕ)
  unfolding flags_of schema_id_of last_index find_entry
  find_field schemas b type_id field_id footer len size =
      let by_schema = place_in_schema field_id size (schemas type_id (schema_id_of b)) in
      let by_id = find_entry (suc len) len footer size field_id 0 in
      if has_flag (flags_of b) 32 then by_schema else by_id

  -- The value of a field at its offset in the object.
  unfoldable pub read_value : BinaryObject → ℕ → Result FieldError (Option Value)
  unfolding new_input_stream
  read_value b offset = elim (unmarshal_value (new_input_stream b.bytes offset)) [
    | ok (v, s) ↦ ok (some v)
    | err e ↦ err (unmarshal_failed e)
    | panic ↦ panic
    | stuck ↦ stuck
  ]

  -- The offset, then the value. One byte is an index into the footer, more are a slice of it.
  unfoldable pub field_at :
      BinaryObject → List ℕ → ℕ → ℕ → Option ℕ → Result FieldError (Option Value)
  unfolding read_value of_le
  field_at b footer len size none = ok none
  field_at b footer len size (some idx) =
      if size == 1 && not (ltb idx len)
      then panic
      else (sub_slice footer idx (idx + size) >>= λ w. read_value b (of_le w))

  -- `Field`: none for a field that the object has not.
  unfoldable pub field_of :
      (ℕ → ℕ → FieldError ⊎ Option BinarySchema)
      → BinaryObject
      → String
      → Result FieldError (Option Value)
  unfolding flags_of get_type_id footer_of find_field field_at
  field_of schemas b name =
      let found = get_type_id b >>= λ type_id. footer_of b >>= λ (footer, len, size).
      find_field schemas b type_id (field_id_of type_id name) footer len size >>= λ idx.
      field_at b footer len size idx in
      if not (has_flag (flags_of b) 2) then ok none else found
