-- ===== src/Object/Tests.antt =====
-- The theorems on binary_object.go at concrete objects.
use mcgv.Base.{
  ◌⊎◌, inr, ℕ, ◌+◌, ◌≤◌, ◌≡◌, refl, arith, Bool, true, [], ◌∷◌, Option, none, some, ok, panic,
  length, drop, String,
}
use mcgv.Base.Bytes.{le_bytes}
use mcgv.Hash.{hash_code}
use mcgv.Stream.Out.{Out, Write, contents, max_int32, new_output_stream}
use mcgv.Stream.Out.Writes.{new-IsValid}
use mcgv.Stream.In.{Read}
use mcgv.Marshal.Types.{TypeDesc, Payload, uint32, scalar, string}
use mcgv.Marshal.TypeId.{get_type_id}
use mcgv.Marshal.Encoding.{encode}
use mcgv.Marshal.Canon.{IsInRange, depth, canon}
use mcgv.Schema.{BinarySchema, build, new_builder}
use mcgv.Schema.Built.{add_all}
use mcgv.Metadata.{BinaryMetadata, new_binary_metadata}
use mcgv.Object.{Marshaller, Laws}
use mcgv.Object.Writer.{BoField, write_object, field_type, old_field}
use mcgv.Object.Reader.{FieldError, field_of, find_field}
use mcgv.Object.Offsets.{offsets}
use mcgv.Object.Payloads.{payload_marshaller, payload_laws}
use mcgv.Object.Written.{AllFit}
use mcgv.Object.Written.Whole.{object_bytes}
use mcgv.Object.Layout.{AreDistinct}
use mcgv.Object.Ends.{Ends, find_field-Ends}
use mcgv.Object.RoundTrip.{write_object-field_of}

abbrev no_write : ℕ → Write
no_write n s = panic

abbrev no_read : TypeDesc → Read Payload
no_read t s = panic

abbrev no_type : ℕ → Option TypeDesc
no_type n = none

abbrev accept : BinaryMetadata → Bool
accept meta = true

abbrev marsh : Marshaller
marsh = payload_marshaller no_write no_read no_type (λ s. s) true accept 3

abbrev marsh_laws : Laws marsh
marsh_laws = payload_laws no_write no_read no_type (λ s. s) true accept 3 (λ meta. refl)

-- The fields `age` and `name`.
abbrev age : String × BoField marsh
age = (97 ∷ 103 ∷ 101 ∷ [], record { type_id = none; value = uint32 300 })

abbrev name : String × BoField marsh
name =
    (110 ∷ 97 ∷ 109 ∷ 101 ∷ [], record { type_id = none; value = scalar (string (104 ∷ 105 ∷ [])) })

abbrev person : BinaryMetadata
person = new_binary_metadata 5 (112 ∷ []) []

abbrev known_schemas : ℕ → ℕ → FieldError ⊎ Option BinarySchema
known_schemas t id =
    inr (some (build (add_all new_builder (offsets marsh marsh_laws 5 24 (age ∷ (name ∷ []))))))

person_type : person.type_id ≡ 5
unfolding new_binary_metadata
person_type = refl

fields-AllFit : AllFit marsh marsh_laws none (age ∷ (name ∷ []))
unfolding IsInRange depth field_type old_field get_type_id
fields-AllFit = (
  (omega arith, omega arith),
  record { type_id = 3; typed = refl; same_type = λ f e. cc e },
  ((omega arith, omega arith), record { type_id = 9; typed = refl; same_type = λ f e. cc e }, tt),
)

fields-AreDistinct : AreDistinct (offsets marsh marsh_laws 5 24 (age ∷ (name ∷ [])))
unfolding hash_code
fields-AreDistinct = (refl, omega arith, (refl, omega arith, tt))

object-fits :
    (new_output_stream 8).position + length (object_bytes marsh marsh_laws 5 (age ∷ (name ∷ [])))
    ≤ max_int32
unfolding new_output_stream le_bytes encode
object-fits = omega arith

write_object-field_of_example :
    (s' : Out) × (write_object marsh person none (age ∷ (name ∷ [])) (new_output_stream 8) ≡ ok s')
    × (field_of marsh known_schemas (record { type_id = 0; bytes = drop 0 (contents s') }) name.0
        ≡ ok (some (canon name.1.value)))
unfolding new_output_stream
write_object-field_of_example =
    write_object-field_of marsh marsh_laws 5 (new_output_stream 8) person none known_schemas age
      (name ∷ []) name.0 name.1 (new-IsValid 8) person_type refl (omega arith) fields-AllFit
      fields-AreDistinct refl object-fits refl

-- A footer that is cut off in its only entry.
find_field-Ends_example :
    Ends
      (find_field marsh known_schemas (record { type_id = 5; bytes = [] }) 5 97 (97 ∷ (0 ∷ [])) 2 1)
find_field-Ends_example =
    find_field-Ends marsh known_schemas (record { type_id = 5; bytes = [] }) 5 97 (97 ∷ (0 ∷ [])) 2
      1
