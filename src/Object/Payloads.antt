-- ===== src/Object/Payloads.antt =====
-- The marshaller of marshaller.go as the marshaller of the fields of a binary object, and
-- `BinaryBasicIdMapper` of binary_object.go. `strings.ToLower`, the registry and what lies outside the
-- model of the marshaller are parameters.
use mcgv.Base.{ℕ, ◌≤◌, ◌≡◌, Bool, true, false, List, Option, none, some, String}
use mcgv.Hash.{hash_code}
use mcgv.Hash.Bounds.{hash_code-small}
use mcgv.Stream.Types.{little}
use mcgv.Stream.Out.{Write}
use mcgv.Stream.In.{Read}
use mcgv.Marshal.Types.{TypeDesc, code, Payload, nil}
use mcgv.Marshal.Encoding.{encode}
use mcgv.Marshal.Canon.{canon, depth, IsInRange}
use mcgv.Marshal.Writer.{marshal}
use mcgv.Marshal.Reader.{unmarshal}
use mcgv.Marshal.Writes.{marshal-Emits}
use mcgv.Marshal.RoundTrip.{unmarshal-Reads, range_covers}
use mcgv.Marshal.TypeId.{get_type_id}
use mcgv.Metadata.{BinaryMetadata}
use mcgv.Object.{Marshaller, Laws}

-- `BinaryBasicIdMapper`: both its methods. `lower` gives the code points of the name in lower case.
abbrev pub basic_id : (String → List ℕ) → String → ℕ
basic_id lower name = hash_code (lower name)

-- The code of the type of a value.
abbrev pub type_code : Option TypeDesc → Option ℕ
type_code none = none
type_code (some t) = some (code t)

abbrev pub is_nil_payload : Payload → Bool
is_nil_payload nil = true
is_nil_payload _ = false

module _ (write_other : ℕ → Write) (read_other : TypeDesc → Read Payload)
    (type_of_other : ℕ → Option TypeDesc) (lower : String → List ℕ) (compact : Bool)
    (registry : BinaryMetadata → Bool) (fuel : ℕ) where
  -- On a little-endian machine.
  abbrev pub payload_marshaller : Marshaller
  payload_marshaller = record {
    Value = Payload;
    is_nil = is_nil_payload;
    type_of = λ v. type_code (get_type_id type_of_other v);
    marshal_value = marshal little write_other;
    unmarshal_value = unmarshal little read_other fuel;
    type_id_of = basic_id lower;
    field_id_of = λ t. basic_id lower;
    compact_footer = compact;
    put_metadata = registry;
  }

  -- Values in range, that nest no deeper than the fuel.
  abbrev pub payload_laws :
      ((meta : BinaryMetadata) → registry meta ≡ true) → Laws payload_marshaller
  payload_laws registers = record {
    encode = encode;
    canon = canon;
    Fits = λ v. IsInRange v × (depth v ≤ fuel);
    emits = λ v h. marshal-Emits write_other v (range_covers v h.0);
    reads = λ v h. unmarshal-Reads read_other v fuel h.1 h.0;
    int32_ids = λ t name. hash_code-small (lower name);
    registers = registers;
  }
