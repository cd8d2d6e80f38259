-- ===== src/Object.antt =====
-- Binary objects: the writer and the fields of binary_object.go, over the marshaller of their fields.
pub mod Writer
pub mod Reader
pub mod Header
pub mod Layout
pub mod Offsets
pub mod Lookup
pub mod Framed
pub mod Find
pub mod RoundTrip
pub mod Payloads
pub mod Ends
pub mod Written
mod Tests
use mcgv.Base.{ℕ, ◌^◌, ◌<◌, ◌≡◌, Bool, true, List, Option, String}
use mcgv.Stream.Types.{Error}
use mcgv.Stream.Out.{Write}
use mcgv.Stream.In.{Read}
use mcgv.Stream.Out.Writes.{Emits}
use mcgv.Stream.In.Reads.{Reads}
use mcgv.Metadata.{BinaryMetadata}

-- What goes wrong when an object is written: `getTypeId` of a value, the check of a field's type, the
-- registry, or the stream.
pub data ObjectError : Type 0 where
  no_type_id field_type_differs registry_failed : ObjectError
  stream : Error → ObjectError

-- What binary_object.go uses of the interface `marshaller` of marshaller.go: the values of fields, the
-- `BinaryIdMapper`, the footer option and the registry.
pub record Marshaller : Type 1 where
  pub Value : Type 0
  pub is_nil : Value → Bool
  -- `getTypeId`
  pub type_of : Value → Option ℕ
  pub marshal_value : Value → Write
  pub unmarshal_value : Read Value
  -- `BinaryIdMapper.TypeId` and `BinaryIdMapper.FieldId`
  pub type_id_of : String → ℕ
  pub field_id_of : ℕ → String → ℕ
  pub compact_footer : Bool
  -- whether `putMetadata` returns no error
  pub put_metadata : BinaryMetadata → Bool

-- What the marshaller promises of the values in `Fits`.
pub record Laws (m : Marshaller) : Type 1 where
  pub encode : m.Value → List ℕ
  pub canon : m.Value → m.Value
  pub Fits : m.Value → Type 0
  pub emits : (v : m.Value) → Fits v → Emits (m.marshal_value v) (encode v)
  pub reads : (v : m.Value) → Fits v → Reads m.unmarshal_value (encode v) (canon v)
  pub int32_ids : (t : ℕ) (name : String) → m.field_id_of t name < 2 ^ 32
  -- no conflict with metadata that the registry has
  pub registers : (meta : BinaryMetadata) → m.put_metadata meta ≡ true
