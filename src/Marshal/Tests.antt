-- ===== src/Marshal/Tests.antt =====
-- The theorems on marshaller.go at concrete payloads.
use mcgv.Base.{ℕ, ◌≡◌, arith, List, [], ◌∷◌, ok, length, Option, none, some, panic}
use mcgv.Base.Bytes.{le_bytes}
use mcgv.Stream.Types.{uint32s, little}
use mcgv.Stream.Out.{Out, Write, contents, new_output_stream}
use mcgv.Stream.Out.Writes.{Emits}
use mcgv.Stream.In.{Read, new_input_stream}
use mcgv.Stream.In.Reads.{Reads}
use mcgv.Marshal.Types.{
  TypeDesc, code, string, strings, Payload, uint8, slice, scalar, typed_array, collection, map, end,
  item, done, entry,
}
use mcgv.Marshal.Writer.{marshal}
use mcgv.Marshal.Encoding.{encode, IsCovered}
use mcgv.Marshal.Writes.{marshal-Emits}
use mcgv.Marshal.Reader.{unmarshal}
use mcgv.Marshal.Canon.{canon, depth, IsInRange}
use mcgv.Marshal.TypeId.{get_type_id, get_type_id-marshal}
use mcgv.Marshal.RoundTrip.{unmarshal-marshal, unmarshal-Reads, range_covers}

-- Stand-ins for the code outside the model.
abbrev no_write : ℕ → Write
no_write n s = panic

abbrev no_read : TypeDesc → Read Payload
no_read t s = panic

-- An array list of a uint32 slice, a map and an array of strings.
abbrev sample : Payload
sample = collection 1 (
    item (slice uint32s (7 ∷ 300 ∷ [])) (
      item (map 1 (entry (uint8 200) (scalar (string (104 ∷ 105 ∷ []))) done))
        (item (typed_array strings (some (string (97 ∷ [])) ∷ none ∷ [])) end)))

marshal-Emits_example : Emits (marshal little no_write sample) (encode sample)
unfolding IsCovered
marshal-Emits_example = marshal-Emits no_write sample (omega arith)

sample-IsInRange : IsInRange sample
unfolding IsInRange
sample-IsInRange = ground arith

unmarshal-Reads_example : Reads (unmarshal little no_read 3) (encode sample) (canon sample)
unfolding depth
unmarshal-Reads_example = unmarshal-Reads no_read sample 3 (omega arith) sample-IsInRange

unmarshal-marshal_example :
    (s : Out) × (marshal little no_write sample (new_output_stream 64) ≡ ok s)
    × (unmarshal little no_read (depth sample) (new_input_stream (contents s) 0)
        ≡ ok (canon sample, new_input_stream (contents s) (length (contents s))))
unfolding encode le_bytes
unmarshal-marshal_example =
    unmarshal-marshal no_write no_read sample 64 sample-IsInRange (omega arith)

abbrev no_type : ℕ → Option TypeDesc
no_type n = none

get_type_id-marshal_example :
    (t : TypeDesc) × (rest : List ℕ) × (get_type_id no_type sample ≡ some t)
    × Emits (marshal little no_write sample) (code t ∷ rest)
get_type_id-marshal_example =
    get_type_id-marshal no_type no_write sample tt (range_covers sample sample-IsInRange)
