-- ===== src/Cache/Results.antt =====
-- The bytes of what the calls of a cache return.
use mcgv.Base.{ℕ, ◌^◌, ◌<◌, List, [], ◌∷◌, ◌++◌, map, All, length, if◌then◌else◌}
use mcgv.Base.Bytes.{le_bytes}
use mcgv.Stream.In.{Read, read_bool, read_uint64}
use mcgv.Stream.In.Reads.{Reads, bind_Reads, map_Reads, return-Reads, bool_Reads, uint64_Reads}
use mcgv.Marshal.Canon.{IsLength}
use mcgv.Metadata.Wire.{read_pairs}
use mcgv.Metadata.Wire.Sequences.{sequence_bytes, read_pairs-Reads}
use mcgv.Object.{Laws}
use mcgv.Cache.Client.{Client, Value, read_entry, nothing}
use mcgv.Cache.Calls.{Kind, a_value, a_bool, nothing as no_value, some_pairs, a_size, Of}

module _ (cli : Client) (laws : Laws cli.marsh) where
  abbrev pub pair_bytes : Value cli × Value cli → List ℕ
  pair_bytes (k, v) = laws.encode k ++ laws.encode v

  -- The bytes of a result, and which results are in range.
  abbrev pub result_bytes : (k : Kind) → Of cli k → List ℕ
  result_bytes a_value v = laws.encode v
  result_bytes a_bool b = (if b then 1 else 0) ∷ []
  result_bytes no_value v = []
  result_bytes some_pairs es = sequence_bytes pair_bytes es
  result_bytes a_size n = le_bytes 8 n

  abbrev pub IsResult : (k : Kind) → Of cli k → Type 0
  IsResult a_value v = laws.Fits v
  IsResult a_bool b = Unit
  IsResult no_value v = Unit
  IsResult some_pairs es = IsLength (length es) × All (λ e. laws.Fits e.0 × laws.Fits e.1) es
  IsResult a_size n = n < 2 ^ 64

  abbrev canon_pair : Value cli × Value cli → Value cli × Value cli
  canon_pair (k, v) = (laws.canon k, laws.canon v)

  -- What is read of it.
  abbrev pub canon_result : (k : Kind) → Of cli k → Of cli k
  canon_result a_value v = laws.canon v
  canon_result a_bool b = b
  canon_result no_value v = v
  canon_result some_pairs es = map canon_pair es
  canon_result a_size n = n

  abbrev pub reader_of : (k : Kind) → Read (Of cli k)
  reader_of a_value = cli.marsh.unmarshal_value
  reader_of a_bool = read_bool
  reader_of no_value = nothing
  reader_of some_pairs = read_pairs (read_entry cli)
  reader_of a_size = read_uint64

  entries-Reads :
      (es : List (Value cli × Value cli))
      → All (λ e. laws.Fits e.0 × laws.Fits e.1) es
      → All (λ e. Reads (read_entry cli) (pair_bytes e) (canon_pair e)) es
  unfolding read_entry
  entries-Reads [] h = tt
  entries-Reads ((k, v) ∷ es) h = (
    bind_Reads _ (laws.reads k h.0.0) (map_Reads _ _ _ _ (laws.reads v h.0.1)),
    entries-Reads es h.1,
  )

  pub result_Reads :
      (k : Kind) (v : Of cli k)
      → IsResult k v
      → Reads (reader_of k) (result_bytes k v) (canon_result k v)
  result_Reads a_value v h = laws.reads v h
  result_Reads a_bool b h = bool_Reads b
  result_Reads no_value v h = return-Reads v
  result_Reads some_pairs es h =
      read_pairs-Reads (read_entry cli) pair_bytes canon_pair es h.0 (entries-Reads es h.1)
  result_Reads a_size n h = uint64_Reads n h
