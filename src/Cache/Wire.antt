-- ===== src/Cache/Wire.antt =====
-- The requests of the calls of a cache, and the bytes of their arguments and of their results.
use mcgv.Base.{ℕ, ◌≡◌, refl, false, List, [], ◌∷◌, ◌++◌, Option, ok, All}
use mcgv.Stream.Out.{Write, ◌▸◌, write_uint8}
use mcgv.Stream.Out.Writes.{Emits, ◌⊳◌, skip_Emits, write_uint8-Emits}
use mcgv.Metadata.Wire.{write_sequence}
use mcgv.Metadata.Wire.Sequences.{sequence_Emits, sequence_bytes}
use mcgv.Transaction.{Session}
use mcgv.Object.{Laws}
use mcgv.Cache.Results.{pair_bytes, reader_of}
use mcgv.Cache.{Cache}
use mcgv.Cache.Client.{
  Client, World, Value, CacheOp, op_code, op_cache_get, op_cache_put, op_cache_put_if_absent,
  op_cache_get_all, op_cache_put_all, op_cache_get_and_put, op_cache_get_and_replace,
  op_cache_get_and_remove, op_cache_get_and_put_if_absent, op_cache_replace,
  op_cache_replace_if_equals, op_cache_contains_key, op_cache_contains_keys, op_cache_clear,
  op_cache_clear_key, op_cache_clear_keys, op_cache_remove_key, op_cache_remove_if_equals,
  op_cache_remove_keys, op_cache_remove_all, op_cache_get_size, write_present, write_entry, request,
}
use mcgv.Cache.Operations.{
  get, put, put_if_absent, get_all, put_all, get_and_put, get_and_replace, get_and_remove,
  get_and_put_if_absent, replace, replace_if_equals, contains_key, contains_keys, clear_all, clear,
  clear_keys, remove, remove_if_equals, remove_keys, remove_all, size,
}
use mcgv.Cache.Calls.{
  Call, kind_of, code_of, run, call_get, call_put, call_put_if_absent, call_get_all, call_put_all,
  call_get_and_put, call_get_and_replace, call_get_and_remove, call_get_and_put_if_absent,
  call_replace, call_replace_if_equals, call_contains_key, call_contains_keys, call_clear_all,
  call_clear, call_clear_keys, call_remove, call_remove_if_equals, call_remove_keys,
  call_remove_all, call_size,
}

mapped {ℓ κ μ} :
    {A : Type ℓ} (P : A → Type κ) (Q : A → Type μ)
    → ((v : A) → P v → Q v)
    → (vs : List A) → All P vs
    → All Q vs
mapped P Q f [] h = tt
mapped P Q f (v ∷ vs) h = (f v h.0, mapped P Q f vs h.1)

each_one {ℓ κ} : {A : Type ℓ} (P : A → Type κ) → ((v : A) → P v) → (vs : List A) → All P vs
each_one P f [] = tt
each_one P f (v ∷ vs) = (f v, each_one P f vs)

module _ (cli : Client) (laws : Laws cli.marsh) where
  -- A value that is there and in range.
  abbrev pub IsGiven : Value cli → Type 0
  IsGiven v = (cli.marsh.is_nil v ≡ false) × laws.Fits v

  abbrev pub IsGivenPair : Value cli × Value cli → Type 0
  IsGivenPair (k, v) = IsGiven k × IsGiven v

  -- The arguments of a call are there and in range.
  abbrev pub IsComplete : Call cli → Type 0
  IsComplete (call_get k) = IsGiven k
  IsComplete (call_put k v) = IsGiven k × IsGiven v
  IsComplete (call_put_if_absent k v) = IsGiven k × IsGiven v
  IsComplete (call_get_all []) = ⊥
  IsComplete (call_get_all (v ∷ vs)) = All IsGiven (v ∷ vs)
  IsComplete (call_put_all []) = ⊥
  IsComplete (call_put_all (v ∷ vs)) = All IsGivenPair (v ∷ vs)
  IsComplete (call_get_and_put k v) = IsGiven k × IsGiven v
  IsComplete (call_get_and_replace k v) = IsGiven k × IsGiven v
  IsComplete (call_get_and_remove k) = IsGiven k
  IsComplete (call_get_and_put_if_absent k v) = IsGiven k × IsGiven v
  IsComplete (call_replace k v) = IsGiven k × IsGiven v
  IsComplete (call_replace_if_equals k old new) = IsGiven k × IsGiven old × IsGiven new
  IsComplete (call_contains_key k) = IsGiven k
  IsComplete (call_contains_keys []) = ⊥
  IsComplete (call_contains_keys (v ∷ vs)) = All IsGiven (v ∷ vs)
  IsComplete call_clear_all = Unit
  IsComplete (call_clear k) = IsGiven k
  IsComplete (call_clear_keys []) = ⊥
  IsComplete (call_clear_keys (v ∷ vs)) = All IsGiven (v ∷ vs)
  IsComplete (call_remove k) = IsGiven k
  IsComplete (call_remove_if_equals k old) = IsGiven k × IsGiven old
  IsComplete (call_remove_keys []) = ⊥
  IsComplete (call_remove_keys (v ∷ vs)) = All IsGiven (v ∷ vs)
  IsComplete call_remove_all = Unit
  IsComplete (call_size modes) = Unit

  -- The bytes of the arguments.
  abbrev pub argument_bytes : Call cli → List ℕ
  argument_bytes (call_get k) = laws.encode k
  argument_bytes (call_put k v) = laws.encode k ++ laws.encode v
  argument_bytes (call_put_if_absent k v) = laws.encode k ++ laws.encode v
  argument_bytes (call_get_all ks) = sequence_bytes laws.encode ks
  argument_bytes (call_put_all es) = sequence_bytes (pair_bytes cli laws) es
  argument_bytes (call_get_and_put k v) = laws.encode k ++ laws.encode v
  argument_bytes (call_get_and_replace k v) = laws.encode k ++ laws.encode v
  argument_bytes (call_get_and_remove k) = laws.encode k
  argument_bytes (call_get_and_put_if_absent k v) = laws.encode k ++ laws.encode v
  argument_bytes (call_replace k v) = laws.encode k ++ laws.encode v
  argument_bytes (call_replace_if_equals k old new) =
      laws.encode k ++ (laws.encode old ++ laws.encode new)
  argument_bytes (call_contains_key k) = laws.encode k
  argument_bytes (call_contains_keys ks) = sequence_bytes laws.encode ks
  argument_bytes call_clear_all = []
  argument_bytes (call_clear k) = laws.encode k
  argument_bytes (call_clear_keys ks) = sequence_bytes laws.encode ks
  argument_bytes (call_remove k) = laws.encode k
  argument_bytes (call_remove_if_equals k old) = laws.encode k ++ laws.encode old
  argument_bytes (call_remove_keys ks) = sequence_bytes laws.encode ks
  argument_bytes call_remove_all = []
  argument_bytes (call_size modes) = sequence_bytes (λ m. m ∷ []) modes

  -- The operation of a call, and what writes its arguments.
  abbrev pub op_of : Call cli → CacheOp
  op_of (call_get k) = op_cache_get
  op_of (call_put k v) = op_cache_put
  op_of (call_put_if_absent k v) = op_cache_put_if_absent
  op_of (call_get_all ks) = op_cache_get_all
  op_of (call_put_all es) = op_cache_put_all
  op_of (call_get_and_put k v) = op_cache_get_and_put
  op_of (call_get_and_replace k v) = op_cache_get_and_replace
  op_of (call_get_and_remove k) = op_cache_get_and_remove
  op_of (call_get_and_put_if_absent k v) = op_cache_get_and_put_if_absent
  op_of (call_replace k v) = op_cache_replace
  op_of (call_replace_if_equals k old new) = op_cache_replace_if_equals
  op_of (call_contains_key k) = op_cache_contains_key
  op_of (call_contains_keys ks) = op_cache_contains_keys
  op_of call_clear_all = op_cache_clear
  op_of (call_clear k) = op_cache_clear_key
  op_of (call_clear_keys ks) = op_cache_clear_keys
  op_of (call_remove k) = op_cache_remove_key
  op_of (call_remove_if_equals k old) = op_cache_remove_if_equals
  op_of (call_remove_keys ks) = op_cache_remove_keys
  op_of call_remove_all = op_cache_remove_all
  op_of (call_size modes) = op_cache_get_size

  abbrev pub writer_of : Call cli → Write
  writer_of (call_get k) = cli.marsh.marshal_value k
  writer_of (call_put k v) = cli.marsh.marshal_value k ▸ cli.marsh.marshal_value v
  writer_of (call_put_if_absent k v) = cli.marsh.marshal_value k ▸ cli.marsh.marshal_value v
  writer_of (call_get_all ks) = write_sequence (write_present cli) ks
  writer_of (call_put_all es) = write_sequence (write_entry cli) es
  writer_of (call_get_and_put k v) = cli.marsh.marshal_value k ▸ cli.marsh.marshal_value v
  writer_of (call_get_and_replace k v) = cli.marsh.marshal_value k ▸ cli.marsh.marshal_value v
  writer_of (call_get_and_remove k) = cli.marsh.marshal_value k
  writer_of (call_get_and_put_if_absent k v) = cli.marsh.marshal_value k ▸ cli.marsh.marshal_value v
  writer_of (call_replace k v) = cli.marsh.marshal_value k ▸ cli.marsh.marshal_value v
  writer_of (call_replace_if_equals k old new) =
      cli.marsh.marshal_value k ▸ cli.marsh.marshal_value old ▸ cli.marsh.marshal_value new
  writer_of (call_contains_key k) = cli.marsh.marshal_value k
  writer_of (call_contains_keys ks) = write_sequence (write_present cli) ks
  writer_of call_clear_all = ok
  writer_of (call_clear k) = cli.marsh.marshal_value k
  writer_of (call_clear_keys ks) = write_sequence (write_present cli) ks
  writer_of (call_remove k) = cli.marsh.marshal_value k
  writer_of (call_remove_if_equals k old) = cli.marsh.marshal_value k ▸ cli.marsh.marshal_value old
  writer_of (call_remove_keys ks) = write_sequence (write_present cli) ks
  writer_of call_remove_all = ok
  writer_of (call_size modes) = write_sequence write_uint8 modes

  pub code_lem : (c : Call cli) → op_code (op_of c) ≡ code_of cli c
  code_lem (call_get k) = refl
  code_lem (call_put k v) = refl
  code_lem (call_put_if_absent k v) = refl
  code_lem (call_get_all ks) = refl
  code_lem (call_put_all es) = refl
  code_lem (call_get_and_put k v) = refl
  code_lem (call_get_and_replace k v) = refl
  code_lem (call_get_and_remove k) = refl
  code_lem (call_get_and_put_if_absent k v) = refl
  code_lem (call_replace k v) = refl
  code_lem (call_replace_if_equals k old new) = refl
  code_lem (call_contains_key k) = refl
  code_lem (call_contains_keys ks) = refl
  code_lem call_clear_all = refl
  code_lem (call_clear k) = refl
  code_lem (call_clear_keys ks) = refl
  code_lem (call_remove k) = refl
  code_lem (call_remove_if_equals k old) = refl
  code_lem (call_remove_keys ks) = refl
  code_lem call_remove_all = refl
  code_lem (call_size modes) = refl

  present-Emits : (v : Value cli) → IsGiven v → Emits (write_present cli v) (laws.encode v)
  unfolding write_present
  present-Emits v h = rw (h.0) (laws.emits v h.1)

  entry-Emits :
      (e : Value cli × Value cli)
      → IsGivenPair e
      → Emits (write_entry cli e) ((pair_bytes cli laws) e)
  unfolding write_entry
  entry-Emits (k, v) h = rw (h.0.0, h.1.0) (laws.emits k h.0.1 ⊳ laws.emits v h.1.1)

  pub arguments-Emits : (c : Call cli) → IsComplete c → Emits (writer_of c) (argument_bytes c)
  arguments-Emits (call_get k) h = laws.emits k h.1
  arguments-Emits (call_put k v) h = laws.emits k h.0.1 ⊳ laws.emits v h.1.1
  arguments-Emits (call_put_if_absent k v) h = laws.emits k h.0.1 ⊳ laws.emits v h.1.1
  arguments-Emits (call_get_all []) h = absurd h
  arguments-Emits (call_get_all (v ∷ vs)) h =
      sequence_Emits _ _ (v ∷ vs) (mapped _ _ present-Emits (v ∷ vs) h)
  arguments-Emits (call_put_all []) h = absurd h
  arguments-Emits (call_put_all (v ∷ vs)) h =
      sequence_Emits _ _ (v ∷ vs) (mapped _ _ entry-Emits (v ∷ vs) h)
  arguments-Emits (call_get_and_put k v) h = laws.emits k h.0.1 ⊳ laws.emits v h.1.1
  arguments-Emits (call_get_and_replace k v) h = laws.emits k h.0.1 ⊳ laws.emits v h.1.1
  arguments-Emits (call_get_and_remove k) h = laws.emits k h.1
  arguments-Emits (call_get_and_put_if_absent k v) h = laws.emits k h.0.1 ⊳ laws.emits v h.1.1
  arguments-Emits (call_replace k v) h = laws.emits k h.0.1 ⊳ laws.emits v h.1.1
  arguments-Emits (call_replace_if_equals k old new) h =
      laws.emits k h.0.1 ⊳ laws.emits old h.1.1 ⊳ laws.emits new h.2.1
  arguments-Emits (call_contains_key k) h = laws.emits k h.1
  arguments-Emits (call_contains_keys []) h = absurd h
  arguments-Emits (call_contains_keys (v ∷ vs)) h =
      sequence_Emits _ _ (v ∷ vs) (mapped _ _ present-Emits (v ∷ vs) h)
  arguments-Emits call_clear_all h = skip_Emits
  arguments-Emits (call_clear k) h = laws.emits k h.1
  arguments-Emits (call_clear_keys []) h = absurd h
  arguments-Emits (call_clear_keys (v ∷ vs)) h =
      sequence_Emits _ _ (v ∷ vs) (mapped _ _ present-Emits (v ∷ vs) h)
  arguments-Emits (call_remove k) h = laws.emits k h.1
  arguments-Emits (call_remove_if_equals k old) h = laws.emits k h.0.1 ⊳ laws.emits old h.1.1
  arguments-Emits (call_remove_keys []) h = absurd h
  arguments-Emits (call_remove_keys (v ∷ vs)) h =
      sequence_Emits _ _ (v ∷ vs) (mapped _ _ present-Emits (v ∷ vs) h)
  arguments-Emits call_remove_all h = skip_Emits
  arguments-Emits (call_size modes) h =
      sequence_Emits _ _ modes (each_one _ write_uint8-Emits modes)

  module _ (tx : Option (Session cli.cluster)) (cache : Cache) where
    pub run-request :
        (c : Call cli) (w : World cli)
        → IsComplete c
        → run cli tx cache c w
          ≡ request cli tx cache (op_of c) (writer_of c) (reader_of cli laws (kind_of cli c)) w
    unfolding run get put put_if_absent get_all put_all get_and_put get_and_replace get_and_remove
        get_and_put_if_absent replace replace_if_equals contains_key contains_keys clear_all clear
        clear_keys remove remove_if_equals remove_keys remove_all size
    run-request (call_get k) w h = rw (h.0) refl
    run-request (call_put k v) w h = rw (h.0.0, h.1.0) refl
    run-request (call_put_if_absent k v) w h = rw (h.0.0, h.1.0) refl
    run-request (call_get_all []) w h = absurd h
    run-request (call_get_all (v ∷ vs)) w h = refl
    run-request (call_put_all []) w h = absurd h
    run-request (call_put_all (v ∷ vs)) w h = refl
    run-request (call_get_and_put k v) w h = rw (h.0.0, h.1.0) refl
    run-request (call_get_and_replace k v) w h = rw (h.0.0, h.1.0) refl
    run-request (call_get_and_remove k) w h = rw (h.0) refl
    run-request (call_get_and_put_if_absent k v) w h = rw (h.0.0, h.1.0) refl
    run-request (call_replace k v) w h = rw (h.0.0, h.1.0) refl
    run-request (call_replace_if_equals k old new) w h = rw (h.0.0, h.1.0, h.2.0) refl
    run-request (call_contains_key k) w h = rw (h.0) refl
    run-request (call_contains_keys []) w h = absurd h
    run-request (call_contains_keys (v ∷ vs)) w h = refl
    run-request call_clear_all w h = refl
    run-request (call_clear k) w h = rw (h.0) refl
    run-request (call_clear_keys []) w h = absurd h
    run-request (call_clear_keys (v ∷ vs)) w h = refl
    run-request (call_remove k) w h = rw (h.0) refl
    run-request (call_remove_if_equals k old) w h = rw (h.0.0, h.1.0) refl
    run-request (call_remove_keys []) w h = absurd h
    run-request (call_remove_keys (v ∷ vs)) w h = refl
    run-request call_remove_all w h = refl
    run-request (call_size modes) w h = refl
