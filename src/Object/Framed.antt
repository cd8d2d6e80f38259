-- ===== src/Object/Framed.antt =====
-- The header of a binary object that `finalize` of binary_object.go wrote, as a reader finds it.
use mcgv.Base.{ℕ, ◌^◌, ◌<◌, ◌≡◌, refl, sym, ◌∙◌, arith, List, ◌++◌}
use mcgv.Base.{Bool, true, false, append_assoc, if◌then◌else◌}
use mcgv.Base.{length, length-append}
use mcgv.Base.{string_keys, number_keys}
use mcgv.Base.Bytes.{le_bytes, of_le, length-le_bytes}
use mcgv.Hash.{slice_hash_code}
use mcgv.Schema.Footer.{IsSize, one, two, four}
use mcgv.Object.{Marshaller}
use mcgv.Object.Writer.{size_flag}
use mcgv.Object.Reader.{word_at, has_flag}
use mcgv.Object.Written.Final.{header_front, header_back, length-header_front, length-header_back}
use mcgv.Object.Written.Whole.{written_flags, framed}

-- What the flags of a written object say.
pub record FlagsSay (compact : Bool) (size flags : ℕ) : Type 0 where
  pub has_schema : has_flag flags 2 ≡ true
  pub has_raw : has_flag flags 4 ≡ false
  pub is_compact : has_flag flags 32 ≡ compact
  pub offset_size : (if has_flag flags 8 then 1 else if has_flag flags 16 then 2 else 4) ≡ size
  pub small : flags < 256 ^ 2

pub size_flag-FlagsSay :
    (m : Marshaller) (compact : Bool) (last size : ℕ)
    → IsSize last size
    → FlagsSay compact size (size_flag m (written_flags compact) size)
size_flag-FlagsSay m true last size (one h) = record {
  has_schema = refl;
  has_raw = refl;
  is_compact = refl;
  offset_size = refl;
  small = omega arith;
}
size_flag-FlagsSay m true last size (two h) = record {
  has_schema = refl;
  has_raw = refl;
  is_compact = refl;
  offset_size = refl;
  small = omega arith;
}
size_flag-FlagsSay m true last size (four h) = record {
  has_schema = refl;
  has_raw = refl;
  is_compact = refl;
  offset_size = refl;
  small = omega arith;
}
size_flag-FlagsSay m false last size (one h) = record {
  has_schema = refl;
  has_raw = refl;
  is_compact = refl;
  offset_size = refl;
  small = omega arith;
}
size_flag-FlagsSay m false last size (two h) = record {
  has_schema = refl;
  has_raw = refl;
  is_compact = refl;
  offset_size = refl;
  small = omega arith;
}
size_flag-FlagsSay m false last size (four h) = record {
  has_schema = refl;
  has_raw = refl;
  is_compact = refl;
  offset_size = refl;
  small = omega arith;
}

-- The words of the header.
pub framed-flags :
    (body footer : List ℕ) (flags id size schema_id offset : ℕ)
    → word_at 2 2 (framed body footer flags id size schema_id offset) ≡ of_le (le_bytes 2 flags)
unfolding le_bytes
framed-flags body footer flags id size schema_id offset = refl

pub framed-type :
    (body footer : List ℕ) (flags id size schema_id offset : ℕ)
    → word_at 4 4 (framed body footer flags id size schema_id offset) ≡ of_le (le_bytes 4 id)
unfolding le_bytes
framed-type body footer flags id size schema_id offset = refl

pub framed-schema :
    (body footer : List ℕ) (flags id size schema_id offset : ℕ)
    → word_at 4 16 (framed body footer flags id size schema_id offset)
      ≡ of_le (le_bytes 4 schema_id)
unfolding le_bytes
framed-schema body footer flags id size schema_id offset = refl

pub framed-offset :
    (body footer : List ℕ) (flags id size schema_id offset : ℕ)
    → word_at 4 20 (framed body footer flags id size schema_id offset) ≡ of_le (le_bytes 4 offset)
unfolding le_bytes
framed-offset body footer flags id size schema_id offset = refl

-- The header is 24 bytes long.
pub framed-split :
    (body footer : List ℕ) (flags id size schema_id offset : ℕ)
    → (header : List ℕ) × (length header ≡ 24)
      × (framed body footer flags id size schema_id offset ≡ header ++ (body ++ footer))
framed-split body footer flags id size schema_id offset =
    let front = header_front flags id in
    let hash = le_bytes 4 (slice_hash_code body) in
    let back = header_back size schema_id offset in
    (
      front ++ hash ++ back,
      omega (
        arith,
        length-append (front ++ hash) back,
        length-append front hash,
        length-header_front flags id,
        length-le_bytes 4 (slice_hash_code body),
        length-header_back size schema_id offset,
      ),
      sym (append_assoc front hash (back ++ (body ++ footer)))
          ∙ sym (append_assoc (front ++ hash) back (body ++ footer)),
    )
