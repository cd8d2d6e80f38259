-- ===== src/Stream/Out/Writes.antt =====
-- The contract of the output stream of buffer.go: a write appends its bytes to the contents, and it
-- panics exactly if the contents would pass 2 ^ 31 - 1 bytes.
use mcgv.Base.{ℕ, ◌+◌, ◌-◌, ◌≤◌, ◌<◌, ◌≡◌, refl, sym, ap, ◌∙◌}
use mcgv.Base.{Bool, List, [], ◌∷◌, ◌++◌, append_assoc, append-nil, arith, inl, inr}
use mcgv.Base.{ltb, if◌then◌else◌, length, take, drop, replicate, Bool-cases}
use mcgv.Base.{ok, panic, ◌>>=◌, length-append, length-replicate, length-take, take-append}
use mcgv.Base.{take-append_le, ltb→lt, ltb→le}
use mcgv.Base.Bytes.{le_bytes, length-le_bytes}
use mcgv.Stream.Out.{
  Out, Write, ◌▸◌, contents, max_int32, ensure_available, put, write_bytes, write_bool, write_uint8,
  write_uint16, write_uint32, write_uint64, write_type, new_output_stream,
}

pub record IsValid (s : Out) : Type 0 where
  pub inside : s.position ≤ length s.buffer
  pub small : s.position ≤ max_int32

-- The stream after `bytes` are appended to the contents of `s`.
pub record Appended (s : Out) (bytes : List ℕ) (s' : Out) : Type 0 where
  pub valid : IsValid s'
  pub grown : contents s' ≡ contents s ++ bytes
  pub moved : s'.position ≡ s.position + length bytes

-- What `w` does on every valid stream.
pub record Emits (w : Write) (bytes : List ℕ) : Type 0 where
  pub fits :
      (s : Out)
      → IsValid s
      → s.position + length bytes ≤ max_int32
      → (s' : Out) × (w s ≡ ok s') × Appended s bytes s'
  pub overflows : (s : Out) → IsValid s → max_int32 < s.position + length bytes → w s ≡ panic

pub contents-new : (n : ℕ) → contents (new_output_stream n) ≡ []
unfolding contents new_output_stream
contents-new n = refl

pub new-IsValid : (n : ℕ) → IsValid (new_output_stream n)
unfolding new_output_stream
new-IsValid n = record { inside = omega arith; small = omega arith }

put-Appended :
    (s : Out) (bytes : List ℕ)
    → s.position + length bytes ≤ length s.buffer
    → s.position + length bytes ≤ max_int32
    → Appended s bytes (put bytes s)
unfolding put contents
put-Appended s bytes h k =
    let front = take s.position s.buffer in
    let tail = drop (s.position + length bytes) s.buffer in
    let front_length : length front ≡ s.position = length-take s.position s.buffer (omega arith) in
    record {
      valid = record {
        inside =
            omega
              (arith, front_length, length-append front (bytes ++ tail), length-append bytes tail);
        small = k;
      };
      grown =
          ap (λ l. take (s.position + length bytes) l) (sym (append_assoc front bytes tail))
          ∙ take-append (front ++ bytes) tail (s.position + length bytes)
              (omega (arith, front_length, length-append front bytes));
      moved = refl;
    }

-- The room that `EnsureAvailable` makes.
pub ensure_room :
    (n : ℕ) (s : Out)
    → IsValid s
    → s.position + n ≤ max_int32
    → (s' : Out) × (ensure_available n s ≡ ok s')
      × (s'.position ≡ s.position)
      × (contents s' ≡ contents s)
      × (s.position + n ≤ length s'.buffer)
unfolding ensure_available contents
ensure_room n s v h = elim (Bool-cases (ltb (length s.buffer) (s.position + n))) [
  | inl e ↦
      let zeros = replicate {A = ℕ} (s.position + n - length s.buffer) 0 in
      (
        record s { buffer = s.buffer ++ zeros },
        ground arith,
        refl,
        take-append_le s.buffer zeros s.position v.inside,
        omega (
          arith,
          ltb→lt _ _ e,
          length-append s.buffer zeros,
          length-replicate {A = ℕ} (s.position + n - length s.buffer) 0,
        ),
      )
  | inr e ↦ (s, ground arith, refl, refl, omega (arith, ltb→le _ _ e))
]

ensure_panics : (n : ℕ) (s : Out) → max_int32 < s.position + n → ensure_available n s ≡ panic
unfolding ensure_available
ensure_panics n s h = ground arith

-- Ensuring the room for bytes, and putting them.
pub put-Emits :
    (bytes : List ℕ) (n : ℕ)
    → length bytes ≡ n
    → Emits (λ s. ensure_available n s >>= λ s'. ok (put bytes s')) bytes
put-Emits bytes n e = record {
  fits = λ s v h.
      let (r, done, at', same, room) = ensure_room n s v (omega arith) in
      let w = put-Appended r bytes (omega arith) (omega arith) in
      (
        put bytes r,
        rw done,
        record {
          valid = w.valid;
          grown = w.grown ∙ ap (λ l. l ++ bytes) same;
          moved = omega (arith, w.moved);
        },
      );
  overflows = λ s v h. rw (ensure_panics n s (omega arith));
}

-- Nothing is written, and nothing fails.
pub skip_Emits : Emits ok []
skip_Emits = record {
  fits = λ s v h.
      (s, refl, record { valid = v; grown = sym (append-nil (contents s)); moved = omega arith });
  overflows = λ s v h. absurd (omega (arith, v.small));
}

Appended-trans :
    (s t u : Out) (a b : List ℕ) → Appended s a t → Appended t b u → Appended s (a ++ b) u
Appended-trans s t u a b h k = record {
  valid = k.valid;
  grown = k.grown ∙ ap (λ l. l ++ b) h.grown ∙ append_assoc (contents s) a b;
  moved = omega (arith, h.moved, k.moved, length-append a b);
}

-- Two writes in a row, the second of which may depend on nothing but the stream.
module _ (w w' : Write) (a b : List ℕ) (first : Emits w a) (second : Emits w' b) where
  then_fits :
      (s : Out)
      → IsValid s
      → s.position + length (a ++ b) ≤ max_int32
      → (u : Out) × ((w s >>= w') ≡ ok u) × Appended s (a ++ b) u
  then_fits s v h =
      let total = length-append a b in
      let (t, e, p) = first.fits s v (omega arith) in
      let (u, e', q) = second.fits t p.valid (omega (arith, p.moved)) in
      (u, rw e e', Appended-trans s t u a b p q)

  then_overflows :
      (s : Out) → IsValid s → max_int32 < s.position + length (a ++ b) → (w s >>= w') ≡ panic
  then_overflows s v h = elim (Bool-cases (ltb max_int32 (s.position + length a))) [
    | inl e ↦ rw (first.overflows s v (ltb→lt _ _ e))
    | inr e ↦
        let (t, e', p) = first.fits s v (ltb→le _ _ e) in
        rw e' (second.overflows t p.valid (omega (arith, p.moved, length-append a b)))
  ]

  pub then_Emits : Emits (w ▸ w') (a ++ b)
  then_Emits = record { fits = then_fits; overflows = then_overflows }

-- The bytes of each write of the interface, in little-endian order.
pub write_bytes-Emits : (v : List ℕ) → Emits (write_bytes v) v
unfolding write_bytes
write_bytes-Emits v = put-Emits v (length v) refl

pub write_bool-Emits : (v : Bool) → Emits (write_bool v) ((if v then 1 else 0) ∷ [])
unfolding write_bool
write_bool-Emits v = put-Emits _ 1 refl

pub write_uint8-Emits : (v : ℕ) → Emits (write_uint8 v) (v ∷ [])
unfolding write_uint8
write_uint8-Emits v = put-Emits (v ∷ []) 1 refl

pub write_type-Emits : (v : ℕ) → Emits (write_type v) (v ∷ [])
unfolding write_type
write_type-Emits v = put-Emits (v ∷ []) 1 refl

pub write_uint16-Emits : (v : ℕ) → Emits (write_uint16 v) (le_bytes 2 v)
unfolding write_uint16
write_uint16-Emits v = put-Emits (le_bytes 2 v) 2 (length-le_bytes 2 v)

pub write_uint32-Emits : (v : ℕ) → Emits (write_uint32 v) (le_bytes 4 v)
unfolding write_uint32
write_uint32-Emits v = put-Emits (le_bytes 4 v) 4 (length-le_bytes 4 v)

pub write_uint64-Emits : (v : ℕ) → Emits (write_uint64 v) (le_bytes 8 v)
unfolding write_uint64
write_uint64-Emits v = put-Emits (le_bytes 8 v) 8 (length-le_bytes 8 v)

-- The same, with the writes and the bytes read off the two proofs.
infixr 4 ◌⊳◌
pub ◌⊳◌ : {w w' : Write} {a b : List ℕ} → Emits w a → Emits w' b → Emits (w ▸ w') (a ++ b)
◌⊳◌ {w} {w'} {a} {b} first second = then_Emits w w' a b first second
