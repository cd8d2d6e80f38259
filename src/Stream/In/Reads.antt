-- ===== src/Stream/In/Reads.antt =====
-- The contract of the input stream of buffer.go: a read takes its bytes from the front of what is
-- left, and gives what they stand for.
use mcgv.Base.{ℕ, ◌+◌, ◌-◌, ◌*◌, ◌%◌, ◌^◌, ◌≤◌, ◌<◌, ◌≡◌, refl, sym, ap, ◌∙◌}
use mcgv.Base.{Bool, true, false, List, [], ◌∷◌, ◌++◌, append_assoc, append-nil, arith}
use mcgv.Base.{◌==◌, ltb, leb, if◌then◌else◌, length, drop, All}
use mcgv.Base.{ok, err, length-append, length-drop, take-append, drop-append}
use mcgv.Base.{drop-add}
use mathlib.Core.Path.{subst}
use mcgv.Base.Bytes.{le_bytes, length-le_bytes, of_le-le_bytes}
use mcgv.Base.Int.{ℤ, pos, signed}
use mcgv.Stream.Types.{Elem, bools, int8s, elem_bytes, little, of_memory, invalid_stream}
use mcgv.Stream.Out.Slices.{slice_bytes, length-slice_bytes}
use mcgv.Stream.In.{
  In, Read, ◌>>>◌, return, new_input_stream, read_le, read_bool, read_uint8, read_uint16,
  read_uint32, read_uint64, read_size, read_bytes, elements, read_primitive_slice_fast, read_slice,
  ensure_available, with_room,
}

-- What is left to read.
pub record Shows (s : In) (bytes : List ℕ) : Type 0 where
  pub inside : s.position ≤ length s.buffer
  pub left : drop s.position s.buffer ≡ bytes

abbrev pub advance : ℕ → In → In
advance n s = record s { position = s.position + n }

-- `m` takes `bytes` from any stream that starts with them, and returns `a`.
pub record Reads {ℓ} {A : Type ℓ} (m : Read A) (bytes : List ℕ) (a : A) : Type ℓ where
  pub result :
      (s : In) (rest : List ℕ) → Shows s (bytes ++ rest) → m s ≡ ok (a, advance (length bytes) s)

-- Whatever is read, the stream then shows the rest.
pub advance-Shows :
    (s : In) (bytes rest : List ℕ) → Shows s (bytes ++ rest) → Shows (advance (length bytes) s) rest
advance-Shows s bytes rest h = record {
  inside = omega (arith, h.inside, room);
  left =
      sym (drop-add s.position (length bytes) s.buffer)
      ∙ ap (λ l. drop (length bytes) l) h.left
      ∙ drop-append bytes rest (length bytes) refl;
}
  where
    room : s.position + length bytes ≤ length s.buffer
    room = omega (
      arith,
      h.inside,
      ap (λ (l : List ℕ). length l) h.left,
      length-drop s.position s.buffer,
      length-append bytes rest,
    )

pub Shows-room :
    (s : In) (bytes : List ℕ) → Shows s bytes → s.position + length bytes ≡ length s.buffer
Shows-room s bytes h =
    omega (arith, h.inside, ap (λ (l : List ℕ). length l) h.left, length-drop s.position s.buffer)

pub new-Shows : (bytes : List ℕ) → Shows (new_input_stream bytes 0) bytes
unfolding new_input_stream
new-Shows bytes = record { inside = omega arith; left = refl }

pub return-Reads {ℓ} : {A : Type ℓ} (a : A) → Reads (return a) [] a
return-Reads a = record {
  result = λ s rest h. ap (λ (n : ℕ). ok (a, record s { position = n })) (omega arith);
}

pub then_Reads {ℓ κ} :
    {A : Type ℓ} {B : Type κ} (m : Read A) (f : A → Read B) (b c : List ℕ) (x : A) (y : B)
    → Reads m b x
    → Reads (f x) c y
    → Reads (m >>> f) (b ++ c) y
then_Reads m f b c x y h k = record {
  result = λ s rest shows.
      let shows' : Shows s (b ++ (c ++ rest)) = record {
        inside = shows.inside;
        left = shows.left ∙ append_assoc b c rest;
      } in
      let second = k.result (advance (length b) s) rest (advance-Shows s b (c ++ rest) shows') in
      rw (h.result s (c ++ rest) shows') (
        second
        ∙ ap (λ (n : ℕ). ok (y, record s { position = n })) (omega (arith, length-append b c)));
}

pub map_Reads {ℓ κ} :
    {A : Type ℓ} {B : Type κ} (m : Read A) (f : A → B) (b : List ℕ) (x : A)
    → Reads m b x
    → Reads (m >>> λ a. return (f a)) b (f x)
map_Reads m f b x h = record { result = λ s rest shows. rw (h.result s rest shows) refl }

-- The check for available bytes passes if the bytes to be read are there.
pub room_Reads {ℓ} :
    {A : Type ℓ} (n : ℕ) (m : Read A) (b : List ℕ) (x : A)
    → n ≤ length b
    → Reads m b x
    → Reads (with_room (pos n) m) b x
unfolding ensure_available
room_Reads n m b x le h = record {
  result = λ s rest shows.
      let enough : leb (s.position + n) (length s.buffer) ≡ true =
        ground (arith, Shows-room s (b ++ rest) shows, length-append b rest) in
      rw enough (h.result s rest shows);
}

-- The check fails with an error, and nothing is read, if fewer bytes are left.
pub room_fails {ℓ} :
    {A : Type ℓ} (n : ℕ) (m : Read A) (s : In) (bytes : List ℕ)
    → Shows s bytes
    → length bytes < n
    → with_room (pos n) m s ≡ err invalid_stream
unfolding ensure_available
room_fails n m s bytes shows lt =
    let short : leb (s.position + n) (length s.buffer) ≡ false =
      ground (arith, Shows-room s bytes shows) in
    rw short

pub le_Reads : (n v : ℕ) → v < 256 ^ n → Reads (read_le n) (le_bytes n v) v
unfolding read_le
le_Reads n v h = record {
  result = λ s rest shows.
      let count = length-le_bytes n v in
      let enough : leb (s.position + n) (length s.buffer) ≡ true = ground (
        arith,
        Shows-room s (le_bytes n v ++ rest) shows,
        length-append (le_bytes n v) rest,
        count,
      ) in
      rw
        (
          enough,
          shows.left,
          take-append (le_bytes n v) rest n (sym count),
          of_le-le_bytes n v h,
          count,
        )
        refl;
}

pub uint8_Reads : (v : ℕ) → v < 256 → Reads read_uint8 (v ∷ []) v
unfolding read_uint8 le_bytes
uint8_Reads v h =
    let byte : v % 256 ≡ v = omega arith in
    subst (λ (b : ℕ). Reads (read_le 1) (b ∷ []) v) byte (le_Reads 1 v (omega arith))

pub uint16_Reads : (v : ℕ) → v < 2 ^ 16 → Reads read_uint16 (le_bytes 2 v) v
unfolding read_uint16
uint16_Reads v h = le_Reads 2 v h

pub uint32_Reads : (v : ℕ) → v < 2 ^ 32 → Reads read_uint32 (le_bytes 4 v) v
unfolding read_uint32
uint32_Reads v h = le_Reads 4 v h

pub uint64_Reads : (v : ℕ) → v < 2 ^ 64 → Reads read_uint64 (le_bytes 8 v) v
unfolding read_uint64
uint64_Reads v h = le_Reads 8 v h

pub bool_Reads : (v : Bool) → Reads read_bool ((if v then 1 else 0) ∷ []) v
unfolding read_bool read_uint8
bool_Reads true = map_Reads (read_le 1) (λ b. b == 1) (1 ∷ []) 1 (uint8_Reads 1 (omega arith))
bool_Reads false = map_Reads (read_le 1) (λ b. b == 1) (0 ∷ []) 0 (uint8_Reads 0 (omega arith))

pub size_Reads : (n : ℕ) → n < 2 ^ 31 → Reads read_size (le_bytes 4 n) (pos n)
unfolding read_size
size_Reads n h =
    let positive : signed 32 n ≡ pos n = ground arith in
    subst (λ (z : ℤ). Reads read_size (le_bytes 4 n) z) positive
      (map_Reads read_uint32 (signed 32) (le_bytes 4 n) n (uint32_Reads n (omega arith)))

pub bytes_Reads : (v : List ℕ) → Reads (read_bytes (pos (length v))) v v
unfolding read_bytes
bytes_Reads v = record {
  result = λ s rest shows.
      let inside : ltb (length s.buffer) s.position ≡ false = ground (arith, shows.inside) in
      let none_missing : length v - length v ≡ 0 = omega arith in
      rw (inside, shows.left, take-append v rest (length v) refl, none_missing, append-nil v) refl;
}

elements-slice_bytes :
    (n : ℕ) (vs rest : List ℕ)
    → All (λ v. v < 256 ^ n) vs
    → elements little n (length vs) (slice_bytes n vs ++ rest) ≡ vs
unfolding elements of_memory
elements-slice_bytes n [] rest h = refl
elements-slice_bytes n (v ∷ vs) rest h =
    let n_bytes = sym (length-le_bytes n v) in
    let split = append_assoc (le_bytes n v) (slice_bytes n vs) rest in
    rw (
      split,
      take-append (le_bytes n v) (slice_bytes n vs ++ rest) n n_bytes,
      drop-append (le_bytes n v) (slice_bytes n vs ++ rest) n n_bytes,
      of_le-le_bytes n v h.0,
      elements-slice_bytes n vs rest h.1,
    )

-- On a little-endian machine the fast path reads what the loop of the writer wrote.
pub fast_Reads :
    (n v : ℕ) (vs : List ℕ)
    → All (λ v. v < 256 ^ n) (v ∷ vs)
    → Reads
        (read_primitive_slice_fast little n (pos (length (v ∷ vs))))
        (slice_bytes n (v ∷ vs))
        (v ∷ vs)
unfolding read_primitive_slice_fast
fast_Reads n v vs h = record {
  result = λ s rest shows.
      let count = length-slice_bytes n (v ∷ vs) in
      let enough : leb (s.position + length (v ∷ vs) * n) (length s.buffer) ≡ true = ground (
        arith,
        Shows-room s (slice_bytes n (v ∷ vs) ++ rest) shows,
        length-append (slice_bytes n (v ∷ vs)) rest,
        count,
      ) in
      rw (enough, shows.left) (rw (elements-slice_bytes n (v ∷ vs) rest h, count) refl);
}

-- On a little-endian machine, the reader of a slice that is not empty reads elements in range
-- that were written in little-endian order, whatever follows them.
pub slice_Reads :
    (el : Elem) (v : ℕ) (vs : List ℕ)
    → All (λ v. v < 256 ^ elem_bytes el) (v ∷ vs)
    → Reads
        (read_slice little el (pos (length (v ∷ vs))))
        (slice_bytes (elem_bytes el) (v ∷ vs))
        (v ∷ vs)
unfolding read_slice
slice_Reads bools v vs h = fast_Reads 1 v vs h
slice_Reads int8s v vs h = fast_Reads 1 v vs h
slice_Reads el v vs h = fast_Reads (elem_bytes el) v vs h

-- The same, with the parts read off the proofs.
pub bind_Reads {ℓ κ} :
    {A : Type ℓ} {B : Type κ} {m : Read A} {b c : List ℕ} {x : A} {y : B} (f : A → Read B)
    → Reads m b x
    → Reads (f x) c y
    → Reads (m >>> f) (b ++ c) y
bind_Reads {m = m} {b = b} {c = c} {x = x} {y = y} f h k = then_Reads m f b c x y h k
