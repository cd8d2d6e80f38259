-- ===== src/Packet/Step.antt =====
-- A step of `packetAccumulator` of channel.go: the packet that `data` takes from the bytes it holds.
use mcgv.Base.{ℕ, zero, suc, ◌+◌, ◌^◌, ◌≤◌, ◌<◌, ◌≡◌, ◌⊎◌, refl, sym, ap, ◌∙◌, arith, inl, inr}
use mcgv.Base.{true, false, List, [], ◌∷◌, ◌++◌, none, some, append_assoc}
use mcgv.Base.{ok, ◌>>=◌, leb, ltb, ◌==◌, length, take, drop, All}
use mcgv.Base.{
  length-append, take-of_append, drop-of_append, length-drop, Bool-cases, ltb→lt, ltb→le,
}
use mcgv.Base.Bytes.{le_bytes, of_le, length-le_bytes, of_le-le_bytes}
use mathlib.Core.List.{append_cancel_left}
use mcgv.Packet.{PacketAccumulator, is_ready, process_data, take_packet, next_packet}

-- The size of a packet is a positive int32.
abbrev pub IsPacket : List ℕ → Type 0
IsPacket p = (0 < length p) × (length p < 2 ^ 31)

-- A packet, with its size before it.
unfoldable pub frame : List ℕ → List ℕ
frame p = le_bytes 4 (length p) ++ p

unfoldable pub frames : List (List ℕ) → List ℕ
unfolding frame
frames [] = []
frames (p ∷ ps) = frame p ++ frames ps

-- The bytes of an accumulator whose packets are not taken yet, with the size that it has read.
unfoldable pub unread : PacketAccumulator → List ℕ
unread pa = elim pa.current_size [ zero ↦ pa.buf | suc n ↦ le_bytes 4 (suc n) ++ pa.buf ]

-- The accumulator, and then `rest`, hold just the packets `ps`.
pub record Holds (pa : PacketAccumulator) (rest : List ℕ) (ps : List (List ℕ)) : Type 0 where
  pub bounded : pa.current_size < 2 ^ 31
  pub packets : All IsPacket ps
  pub bytes : unread pa ++ rest ≡ frames ps

-- The outcomes of `data`: it takes the first packet, or it waits for more bytes.
pub data Next (pa : PacketAccumulator) (rest : List ℕ) (ps : List (List ℕ)) : Type 0 where
  got :
      (p : List ℕ) (ps' : List (List ℕ)) (pa' : PacketAccumulator)
      → ps ≡ p ∷ ps'
      → next_packet pa ≡ ok (some p, pa')
      → Holds pa' rest ps'
      → length pa'.buf < length pa.buf
      → Next pa rest ps
  wait :
      (pa' : PacketAccumulator)
      → next_packet pa ≡ ok (none, pa')
      → Holds pa' rest ps
      → (rest ≡ [] → ps ≡ [])
      → Next pa rest ps

pub length-frame : (p q : List ℕ) → length (frame p ++ q) ≡ 4 + length p + length q
unfolding frame
length-frame p q = omega (
  arith,
  length-append (le_bytes 4 (length p) ++ p) q,
  length-append (le_bytes 4 (length p)) p,
  length-le_bytes 4 (length p),
)

-- A size in range is read back from its bytes.
size_read : (n : ℕ) → n < 2 ^ 31 → of_le (le_bytes 4 n) ≡ n
size_read n h = of_le-le_bytes 4 n (omega arith)

-- Fewer bytes than a packet has cannot be all that is left.
too_short : (buf rest p q : List ℕ) → length buf < length p → buf ++ rest ≡ p ++ q → rest ≡ [] → ⊥
too_short buf rest p q h e over =
    omega (arith, length-append buf rest, length-append p q, ap length e, ap length over)

-- The size of the first packet is known.
ready_next :
    (buf rest p : List ℕ) (ps : List (List ℕ))
    → IsPacket p
    → All IsPacket ps
    → buf ++ rest ≡ p ++ frames ps
    → ((is_ready (record { buf = buf; current_size = length p }) >>= take_packet)
          ≡ ok (some p, record { buf = drop (length p) buf; current_size = 0 })
        × (drop (length p) buf ++ rest ≡ frames ps)
        × (length (drop (length p) buf) < length buf))
      ⊎ ((is_ready (record { buf = buf; current_size = length p }) >>= take_packet)
            ≡ ok (none, record { buf = buf; current_size = length p })
          × (rest ≡ [] → ⊥))
unfolding is_ready take_packet
ready_next buf rest p ps small smalls e = elim (Bool-cases (leb (length p) (length buf))) [
  | inl all ↦
      let enough : length p ≤ length buf = ground arith in
      inl (
        rw all (
            ap (λ q. ok (some q, record { buf = drop (length p) buf; current_size = 0 }))
              (take-of_append buf rest p (frames ps) enough e)),
        drop-of_append buf rest p (frames ps) enough e,
        omega (arith, length-drop (length p) buf, small.0),
      )
  | inr part ↦
      let short : length buf < length p = ground arith in
      inr (rw part refl, too_short buf rest p (frames ps) short e)
]

unread_sized :
    (n : ℕ) (buf : List ℕ)
    → 0 < n
    → unread (record { buf = buf; current_size = n }) ≡ le_bytes 4 n ++ buf
unfolding unread
unread_sized zero buf h = absurd (omega arith)
unread_sized (suc n) buf h = refl

-- What is left behind the size of the first packet.
behind_size :
    (front rest p : List ℕ) (ps : List (List ℕ))
    → front ++ rest ≡ frames (p ∷ ps)
    → front ++ rest ≡ le_bytes 4 (length p) ++ (p ++ frames ps)
unfolding frames frame
behind_size front rest p ps e = e ∙ append_assoc (le_bytes 4 (length p)) p (frames ps)

-- From an accumulator that comes to know the size of the first packet, and has `buf` behind it.
sized-Next :
    (pa : PacketAccumulator) (buf rest p : List ℕ) (ps : List (List ℕ))
    → All IsPacket (p ∷ ps)
    → next_packet pa ≡ (is_ready (record { buf = buf; current_size = length p }) >>= take_packet)
    → length buf ≤ length pa.buf
    → buf ++ rest ≡ p ++ frames ps
    → Next pa rest (p ∷ ps)
unfolding frames frame unread
sized-Next pa buf rest p ps small step le e = elim (ready_next buf rest p ps small.0 small.1 e) [
  | inl h ↦
      got p ps (record { buf = drop (length p) buf; current_size = 0 }) refl (step ∙ h.0)
        (record { bounded = omega arith; packets = small.1; bytes = h.1 }) (omega (arith, h.2))
  | inr h ↦
      wait (record { buf = buf; current_size = length p }) (step ∙ h.0)
        (record {
          bounded = small.0.1;
          packets = small;
          bytes =
              ap (λ l. l ++ rest) (unread_sized (length p) buf small.0.0)
              ∙ append_assoc (le_bytes 4 (length p)) buf rest
              ∙ ap (λ l. le_bytes 4 (length p) ++ l) e
              ∙ sym (append_assoc (le_bytes 4 (length p)) p (frames ps));
        })
        (λ over. absurd (h.1 over))
]

same_size :
    (m n : ℕ) (xs ys : List ℕ)
    → m < 2 ^ 31
    → n < 2 ^ 31
    → le_bytes 4 m ++ xs ≡ le_bytes 4 n ++ ys
    → m ≡ n
unfolding le_bytes
same_size m n xs ys hm hn e = sym (size_read m hm) ∙ ap of_le (ap (take 4) e) ∙ size_read n hn

known_step :
    (n : ℕ) (buf : List ℕ)
    → next_packet (record { buf = buf; current_size = suc n })
      ≡ (is_ready (record { buf = buf; current_size = suc n }) >>= take_packet)
unfolding next_packet process_data
known_step n buf = let known : leb (suc n) 0 ≡ false = ground arith in rw known refl

Next-known :
    (n : ℕ) (buf rest : List ℕ) (ps : List (List ℕ))
    → Holds (record { buf = buf; current_size = suc n }) rest ps
    → Next (record { buf = buf; current_size = suc n }) rest ps
unfolding next_packet process_data unread frames
Next-known n buf rest [] h = absurd (
    omega (
      arith,
      ap length h.bytes,
      length-append (le_bytes 4 (suc n) ++ buf) rest,
      length-append (le_bytes 4 (suc n)) buf,
      length-le_bytes 4 (suc n),
    ))
Next-known n buf rest (p ∷ ps) h =
    let behind = behind_size (le_bytes 4 (suc n) ++ buf) rest p ps h.bytes in
    let e : le_bytes 4 (suc n) ++ (buf ++ rest) ≡ le_bytes 4 (length p) ++ (p ++ frames ps) =
      sym (append_assoc (le_bytes 4 (suc n)) buf rest) ∙ behind in
    let size : suc n ≡ length p =
      same_size (suc n) (length p) (buf ++ rest) (p ++ frames ps) h.bounded h.packets.0.1 e in
    sized-Next (record { buf = buf; current_size = suc n }) buf rest p ps h.packets
      (known_step n buf
        ∙ ap (λ k. is_ready (record { buf = buf; current_size = k }) >>= take_packet) size)
      (omega arith)
      (append_cancel_left (le_bytes 4 (suc n)) (buf ++ rest) (p ++ frames ps)
        (e ∙ ap (λ k. le_bytes 4 k ++ (p ++ frames ps)) (sym size)))

first_size :
    (buf rest : List ℕ) (n : ℕ) (q : List ℕ)
    → 4 ≤ length buf
    → n < 2 ^ 31
    → buf ++ rest ≡ le_bytes 4 n ++ q
    → (of_le (take 4 buf) ≡ n) × (drop 4 buf ++ rest ≡ q)
unfolding le_bytes
first_size buf rest n q h small e = (
  ap of_le (take-of_append buf rest (le_bytes 4 n) q h e) ∙ size_read n small,
  drop-of_append buf rest (le_bytes 4 n) q h e,
)

-- The accumulator reads the size of the first packet.
size_step :
    (buf : List ℕ) (n : ℕ)
    → 0 < n
    → n < 2 ^ 31
    → ltb (length buf) 4 ≡ false
    → of_le (take 4 buf) ≡ n
    → next_packet (record { buf = buf; current_size = 0 })
      ≡ (is_ready (record { buf = drop 4 buf; current_size = n }) >>= take_packet)
unfolding next_packet process_data
size_step buf n pos small more size =
    let positive : (n == 0) ≡ false = ground arith in
    let bounded : leb (2 ^ 31) n ≡ false = ground arith in rw (more, size, positive, bounded) refl

Next-unknown :
    (buf rest : List ℕ) (ps : List (List ℕ))
    → Holds (record { buf = buf; current_size = 0 }) rest ps
    → Next (record { buf = buf; current_size = 0 }) rest ps
unfolding next_packet process_data take_packet unread frames
Next-unknown buf rest [] h =
    let none_left : length buf ≡ 0 = omega (arith, ap length h.bytes, length-append buf rest) in
    let few : ltb (length buf) 4 ≡ true = ground arith in
    wait (record { buf = buf; current_size = 0 }) (rw few refl) h (λ over. refl)
Next-unknown buf rest (p ∷ ps) h = elim (Bool-cases (ltb (length buf) 4)) [
  | inl few ↦
      wait (record { buf = buf; current_size = 0 }) (rw few refl) h
        (λ over. absurd (
          omega (
            arith,
            ltb→lt _ _ few,
            ap length over,
            ap length h.bytes,
            length-append buf rest,
            length-frame p (frames ps),
          )))
  | inr more ↦
      let first =
        first_size buf rest (length p) (p ++ frames ps) (ltb→le _ _ more) h.packets.0.1
          (behind_size buf rest p ps h.bytes) in
      sized-Next (record { buf = buf; current_size = 0 }) (drop 4 buf) rest p ps h.packets
        (size_step buf (length p) h.packets.0.0 h.packets.0.1 more first.0)
        (omega (arith, length-drop 4 buf)) first.1
]

pub Next-Holds :
    (pa : PacketAccumulator) (rest : List ℕ) (ps : List (List ℕ))
    → Holds pa rest ps
    → Next pa rest ps
Next-Holds pa rest ps h = go pa.current_size h
  where
    go :
        (n : ℕ)
        → Holds (record { buf = pa.buf; current_size = n }) rest ps
        → Next (record { buf = pa.buf; current_size = n }) rest ps
    go zero h' = Next-unknown pa.buf rest ps h'
    go (suc n) h' = Next-known n pa.buf rest ps h'
