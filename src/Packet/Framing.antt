-- ===== src/Packet/Framing.antt =====
-- What `readLoop` of channel.go takes out of a stream of packets that arrives in pieces.
use mcgv.Base.{ℕ, zero, suc, ◌+◌, ◌<◌, ◌≡◌, refl, sym, ap, ◌∙◌, arith}
use mcgv.Base.{List, [], ◌∷◌, ◌++◌, append_assoc, append-nil}
use mcgv.Base.{ok, length, All}
use mcgv.Base.{length-append}
use mcgv.Base.Bytes.{le_bytes, length-le_bytes}
use mathlib.Core.List.{flatten}
use mcgv.Packet.{PacketAccumulator, new_packet_accumulator, append, drain, receive}
use mcgv.Packet.Step.{IsPacket, frames, unread, Holds, got, wait, length-frame, Next-Holds}

-- What the inner loop of `readLoop` leaves: it took some packets, and waits for the others.
record Drained (fuel : ℕ) (pa : PacketAccumulator) (rest : List ℕ) (ps : List (List ℕ))
    : Type 0 where
  taken : List (List ℕ)
  later : List (List ℕ)
  after : PacketAccumulator
  run : drain fuel pa ≡ ok (taken, after)
  split : ps ≡ taken ++ later
  holds : Holds after rest later
  over : rest ≡ [] → later ≡ []

drain-Holds :
    (fuel : ℕ) (pa : PacketAccumulator) (rest : List ℕ) (ps : List (List ℕ))
    → length pa.buf < fuel
    → Holds pa rest ps
    → Drained fuel pa rest ps
unfolding drain
drain-Holds zero pa rest ps enough h = absurd (omega arith)
drain-Holds (suc fuel) pa rest ps enough h = elim (Next-Holds pa rest ps h) [
  | got p ps' pa' first step h' less ↦
      let d = drain-Holds fuel pa' rest ps' (omega arith) h' in
      record {
        taken = p ∷ d.taken;
        later = d.later;
        after = d.after;
        run = rw (step, d.run) refl;
        split = first ∙ ap (λ qs. p ∷ qs) d.split;
        holds = d.holds;
        over = d.over;
      }
  | wait pa' step h' over ↦ record {
    taken = [];
    later = ps;
    after = pa';
    run = rw step refl;
    split = refl;
    holds = h';
    over = over;
  }
]

append-Holds :
    (pa : PacketAccumulator) (piece rest : List ℕ) (ps : List (List ℕ))
    → Holds pa (piece ++ rest) ps
    → Holds (append pa piece) rest ps
unfolding append unread
append-Holds pa piece rest ps h = go pa.current_size h
  where
    go :
        (n : ℕ)
        → Holds (record { buf = pa.buf; current_size = n }) (piece ++ rest) ps
        → Holds (record { buf = pa.buf ++ piece; current_size = n }) rest ps
    go zero h' = record {
      bounded = h'.bounded;
      packets = h'.packets;
      bytes = append_assoc pa.buf piece rest ∙ h'.bytes;
    }
    go (suc n) h' = record {
      bounded = h'.bounded;
      packets = h'.packets;
      bytes =
          ap (λ l. l ++ rest) (sym (append_assoc (le_bytes 4 (suc n)) pa.buf piece))
          ∙ append_assoc (le_bytes 4 (suc n) ++ pa.buf) piece rest
          ∙ h'.bytes;
    }

-- Nothing is left.
spent : (pa : PacketAccumulator) → Holds pa [] [] → pa ≡ new_packet_accumulator
unfolding unread frames new_packet_accumulator
spent pa h = go pa.current_size pa.buf h
  where
    go :
        (n : ℕ) (buf : List ℕ)
        → Holds (record { buf = buf; current_size = n }) [] []
        → record { buf = buf; current_size = n } ≡ new_packet_accumulator
    go zero buf h' =
        ap (λ l. record { buf = l; current_size = 0 }) (sym (append-nil buf) ∙ h'.bytes)
    go (suc n) buf h' = absurd (
        omega (
          arith,
          ap length h'.bytes,
          length-append (le_bytes 4 (suc n) ++ buf) [],
          length-append (le_bytes 4 (suc n)) buf,
          length-le_bytes 4 (suc n),
        ))

receive-Holds :
    (pieces : List (List ℕ)) (pa : PacketAccumulator) (ps : List (List ℕ))
    → Holds pa (flatten pieces) ps
    → (flatten pieces ≡ [] → ps ≡ [])
    → receive pieces pa ≡ ok (ps, new_packet_accumulator)
unfolding receive append flatten
receive-Holds [] pa ps h over =
    let none_left = over refl in
    ap (λ q. ok ([], q)) (spent pa (rw none_left at h))
    ∙ ap (λ qs. ok (qs, new_packet_accumulator)) (sym none_left)
receive-Holds (piece ∷ pieces) pa ps h over =
    let d =
      drain-Holds (suc (length pa.buf + length piece)) (append pa piece) (flatten pieces) ps
        (omega (arith, length-append pa.buf piece)) (append-Holds pa piece (flatten pieces) ps h) in
    rw (d.run, receive-Holds pieces d.after d.later d.holds d.over)
      (ap (λ qs. ok (qs, new_packet_accumulator)) (sym d.split))

-- However the bytes of a sequence of packets arrive in pieces, `readLoop` takes out just these packets
-- in their order, without a panic, and the accumulator is as new. Each packet has 1 to 2 ^ 31 - 1 bytes.
pub receive-frames :
    (pieces ps : List (List ℕ))
    → All IsPacket ps
    → flatten pieces ≡ frames ps
    → receive pieces new_packet_accumulator ≡ ok (ps, new_packet_accumulator)
unfolding new_packet_accumulator unread frames
receive-frames pieces ps small e =
    receive-Holds pieces new_packet_accumulator ps
      (record { bounded = omega arith; packets = small; bytes = e })
      (λ over. no_frames ps (sym e ∙ over))
  where
    no_frames : (qs : List (List ℕ)) → frames qs ≡ [] → qs ≡ []
    no_frames [] h = refl
    no_frames (q ∷ qs) h = absurd (omega (arith, ap length h, length-frame q (frames qs)))
