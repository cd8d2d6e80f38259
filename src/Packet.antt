-- ===== src/Packet.antt =====
-- `packetAccumulator` of channel.go, which cuts the packets out of the bytes that the socket gives, and
-- the loop of `readLoop` over them. The bytes of the `bytes.Buffer` that are not read yet are a list;
-- that `data` sometimes replaces a large buffer by a new one does not change them.
pub mod Step
pub mod Framing
mod Tests
use mcgv.Base.{
  ℕ, zero, suc, ◌+◌, ◌^◌, Bool, true, false, ◌||◌, List, [], ◌∷◌, ◌++◌, Option, none, some,
}
use mcgv.Base.{Result, ok, panic, stuck, ◌>>=◌, leb, ltb, ◌==◌, if◌then◌else◌, length, take, drop}
use mcgv.Base.Bytes.{of_le}

-- `current_size` is 0 while the size of the next packet is not known; the code stores no negative size.
pub record PacketAccumulator : Type 0 where
  pub buf : List ℕ
  pub current_size : ℕ

-- What an operation gives, with the accumulator it leaves; no operation returns an error.
abbrev pub Outcome {ℓ} : Type ℓ → Type ℓ
Outcome A = Result (Unit {0}) (A × PacketAccumulator)

-- `newPacketAccumulator`
unfoldable pub new_packet_accumulator : PacketAccumulator
new_packet_accumulator = record { buf = []; current_size = 0 }

unfoldable pub append : PacketAccumulator → List ℕ → PacketAccumulator
append pa bytes = record pa { buf = pa.buf ++ bytes }

-- `return pa.buf.Len() >= size`
unfoldable pub is_ready : PacketAccumulator → Outcome Bool
is_ready pa = ok (leb pa.current_size (length pa.buf), pa)

-- `processData`. A size is an int32, so a pattern from 2 ^ 31 on is negative.
unfoldable pub process_data : PacketAccumulator → Outcome Bool
unfolding is_ready of_le
process_data pa =
    let size = of_le (take 4 pa.buf) in
    if leb pa.current_size 0
    then if ltb (length pa.buf) 4
      then ok (false, pa)
      else if size == 0 || leb (2 ^ 31) size
      then panic
      else is_ready (record { buf = drop 4 pa.buf; current_size = size })
    else is_ready pa

-- The rest of `data`, on what `processData` returned.
unfoldable pub take_packet : Bool × PacketAccumulator → Outcome (Option (List ℕ))
take_packet (false, pa) = ok (none, pa)
take_packet (true, pa) = ok (
  some (take pa.current_size pa.buf),
  record { buf = drop pa.current_size pa.buf; current_size = 0 },
)

-- `data`
unfoldable pub next_packet : PacketAccumulator → Outcome (Option (List ℕ))
unfolding process_data take_packet
next_packet pa = process_data pa >>= take_packet

-- The inner loop of `readLoop`: the packets until `data` returns nil. Each takes one of the fuel.
unfoldable pub drain : ℕ → PacketAccumulator → Outcome (List (List ℕ))
unfolding next_packet
drain zero pa = stuck
drain (suc fuel) pa = next_packet pa >>= λ (found, pa').
    let rest = drain fuel pa' in
    elim found [ none ↦ ok ([], pa') | some p ↦ rest >>= λ (ps, pa''). ok (p ∷ ps, pa'') ]

-- `readLoop`, on the pieces that the socket reads one after another.
unfoldable pub receive : List (List ℕ) → PacketAccumulator → Outcome (List (List ℕ))
unfolding append drain
receive [] pa = ok ([], pa)
receive (piece ∷ pieces) pa =
    drain (suc (length pa.buf + length piece)) (append pa piece) >>= λ (ps, pa').
    receive pieces pa' >>= λ (qs, pa''). ok (ps ++ qs, pa'')
