-- ===== src/Packet/Tests.antt =====
-- Runs of the packet accumulator of channel.go, and the theorem at a concrete input.
use mcgv.Base.{ℕ, arith, ◌≡◌, refl, List, [], ◌∷◌, ok, panic}
use mathlib.Core.List.{flatten}
use mcgv.Packet.{
  new_packet_accumulator, receive, append, drain, next_packet, process_data, take_packet, is_ready,
}
use mcgv.Base.Bytes.{le_bytes, of_le}
use mcgv.Packet.Step.{frame, frames}
use mcgv.Packet.Framing.{receive-frames}

receive_two :
    receive
      ((2 ∷ 0 ∷ []) ∷ (0 ∷ 0 ∷ 7 ∷ 8 ∷ 1 ∷ 0 ∷ 0 ∷ 0 ∷ 9 ∷ 5 ∷ []) ∷ [])
      new_packet_accumulator
    ≡ ok ((7 ∷ 8 ∷ []) ∷ (9 ∷ []) ∷ [], record { buf = 5 ∷ []; current_size = 0 })
unfolding receive append drain next_packet process_data take_packet is_ready of_le
    new_packet_accumulator
receive_two = refl

abbrev two_packets : List (List ℕ)
two_packets = (7 ∷ 8 ∷ []) ∷ (9 ∷ []) ∷ []

-- The first piece ends within the size of the first packet.
abbrev pieces : List (List ℕ)
pieces = (2 ∷ 0 ∷ []) ∷ (0 ∷ 0 ∷ 7 ∷ 8 ∷ 1 ∷ 0 ∷ 0 ∷ 0 ∷ []) ∷ (9 ∷ []) ∷ []

receive-frames_example :
    receive pieces new_packet_accumulator ≡ ok (two_packets, new_packet_accumulator)
unfolding flatten frames frame le_bytes
receive-frames_example =
    receive-frames pieces two_packets ((omega arith, omega arith), ((omega arith, omega arith), tt))
      refl

-- A size of 0 is not accepted.
next_packet_zero : next_packet (record { buf = 0 ∷ 0 ∷ 0 ∷ 0 ∷ []; current_size = 0 }) ≡ panic
unfolding next_packet process_data of_le
next_packet_zero = refl
