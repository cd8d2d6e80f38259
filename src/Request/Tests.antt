-- ===== src/Request/Tests.antt =====
-- A request of channel.go, and the theorem at a concrete input.
use mcgv.Base.{◌+◌, ◌≡◌, refl, [], ◌∷◌, ◌++◌, ok, panic, leb, length, if◌then◌else◌}
use mcgv.Base.Bytes.{le_bytes}
use mcgv.Stream.Out.{max_int32, write_uint64}
use mcgv.Stream.Out.Writes.{write_uint64-Emits}
use mcgv.Packet.Step.{frame}
use mcgv.Request.{new_request}
use mcgv.Request.Framing.{head, new_request-frame}

-- The request for the next page of a cursor: its operation is 2001, and the cursor is 5.
new_request-frame_example : new_request 2 2001 (write_uint64 5) ≡ (
    if leb (4 + length (head 2 2001 ++ le_bytes 8 5)) max_int32
    then ok (frame (head 2 2001 ++ le_bytes 8 5))
    else panic)
new_request-frame_example =
    new_request-frame 2 2001 (write_uint64 5) (le_bytes 8 5) (write_uint64-Emits 5)

-- The bytes of it.
page_request :
    frame (head 2 2001 ++ le_bytes 8 5)
    ≡ 18 ∷ 0 ∷ 0 ∷ 0 ∷ 209 ∷ 7 ∷ 2 ∷ 0 ∷ 0 ∷ 0 ∷ 0 ∷ 0 ∷ 0 ∷ 0 ∷ 5 ∷ 0 ∷ 0 ∷ 0 ∷ 0 ∷ 0 ∷ 0 ∷ 0 ∷ []
unfolding frame le_bytes
page_request = refl
