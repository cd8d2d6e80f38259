-- ===== src/Request/Framing.antt =====
-- What `newRequest` of channel.go sends.
use mcgv.Base.{ℕ, ◌+◌, ◌-◌, ◌%◌, ◌^◌, ◌≤◌, ◌<◌, ◌≡◌, refl, sym, ap, ◌∙◌, arith, inl, inr}
use mcgv.Base.{
  false, List, [], ◌++◌, append_assoc, Result, ok, err, panic, stuck, ◌>>=◌, ltb, leb, ◌==◌,
}
use mcgv.Base.{
  if◌then◌else◌, length, take, drop, Bool-cases, length-append, take-append, take-drop, drop-append,
}
use mcgv.Base.Bytes.{le_bytes, length-le_bytes}
use mcgv.Stream.Types.{Error}
use mcgv.Stream.Out.{
  Out, Write, ◌▸◌, new_output_stream, contents, set_position, write_uint32, max_int32,
  ensure_available, put,
}
use mcgv.Stream.Out.Writes.{
  ◌⊳◌, Emits, IsValid, skip_Emits, new-IsValid, write_uint16-Emits, write_uint32-Emits,
  write_uint64-Emits,
}
use mcgv.Packet.Step.{frame}
use mcgv.Request.{handshake_id, write_head, write_size, new_request}

-- The bytes before the body of a request.
abbrev pub head : ℕ → ℕ → List ℕ
head id op_code = if id == handshake_id then [] else (le_bytes 2 op_code ++ le_bytes 8 id)

write_head-Emits : (id op_code : ℕ) → Emits (write_head id op_code) (head id op_code)
unfolding write_head
write_head-Emits id op_code = elim (Bool-cases (id == handshake_id)) [
  | inl e ↦ rw e skip_Emits
  | inr e ↦ rw e (write_uint16-Emits op_code ⊳ write_uint64-Emits id)
]

-- The first four bytes are replaced by others.
patched :
    (buf size zeros bytes : List ℕ) (k n : ℕ)
    → k ≡ 4
    → length size ≡ 4
    → length zeros ≡ 4
    → n ≡ 4 + length bytes
    → take n buf ≡ zeros ++ bytes
    → take n (size ++ drop k buf) ≡ size ++ bytes
patched buf size zeros bytes k n this four four' total e =
    let tail : drop k buf ≡ bytes ++ drop n buf =
      ap (drop k) (
        sym (take-drop n buf) ∙ ap (λ l. l ++ drop n buf) e ∙ append_assoc zeros bytes (drop n buf))
      ∙ drop-append zeros (bytes ++ drop n buf) k (this ∙ sym four') in
    ap (λ l. take n (size ++ l)) tail
    ∙ ap (take n) (sym (append_assoc size bytes (drop n buf)))
    ∙ take-append (size ++ bytes) (drop n buf) n (omega (arith, length-append size bytes))

-- The size replaces the first four bytes of the contents.
write_size_lem :
    (s : Out) (bytes : List ℕ)
    → IsValid s
    → contents s ≡ le_bytes 4 0 ++ bytes
    → s.position ≡ 4 + length bytes
    → (write_size s >>= λ s'. ok (contents s')) ≡ ok (frame bytes)
unfolding write_size write_uint32 ensure_available put contents set_position frame
write_size_lem s bytes v e at_end =
    let room : ltb (length s.buffer) 4 ≡ false = ground (arith, v.inside) in
    let size : (s.position + 2 ^ 32 - 4) % 2 ^ 32 ≡ length bytes = omega (arith, v.small) in
    rw (room, size)
      (ap ok (
        patched s.buffer (le_bytes 4 (length bytes)) (le_bytes 4 0) bytes _ s.position
          (omega (arith, length-le_bytes 4 (length bytes))) (length-le_bytes 4 _)
          (length-le_bytes 4 0) at_end e))

pub bind_assoc :
    (m : Result Error Out) (f : Write) (g : Write) → ((m >>= f) >>= g) ≡ (m >>= λ a. (f a >>= g))
bind_assoc (ok a) f g = refl
bind_assoc (err e) f g = refl
bind_assoc panic f g = refl
bind_assoc stuck f g = refl

last_apart : (m : Result Error Out) (h r z : Write) → (m >>= (h ▸ r ▸ z)) ≡ ((m >>= (h ▸ r)) >>= z)
last_apart (ok a) h r z = sym (bind_assoc (h a) r z)
last_apart (err e) h r z = refl
last_apart panic h r z = refl
last_apart stuck h r z = refl

-- All but the end of `newRequest`.
body-Emits :
    (id op_code : ℕ) (request_writer : Write) (body : List ℕ)
    → Emits request_writer body
    → Emits
        (write_uint32 0 ▸ write_head id op_code ▸ request_writer)
        (le_bytes 4 0 ++ (head id op_code ++ body))
body-Emits id op_code request_writer body h = write_uint32-Emits 0 ⊳ write_head-Emits id op_code ⊳ h

-- A request whose writer appends `body` is the frame of its head and `body`, if that fits a stream;
-- otherwise `newRequest` panics.
pub new_request-frame :
    (id op_code : ℕ) (request_writer : Write) (body : List ℕ)
    → Emits request_writer body
    → new_request id op_code request_writer ≡ (
        if leb (4 + length (head id op_code ++ body)) max_int32
        then ok (frame (head id op_code ++ body))
        else panic)
unfolding new_request new_output_stream contents
new_request-frame id op_code request_writer body h =
    let start = new_output_stream 64 in
    let e = body-Emits id op_code request_writer body h in
    let bytes = head id op_code ++ body in
    let total = length-append (le_bytes 4 0) bytes in
    let apart =
      last_apart (write_uint32 0 start) (write_head id op_code) request_writer write_size in
    elim (Bool-cases (leb (4 + length bytes) max_int32)) [
      | inl small ↦
          let room : 4 + length bytes ≤ max_int32 = ground arith in
          let (s, run, app) =
            e.fits start (new-IsValid 64) (omega (arith, total, length-le_bytes 4 0)) in
          rw small (
            ap (λ r. r >>= λ t. ok (contents t)) (apart ∙ ap (λ r. r >>= write_size) run)
            ∙ write_size_lem s bytes app.valid app.grown
                (omega (arith, app.moved, total, length-le_bytes 4 0)))
      | inr large ↦
          let over : max_int32 < 4 + length bytes = ground arith in
          let run =
            e.overflows start (new-IsValid 64) (omega (arith, total, length-le_bytes 4 0)) in
          rw large (ap (λ r. r >>= λ t. ok (contents t)) (apart ∙ ap (λ r. r >>= write_size) run))
    ]
