-- ===== src/Object/Written/Final.antt =====
-- The header of an object and its hash code, that `finalize` of binary_object.go writes into the room
-- before the fields.
use mcgv.Base.{ℕ, ◌+◌, ◌-◌, ◌≤◌, ◌≡◌, refl, sym, ap, ◌∙◌, arith, List, [], ◌∷◌, ◌++◌, append_assoc}
use mcgv.Base.{false, ok, ltb, length, take, drop, length-append, length-drop, length-take}
use mcgv.Base.{take-append, drop-append, take-drop, ltb-false}
use mathlib.Core.Path.{subst}
use mcgv.Base.Bytes.{le_bytes, length-le_bytes}
use mcgv.Hash.{slice_hash_code}
use mcgv.Stream.Out.{Out, contents, set_position, hash_code}
use mcgv.Stream.Out.Writes.{IsValid}
use mcgv.Marshal.Types.{binary_object_type, code}
use mcgv.Object.{Marshaller}
use mcgv.Object.Writer.{BinaryWriter, write_header, write_hash}
use mcgv.Object.Header.{Over, Over-end, ◌▹◌, type_Steps, uint8_Steps, uint16_Steps, uint32_Steps}

-- The header before the hash code, and after it.
abbrev pub header_front : ℕ → ℕ → List ℕ
header_front flags type_id =
    (code binary_object_type ∷ []) ++ ((1 ∷ []) ++ (le_bytes 2 flags ++ le_bytes 4 type_id))

abbrev pub header_back : ℕ → ℕ → ℕ → List ℕ
header_back size schema_id offset = le_bytes 4 size ++ (le_bytes 4 schema_id ++ le_bytes 4 offset)

pub length-header_front : (flags type_id : ℕ) → length (header_front flags type_id) ≡ 8
length-header_front flags type_id = omega (
  arith,
  length-append (le_bytes 2 flags) (le_bytes 4 type_id),
  length-le_bytes 2 flags,
  length-le_bytes 4 type_id,
)

pub length-header_back :
    (size schema_id offset : ℕ) → length (header_back size schema_id offset) ≡ 12
length-header_back size schema_id offset = omega (
  arith,
  length-append (le_bytes 4 size) (le_bytes 4 schema_id ++ le_bytes 4 offset),
  length-append (le_bytes 4 schema_id) (le_bytes 4 offset),
  length-le_bytes 4 size,
  length-le_bytes 4 schema_id,
  length-le_bytes 4 offset,
)

-- The stream is moved past `n` bytes of `todo`.
skip_Over :
    (t : Out) (end n p : ℕ) (done todo rest : List ℕ)
    → Over t end done todo rest
    → n ≤ length todo
    → p ≡ length done + n
    → Over (set_position p t) end (done ++ take n todo) (drop n todo) rest
unfolding set_position
skip_Over t end n p done todo rest h le e = record {
  inside = h.inside;
  small = h.small;
  whole =
      h.whole
      ∙ ap (λ l. done ++ (l ++ rest)) (sym (take-drop n todo))
      ∙ ap (λ l. done ++ l) (append_assoc (take n todo) (drop n todo) rest)
      ∙ sym (append_assoc done (take n todo) (drop n todo ++ rest));
  at_done = omega (arith, e, length-append done (take n todo), length-take n todo le);
}

no_more : (l : List ℕ) → length l ≡ 0 → l ≡ []
no_more [] h = refl
no_more (x ∷ l) h = absurd (omega arith)

-- The whole header, but for the hash code: four bytes are left as they are.
pub write_header_lem :
    (m : Marshaller) (w : BinaryWriter) (s : Out) (end : ℕ) (pre junk rest : List ℕ)
    → Over (set_position w.start_pos s) end pre junk rest
    → w.start_pos ≡ length pre
    → length junk ≡ 24
    → (s' : Out) × (gap : List ℕ) × (write_header m w end s ≡ ok s')
      × (length gap ≡ 4)
      × Over s' end
          (pre
            ++ header_front w.flags w.new_meta.type_id
            ++ gap
            ++ header_back (end - w.start_pos) w.schema_bld.schema_id w.offset)
          []
          rest
unfolding write_header
write_header_lem m w s end pre junk rest h start room =
    let front = header_front w.flags w.new_meta.type_id in
    let back = header_back (end - w.start_pos) w.schema_bld.schema_id w.offset in
    let eight = length-header_front w.flags w.new_meta.type_id in
    let twelve = length-header_back (end - w.start_pos) w.schema_bld.schema_id w.offset in
    let (s1, run1, o1) =
      (type_Steps (code binary_object_type)
          ▹ uint8_Steps 1
          ▹ uint16_Steps w.flags
          ▹ uint32_Steps w.new_meta.type_id).run
        (set_position w.start_pos s) end pre junk rest h (omega (arith, eight)) in
    let left = drop (length front) junk in
    let sixteen : length left ≡ 16 = omega (arith, length-drop (length front) junk, eight) in
    let o2 =
      skip_Over s1 end 4 (w.start_pos + 12) (pre ++ front) left rest o1 (omega (arith, sixteen))
        (omega (arith, start, length-append pre front, eight)) in
    let gap = take 4 left in
    let twelve_left : length (drop 4 left) ≡ 12 = omega (arith, length-drop 4 left, sixteen) in
    let (s2, run2, o3) =
      (uint32_Steps (end - w.start_pos)
          ▹ uint32_Steps w.schema_bld.schema_id
          ▹ uint32_Steps w.offset).run
        (set_position (w.start_pos + 12) s1) end (pre ++ front ++ gap) (drop 4 left) rest o2
        (omega (arith, twelve_left, twelve)) in
    (
      s2,
      gap,
      rw run1 run2,
      length-take 4 left (omega (arith, sixteen)),
      subst (λ l. Over s2 end (pre ++ front ++ gap ++ back) l rest)
          (no_more (drop (length back) (drop 4 left))
            (omega (arith, length-drop (length back) (drop 4 left), twelve, twelve_left)))
          o3,
    )

-- The hash code goes into the four bytes, and the stream to the end.
pub write_hash_lem :
    (m : Marshaller) (w : BinaryWriter) (s : Out) (end : ℕ)
    (pre front gap back body footer : List ℕ)
    → Over s end (pre ++ front ++ gap ++ back) [] (body ++ footer)
    → w.start_pos ≡ length pre
    → w.offset ≡ 24 + length body
    → length front ≡ 8
    → length gap ≡ 4
    → length back ≡ 12
    → (s' : Out) × (write_hash m w end s ≡ ok s')
      × IsValid s'
      × (contents s'
          ≡ pre ++ (front ++ (le_bytes 4 (slice_hash_code body) ++ (back ++ (body ++ footer)))))
      × (s'.position ≡ end)
unfolding write_hash hash_code set_position contents
write_hash_lem m w s end pre front gap back body footer h start offset eight four twelve =
    let done = pre ++ front ++ gap ++ back in
    let tail = drop end s.buffer in
    let total = Over-end s end done [] (body ++ footer) h in
    let length_done : length done ≡ length pre + 24 = omega (
      arith,
      length-append (pre ++ front ++ gap) back,
      length-append (pre ++ front) gap,
      length-append pre front,
      eight,
      four,
      twelve,
    ) in
    let bytes : s.buffer ≡ done ++ (body ++ (footer ++ tail)) =
      sym (take-drop end s.buffer)
      ∙ ap (λ l. l ++ tail) h.whole
      ∙ append_assoc done (body ++ footer) tail
      ∙ ap (λ l. done ++ l) (append_assoc body footer tail) in
    let from : drop (w.start_pos + 24) s.buffer ≡ body ++ (footer ++ tail) =
      ap (drop (w.start_pos + 24)) bytes
      ∙ drop-append done (body ++ (footer ++ tail)) (w.start_pos + 24)
          (omega (arith, start, length_done)) in
    let hashed : take (w.start_pos + w.offset - (w.start_pos + 24))
          (drop (w.start_pos + 24) s.buffer)
        ≡ body =
      ap (take (w.start_pos + w.offset - (w.start_pos + 24))) from
      ∙ take-append body (footer ++ tail) (w.start_pos + w.offset - (w.start_pos + 24))
          (omega (arith, offset)) in
    let split = length-append body footer in
    let low : ltb (length s.buffer) (w.start_pos + 24) ≡ false =
      ltb-false _ _ (omega (arith, h.inside, total, start, length_done)) in
    let high : ltb (length s.buffer) (w.start_pos + w.offset) ≡ false =
      ltb-false _ _ (omega (arith, h.inside, total, start, offset, length_done, split)) in
    let order : ltb (w.start_pos + w.offset) (w.start_pos + 24) ≡ false =
      ltb-false _ _ (omega (arith, offset)) in
    let value = le_bytes 4 (slice_hash_code body) in
    let o : Over (record s { position = w.start_pos + 8 }) end (pre ++ front) gap
        (back ++ (body ++ footer)) =
      record {
        inside = h.inside;
        small = h.small;
        whole =
            h.whole
            ∙ append_assoc (pre ++ front ++ gap) back (body ++ footer)
            ∙ append_assoc (pre ++ front) gap (back ++ (body ++ footer));
        at_done = omega (arith, start, length-append pre front, eight);
      } in
    let (s', run, o') =
      (uint32_Steps (slice_hash_code body)).run (record s { position = w.start_pos + 8 }) end
        (pre ++ front) gap (back ++ (body ++ footer)) o
        (omega (arith, four, length-le_bytes 4 (slice_hash_code body))) in
    (
      record s' { position = end },
      rw (low, high, order, hashed) (rw run refl),
      record { inside = o'.inside; small = o'.small },
      o'.whole
          ∙ ap (λ l. pre ++ front ++ value ++ (l ++ (back ++ (body ++ footer))))
              (no_more (drop (length value) gap) (
                omega (
                  arith,
                  length-drop (length value) gap,
                  four,
                  length-le_bytes 4 (slice_hash_code body),
                )))
          ∙ append_assoc (pre ++ front) value (back ++ (body ++ footer))
          ∙ append_assoc pre front (value ++ (back ++ (body ++ footer))),
      refl,
    )
