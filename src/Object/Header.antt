-- ===== src/Object/Header.antt =====
-- Writing over bytes that are in the stream already, as `finalize` of binary_object.go does with the
-- header of an object.
use mcgv.Base.{ℕ, ◌+◌, ◌≤◌, ◌≡◌, refl, sym, ap, ◌∙◌, arith, List, [], ◌∷◌, ◌++◌, append_assoc}
use mcgv.Base.{
  ok, ◌>>=◌, ltb, false, length, take, drop, length-append, length-take, length-drop, take-append,
}
use mcgv.Base.{drop-append, drop-append_le, take-drop, ltb-false, drop-add}
use mcgv.Base.Bytes.{le_bytes, length-le_bytes}
use mcgv.Stream.Out.{
  Out, Write, ◌▸◌, max_int32, ensure_available, put, write_uint8, write_uint16, write_uint32,
  write_type,
}

-- Up to `end` the stream holds `done`, then `todo`, then `rest`, and it is at the end of `done`.
pub record Over (t : Out) (end : ℕ) (done todo rest : List ℕ) : Type 0 where
  pub inside : end ≤ length t.buffer
  pub small : end ≤ max_int32
  pub whole : take end t.buffer ≡ done ++ (todo ++ rest)
  pub at_done : t.position ≡ length done

-- The bytes that `todo` and `rest` end at.
pub Over-end :
    (t : Out) (end : ℕ) (done todo rest : List ℕ)
    → Over t end done todo rest
    → end ≡ length done + (length todo + length rest)
Over-end t end done todo rest h =
    sym (length-take end t.buffer h.inside)
    ∙ ap length h.whole
    ∙ omega (arith, length-append done (todo ++ rest), length-append todo rest)

-- The two ways to bracket four and five pieces.
pub regroup : (a b c d : List ℕ) → a ++ (b ++ c) ++ d ≡ a ++ (b ++ (c ++ d))
regroup a b c d = append_assoc a (b ++ c) d ∙ ap (λ l. a ++ l) (append_assoc b c d)

-- The stream after `w` is put over the front of `todo`.
module _ (t : Out) (end n : ℕ) (w done todo rest : List ℕ) (h : Over t end done todo rest)
    (e : length w ≡ n) (le : n ≤ length todo) where
  put_buffer : (put w t).buffer ≡ done ++ w ++ (drop n todo ++ rest) ++ drop end t.buffer
  unfolding put
  put_buffer =
      let tail = drop end t.buffer in
      let buffer : t.buffer ≡ done ++ (todo ++ (rest ++ tail)) =
        sym (take-drop end t.buffer) ∙ ap (λ l. l ++ tail) h.whole ∙ regroup done todo rest tail in
      let front : take t.position t.buffer ≡ done =
        ap (take t.position) buffer
        ∙ take-append done (todo ++ (rest ++ tail)) t.position h.at_done in
      let past : drop t.position t.buffer ≡ todo ++ (rest ++ tail) =
        ap (drop t.position) buffer
        ∙ drop-append done (todo ++ (rest ++ tail)) t.position h.at_done in
      let back : drop (t.position + length w) t.buffer ≡ drop n todo ++ (rest ++ tail) =
        ap (λ k. drop (t.position + k) t.buffer) e
        ∙ sym (drop-add t.position n t.buffer)
        ∙ ap (drop n) past
        ∙ drop-append_le todo (rest ++ tail) n le in
      ap (λ l. l ++ (w ++ drop (t.position + length w) t.buffer)) front
      ∙ ap (λ l. done ++ (w ++ l)) back
      ∙ sym (append_assoc done w (drop n todo ++ (rest ++ tail)))
      ∙ sym (regroup (done ++ w) (drop n todo) rest tail)

  put-Over : Over (put w t) end (done ++ w) (drop n todo) rest
  unfolding put
  put-Over =
      let tail = drop end t.buffer in
      let total = Over-end t end done todo rest h in
      let kept : end ≡ length (done ++ w ++ (drop n todo ++ rest)) = omega (
        arith,
        total,
        length-append (done ++ w) (drop n todo ++ rest),
        length-append done w,
        length-append (drop n todo) rest,
        length-drop n todo,
      ) in
      record {
        inside = omega (
          arith,
          ap length put_buffer,
          length-append (done ++ w ++ (drop n todo ++ rest)) tail,
          kept,
        );
        small = h.small;
        whole =
            ap (take end) put_buffer
            ∙ take-append (done ++ w ++ (drop n todo ++ rest)) tail end kept;
        at_done = omega (arith, length-append done w, h.at_done);
      }

  -- There is room for `w`.
  overwrite : (ensure_available n t >>= λ s. ok (put w s)) ≡ ok (put w t)
  unfolding ensure_available
  overwrite =
      let total = Over-end t end done todo rest h in
      let fits : ltb max_int32 (t.position + n) ≡ false =
        ltb-false _ _ (omega (arith, h.small, h.at_done)) in
      let room : ltb (length t.buffer) (t.position + n) ≡ false =
        ltb-false _ _ (omega (arith, h.inside, h.at_done)) in
      rw (fits, room) refl

-- What a write over the front of `todo` does, as a step.
pub record Steps (op : Write) (w : List ℕ) : Type 0 where
  pub run :
      (t : Out) (end : ℕ) (done todo rest : List ℕ)
      → Over t end done todo rest
      → length w ≤ length todo
      → (t' : Out) × (op t ≡ ok t') × Over t' end (done ++ w) (drop (length w) todo) rest

put-Steps :
    (w : List ℕ) (n : ℕ) → length w ≡ n → Steps (λ t. ensure_available n t >>= λ s. ok (put w s)) w
put-Steps w n e = record {
  run = λ t end done todo rest h le. (
    put w t,
    overwrite t end n w done todo rest h e (omega arith),
    ap_over t end done todo rest (put-Over t end n w done todo rest h e (omega arith)),
  );
}
  where
    ap_over :
        (t : Out) (end : ℕ) (done todo rest : List ℕ)
        → Over (put w t) end (done ++ w) (drop n todo) rest
        → Over (put w t) end (done ++ w) (drop (length w) todo) rest
    ap_over t end done todo rest o = rw e o

pub uint8_Steps : (v : ℕ) → Steps (write_uint8 v) (v ∷ [])
unfolding write_uint8
uint8_Steps v = put-Steps (v ∷ []) 1 refl

pub type_Steps : (v : ℕ) → Steps (write_type v) (v ∷ [])
unfolding write_type write_uint8
type_Steps v = put-Steps (v ∷ []) 1 refl

pub uint16_Steps : (v : ℕ) → Steps (write_uint16 v) (le_bytes 2 v)
unfolding write_uint16
uint16_Steps v = put-Steps (le_bytes 2 v) 2 (length-le_bytes 2 v)

pub uint32_Steps : (v : ℕ) → Steps (write_uint32 v) (le_bytes 4 v)
unfolding write_uint32
uint32_Steps v = put-Steps (le_bytes 4 v) 4 (length-le_bytes 4 v)

-- Two steps.
infixr 4 ◌▹◌
pub ◌▹◌ : {f g : Write} {a b : List ℕ} → Steps f a → Steps g b → Steps (f ▸ g) (a ++ b)
◌▹◌ {f} {g} {a} {b} first second = record {
  run = λ t end done todo rest h le.
      let split = length-append a b in
      let (t1, run1, o1) = first.run t end done todo rest h (omega arith) in
      let (t2, run2, o2) =
        second.run t1 end (done ++ a) (drop (length a) todo) rest o1
          (omega (arith, length-drop (length a) todo)) in
      (t2, rw run1 run2, joined t2 end done todo rest o2);
}
  where
    joined :
        (t : Out) (end : ℕ) (done todo rest : List ℕ)
        → Over t end (done ++ a ++ b) (drop (length b) (drop (length a) todo)) rest
        → Over t end (done ++ (a ++ b)) (drop (length (a ++ b)) todo) rest
    joined t end done todo rest o =
        rw (← append_assoc done a b, length-append a b, ← drop-add (length a) (length b) todo) o
