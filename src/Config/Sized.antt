-- ===== src/Config/Sized.antt =====
-- A size that is written over zeros once the rest is written, as `marshal` of a configuration does.
use mcgv.Base.{
  ℕ, ◌+◌, ◌-◌, ◌%◌, ◌^◌, ◌≡◌, refl, sym, ap, ◌∙◌, arith, List, [], ◌++◌, append_assoc, length, ok,
  ◌>>=◌,
}
use mcgv.Base.{drop, length-append, length-take}
use mcgv.Base.Bytes.{le_bytes, length-le_bytes}
use mcgv.Stream.Out.{Out, Write, ◌▸◌, contents, set_position, write_uint32}
use mcgv.Stream.Out.Writes.{Emits, Appended, IsValid, ◌⊳◌, write_uint32-Emits}
use mcgv.Request.Framing.{bind_assoc}
use mcgv.Object.Header.{Over, uint32_Steps}
use mcgv.Config.Writer.{write_size_at}

-- A write that starts with the size of the rest.
abbrev pub sized : Write → Write
sized w s = (write_uint32 0 ▸ w ▸ write_size_at s.position) s

zeros_gone : drop 4 (le_bytes 4 0) ≡ []
unfolding le_bytes
zeros_gone = refl

-- After the rest is written, the size goes over the zeros before it.
size_over :
    (s t : Out) (body : List ℕ)
    → IsValid s
    → Appended s (le_bytes 4 0 ++ body) t
    → (u : Out) × (write_size_at s.position t ≡ ok u)
      × Appended s (le_bytes 4 (length body) ++ body) u
unfolding write_size_at set_position contents
size_over s t body v a =
    let four = length-le_bytes 4 0 in
    let four' = length-le_bytes 4 (length body) in
    let total : t.position ≡ s.position + 4 + length body =
      omega (arith, a.moved, length-append (le_bytes 4 0) body, four) in
    let size : (t.position + 2 ^ 32 - s.position - 4) % 2 ^ 32 ≡ length body =
      omega (arith, a.valid.small, total) in
    let over : Over (set_position s.position t) t.position (contents s) (le_bytes 4 0) body =
      record {
        inside = a.valid.inside;
        small = a.valid.small;
        whole = a.grown;
        at_done = sym (length-take s.position s.buffer v.inside);
      } in
    let (t', run, o) =
      (uint32_Steps (length body)).run (set_position s.position t) t.position (contents s)
        (le_bytes 4 0) body over (omega (arith, four, four')) in
    (
      set_position t.position t',
      rw (size, run) refl,
      record {
        valid = record { inside = o.inside; small = o.small };
        grown = o.whole ∙ no_zeros (contents s) (length body) body;
        moved = omega (arith, total, length-append (le_bytes 4 (length body)) body, four');
      },
    )
  where
    no_zeros :
        (front : List ℕ) (n : ℕ) (body : List ℕ)
        → front ++ le_bytes 4 n ++ (drop (length (le_bytes 4 n)) (le_bytes 4 0) ++ body)
          ≡ front ++ (le_bytes 4 n ++ body)
    no_zeros front n body =
        rw (length-le_bytes 4 n, zeros_gone) (append_assoc front (le_bytes 4 n) body)

pub sized-Emits :
    (w : Write) (body : List ℕ) → Emits w body → Emits (sized w) (le_bytes 4 (length body) ++ body)
sized-Emits w body h =
    let e = write_uint32-Emits 0 ⊳ h in
    let same : length (le_bytes 4 (length body) ++ body) ≡ length (le_bytes 4 0 ++ body) = omega (
      arith,
      length-append (le_bytes 4 (length body)) body,
      length-append (le_bytes 4 0) body,
      length-le_bytes 4 (length body),
      length-le_bytes 4 0,
    ) in
    record {
      fits = λ s v room.
          let (t, run, a) = e.fits s v (omega (arith, same)) in
          let (u, run', a') = size_over s t body v a in
          (
            u,
            sym (bind_assoc (write_uint32 0 s) w (write_size_at s.position))
                ∙ ap (λ r. r >>= write_size_at s.position) run
                ∙ run',
            a',
          );
      overflows = λ s v over.
          sym (bind_assoc (write_uint32 0 s) w (write_size_at s.position))
          ∙ ap (λ r. r >>= write_size_at s.position) (e.overflows s v (omega (arith, same)));
    }
