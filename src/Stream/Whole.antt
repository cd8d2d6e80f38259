-- ===== src/Stream/Whole.antt =====
-- What is written to a new stream, read from a stream of all its contents.
use mcgv.Base.{ℕ, ◌+◌, ◌≤◌, ◌≡◌, ap, ◌∙◌, arith, List, [], ◌++◌, append-nil, ok, length}
use mcgv.Stream.Out.{Out, Write, contents, max_int32, new_output_stream}
use mcgv.Stream.Out.Writes.{Emits, new-IsValid, contents-new}
use mcgv.Stream.In.{Read, new_input_stream}
use mcgv.Stream.In.Reads.{Reads, Shows, new-Shows}

pub read_whole {ℓ} :
    {A : Type ℓ} (r : Read A) (bytes : List ℕ) (v : A)
    → Reads r bytes v
    → r (new_input_stream bytes 0) ≡ ok (v, new_input_stream bytes (length bytes))
unfolding new_input_stream
read_whole r bytes v reads =
    let shows : Shows (new_input_stream bytes 0) (bytes ++ []) =
      rw (append-nil bytes) (new-Shows bytes) in
    reads.result (new_input_stream bytes 0) [] shows
    ∙ ap (λ (k : ℕ). ok (v, record { buffer = bytes; position = k })) (omega arith)

pub written_read {ℓ} :
    {A : Type ℓ} (w : Write) (r : Read A) (bytes : List ℕ) (v : A) (n : ℕ)
    → Emits w bytes
    → Reads r bytes v
    → length bytes ≤ max_int32
    → (s : Out) × (w (new_output_stream n) ≡ ok s)
      × (r (new_input_stream (contents s) 0)
          ≡ ok (v, new_input_stream (contents s) (length (contents s))))
written_read w r bytes v n emits reads small =
    let start = new_output_stream n in
    let room : start.position + length bytes ≤ max_int32 =
      unfold new_output_stream in omega arith in
    let (s, e, a) = emits.fits start (new-IsValid n) room in
    let whole : contents s ≡ bytes = a.grown ∙ ap (λ (l : List ℕ). l ++ bytes) (contents-new n) in
    (s, e, rw whole (read_whole r bytes v reads))
