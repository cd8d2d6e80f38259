-- ===== src/Channel/Pending/Safe.antt =====
-- A request whose channel is closed without an error holds an answer to it.
use mcgv.Base.{
  some-injective, ==_refl, ℕ, ◌≡◌, inl, inr, refl, sym, ◌∙◌, true, false, List, Option, none, some,
  ok,
}
use mcgv.Base.{Bool-cases, ◌==◌, leb, length, take}
use mcgv.Base.Bytes.{of_le}
use mathlib.Core.Path.{subst}
use mcgv.Stream.In.{new_input_stream, read_uint64, read_le}
use mcgv.Channel.Pending.{
  Request, Shared, Reader, waiting, wrote_response, reset_error, Closer, set_error, closed_request,
  change, add, answer_with, fail_with, finish, Step, SenderStep, ReaderStep, CloserStep, by_sender,
  by_reader, by_closer, come_to, register, forget, load, write_response, clear_error,
  close_answered, begin_close, write_error, close_failed, delete, close_channel, Reachable, start,
  next, response_id,
}
use mcgv.Channel.Pending.Keeps.{
  HasAnswer, IsSettled, Holds, IsAny, ReaderFits, CloserFits, IsSafe, Keeps, carried, keeps_reader,
  keeps_closer, keeps_IsSettled, new_reader, new_closer, new_known, new-IsSettled,
}

module _ (id : ℕ) (m : ℕ → Option Request) where
  answer-Keeps : (packet : List ℕ) → response_id packet ≡ some id → Keeps id (answer_with packet) m
  answer-Keeps packet e = record {
    answers = λ r here h. (packet, refl, e);
    settles = λ r here h. inr (packet, refl, e);
    finishes = λ r here h done. inr (packet, refl, e);
  }

  fail-Keeps : Keeps id (fail_with true) m
  fail-Keeps = record {
    answers = λ r here h. h;
    settles = λ r here h. inl refl;
    finishes = λ r here h done. inl refl;
  }

  -- A write at the one request that is there, of which a property is known.
  the_one : (P : ℕ → Request → Type 0) → Holds P m id → (r : Request) → m id ≡ some r → P id r
  the_one P (r', here', p) r here =
      let e : r' ≡ r = some-injective (sym here' ∙ here) in subst (λ x. P id x) e p

  clear-Keeps : Holds HasAnswer m id → Keeps id (fail_with false) m
  clear-Keeps held = record {
    answers = λ r here h. h;
    settles = λ r here h. inr (the_one HasAnswer held r here);
    finishes = λ r here h done. inr (the_one HasAnswer held r here);
  }

  finish-Keeps : Holds IsSettled m id → Keeps id finish m
  finish-Keeps held = record {
    answers = λ r here h. h;
    settles = λ r here h. h;
    finishes = λ r here h done. the_one IsSettled held r here;
  }

answered-IsSettled : (m : ℕ → Option Request) (id : ℕ) → Holds HasAnswer m id → Holds IsSettled m id
answered-IsSettled m id (r, here, h) = (r, here, inr h)

held-IsAny :
    (P : ℕ → Request → Type 0) (m : ℕ → Option Request) (id : ℕ) → Holds P m id → Holds IsAny m id
held-IsAny P m id (r, here, h) = (r, here, tt)

-- Deleting from the map.
still_known :
    (id : ℕ) (s : Shared) (j : ℕ)
    → IsSafe s
    → add id false s.pending j ≡ true
    → Holds IsAny s.requests j
still_known id s j v e = elim (Bool-cases (j == id)) [
  | inl at_id ↦ let f : false ≡ true = rw at_id at e in absurd (cc)
  | inr other ↦ v.known j (rw other at e)
]

after_write :
    (P Q : ℕ → Request → Type 0) (id : ℕ) (f : Request → Request) (m : ℕ → Option Request)
    → Holds P m id
    → ((r : Request) → P id r → Q id (f r))
    → Holds Q (change id f m) id
unfolding change
after_write P Q id f m (r, here, p) h = (f r, rw (==_refl id, here) refl, h r p)

-- A write to a request, with what holds of the goroutines after it.
module _ (id : ℕ) (f : Request → Request) (s : Shared) (v : IsSafe s)
    (k : Keeps id f s.requests) where
  write-IsSafe :
      (reader : Reader) (closer : Closer)
      → ReaderFits (change id f s.requests) reader
      → CloserFits (change id f s.requests) closer
      → IsSafe (record s { requests = change id f s.requests; reader = reader; closer = closer })
  write-IsSafe reader closer h h' = record {
    settled = keeps_IsSettled id f s.requests k v.settled;
    known = λ j e. carried IsAny id f s.requests (λ r here p. tt) j (v.known j e);
    reader_fits = h;
    closer_fits = h';
  }

SenderStep-IsSafe : (s t : Shared) → SenderStep s t → IsSafe s → IsSafe t
SenderStep-IsSafe _ _ (register id s fresh) v = record {
  settled = new-IsSettled id s.requests fresh v.settled;
  known = new_known id s.requests fresh s.pending v.known;
  reader_fits = new_reader id s.requests fresh s.reader v.reader_fits;
  closer_fits = new_closer id s.requests fresh s.closer v.closer_fits;
}
SenderStep-IsSafe _ _ (forget id s) v = record {
  settled = v.settled;
  known = λ j e. still_known id s j v e;
  reader_fits = v.reader_fits;
  closer_fits = v.closer_fits;
}

ReaderStep-IsSafe : (s t : Shared) → ReaderStep s t → IsSafe s → IsSafe t
ReaderStep-IsSafe _ _ (load id packet s e starts p) v = record {
  settled = v.settled;
  known = v.known;
  reader_fits = (starts, v.known id p);
  closer_fits = v.closer_fits;
}
ReaderStep-IsSafe _ _ (write_response id packet s e) v =
    let at_id = subst (λ r. ReaderFits s.requests r) e v.reader_fits in
    let k = answer-Keeps id s.requests packet at_id.0 in
    write-IsSafe id (answer_with packet) s v k (wrote_response id) s.closer
      (after_write IsAny HasAnswer id (answer_with packet) s.requests at_id.1
        (λ r p. (packet, refl, at_id.0)))
      (keeps_closer id (answer_with packet) s.requests k s.closer v.closer_fits)
ReaderStep-IsSafe _ _ (clear_error id s e) v =
    let held : Holds HasAnswer s.requests id =
      subst (λ r. ReaderFits s.requests r) e v.reader_fits in
    let k = clear-Keeps id s.requests held in
    write-IsSafe id (fail_with false) s v k (reset_error id) s.closer
      (after_write HasAnswer HasAnswer id (fail_with false) s.requests held (λ r p. p))
      (keeps_closer id (fail_with false) s.requests k s.closer v.closer_fits)
ReaderStep-IsSafe _ _ (close_answered id s e) v =
    let held : Holds HasAnswer s.requests id =
      subst (λ r. ReaderFits s.requests r) e v.reader_fits in
    let k = finish-Keeps id s.requests (answered-IsSettled s.requests id held) in
    write-IsSafe id finish s v k waiting s.closer tt
      (keeps_closer id finish s.requests k s.closer v.closer_fits)

CloserStep-IsSafe : (s t : Shared) → CloserStep s t → IsSafe s → IsSafe t
CloserStep-IsSafe _ _ (begin_close s e) v = record {
  settled = v.settled;
  known = v.known;
  reader_fits = v.reader_fits;
  closer_fits = tt;
}
CloserStep-IsSafe _ _ (come_to id s e p) v = record {
  settled = v.settled;
  known = v.known;
  reader_fits = v.reader_fits;
  closer_fits = v.known id p;
}
CloserStep-IsSafe _ _ (write_error id s e) v =
    let held : Holds IsAny s.requests id = subst (λ c. CloserFits s.requests c) e v.closer_fits in
    let k = fail-Keeps id s.requests in
    write-IsSafe id (fail_with true) s v k s.reader (set_error id)
      (keeps_reader id (fail_with true) s.requests k s.reader v.reader_fits)
      (after_write IsAny IsSettled id (fail_with true) s.requests held (λ r h. inl refl))
CloserStep-IsSafe _ _ (close_failed id s e) v =
    let held : Holds IsSettled s.requests id =
      subst (λ c. CloserFits s.requests c) e v.closer_fits in
    let k = finish-Keeps id s.requests held in
    write-IsSafe id finish s v k s.reader (closed_request id)
      (keeps_reader id finish s.requests k s.reader v.reader_fits) tt
CloserStep-IsSafe _ _ (delete id s e) v = record {
  settled = v.settled;
  known = λ j e'. still_known id s j v e';
  reader_fits = v.reader_fits;
  closer_fits = tt;
}
CloserStep-IsSafe _ _ (close_channel s e) v = record {
  settled = v.settled;
  known = v.known;
  reader_fits = v.reader_fits;
  closer_fits = tt;
}

Step-IsSafe : (s t : Shared) → Step s t → IsSafe s → IsSafe t
Step-IsSafe s t (by_sender _ _ st) v = SenderStep-IsSafe s t st v
Step-IsSafe s t (by_reader _ _ st) v = ReaderStep-IsSafe s t st v
Step-IsSafe s t (by_closer _ _ st) v = CloserStep-IsSafe s t st v

Reachable-IsSafe : (s : Shared) → Reachable s → IsSafe s
Reachable-IsSafe _ start = record {
  settled = λ id r e done. absurd (cc);
  known = λ id e. absurd (cc);
  reader_fits = tt;
  closer_fits = tt;
}
Reachable-IsSafe _ (next s t before st) = Step-IsSafe s t st (Reachable-IsSafe s before)

-- The first eight bytes are the id.
response_id_lem :
    (packet : List ℕ) (id : ℕ)
    → response_id packet ≡ some id
    → read_uint64 (new_input_stream packet 0)
      ≡ ok (id, record (new_input_stream packet 0) { position = 8 })
unfolding response_id read_uint64 read_le new_input_stream
response_id_lem packet id e = elim (Bool-cases (leb 8 (length packet))) [
  | inl long ↦
      let id_here : of_le (take 8 packet) ≡ id = some-injective (rw long at e) in
      rw (long, id_here) refl
  | inr short ↦ let gone : none ≡ some id = rw short at e in absurd (cc)
]

-- In every reachable state, whatever the order of the accesses: a request whose channel is closed and
-- whose error is not set holds a packet that starts with the id of the request, so that `send0` reads
-- that id from it.
pub done-HasAnswer :
    (s : Shared) (id : ℕ) (r : Request)
    → Reachable s
    → s.requests id ≡ some r
    → r.done ≡ true
    → r.failed ≡ false
    → (packet : List ℕ) × (r.response ≡ some packet)
      × (read_uint64 (new_input_stream packet 0)
          ≡ ok (id, record (new_input_stream packet 0) { position = 8 }))
done-HasAnswer s id r reached here done fine =
    elim ((Reachable-IsSafe s reached).settled id r here done) [
      | inl failed ↦ absurd (cc)
      | inr (packet, e, starts) ↦ (packet, e, response_id_lem packet id starts)
    ]
