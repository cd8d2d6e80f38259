-- ===== src/Channel/Pending/Keeps.antt =====
-- What holds of the requests of Pending at every step, and that a write to one of them keeps it.
use mcgv.Base.{ℕ, ◌≡◌, ◌⊎◌, inl, inr, refl, sym, Bool, true, false, List, Option, none, some}
use mcgv.Base.{Bool-cases, ==_iff, ◌==◌}
use mathlib.Core.Path.{subst}
use mcgv.Channel.Pending.{
  Request, Shared, Reader, waiting, loaded, wrote_response, reset_error, Closer, open_still,
  ranging, finished, came_to, set_error, closed_request, changed, change, add, new_pending,
  response_id,
}

-- The packet of a request, which starts with the id.
abbrev pub HasAnswer : ℕ → Request → Type 0
HasAnswer id r = (packet : List ℕ) × (r.response ≡ some packet) × (response_id packet ≡ some id)

abbrev pub IsSettled : ℕ → Request → Type 0
IsSettled id r = (r.failed ≡ true) ⊎ HasAnswer id r

-- There is a request with the id, and it has the property.
abbrev pub Holds : (ℕ → Request → Type 0) → (ℕ → Option Request) → ℕ → Type 0
Holds P m id = (r : Request) × (m id ≡ some r) × P id r

abbrev pub IsAny : ℕ → Request → Type 0
IsAny id r = Unit {0}

-- What holds of the request that the reader, or `beginClose`, is at.
abbrev pub ReaderFits : (ℕ → Option Request) → Reader → Type 0
ReaderFits m waiting = Unit
ReaderFits m (loaded id packet) = (response_id packet ≡ some id) × Holds IsAny m id
ReaderFits m (wrote_response id) = Holds HasAnswer m id
ReaderFits m (reset_error id) = Holds HasAnswer m id

abbrev pub CloserFits : (ℕ → Option Request) → Closer → Type 0
CloserFits m (came_to id) = Holds IsAny m id
CloserFits m (set_error id) = Holds IsSettled m id
CloserFits m open_still = Unit
CloserFits m ranging = Unit
CloserFits m finished = Unit
CloserFits m (closed_request id) = Unit

pub record IsSafe (s : Shared) : Type 0 where
  pub settled : (id : ℕ) (r : Request) → s.requests id ≡ some r → r.done ≡ true → IsSettled id r
  pub known : (id : ℕ) → s.pending id ≡ true → Holds IsAny s.requests id
  pub reader_fits : ReaderFits s.requests s.reader
  pub closer_fits : CloserFits s.requests s.closer

-- A request after a write: another one, or what was written over the one before.
changed_cases :
    (id : ℕ) (f : Request → Request) (m : ℕ → Option Request) (j : ℕ) (r : Request)
    → change id f m j ≡ some r
    → (m j ≡ some r) ⊎ ((j ≡ id) × (r' : Request) × (m j ≡ some r') × (f r' ≡ r))
unfolding change
changed_cases id f m j r e = elim (Bool-cases (j == id)) [
  | inl at_id ↦
      let (r', here, written) = old (m j) refl (rw at_id at e) in
      inr ((==_iff j id).0 at_id, r', here, written)
  | inr other ↦ inl (rw other at e)
]
  where
    old :
        (o : Option Request)
        → m j ≡ o
        → changed f o ≡ some r
        → (r' : Request) × (m j ≡ some r') × (f r' ≡ r)
    old none here e' = absurd (cc)
    old (some r') here e' = (r', here, cc)

-- A predicate of requests is kept by a write that keeps it.
kept :
    (P : ℕ → Request → Type 0) (id : ℕ) (f : Request → Request) (m : ℕ → Option Request)
    → ((r : Request) → m id ≡ some r → P id r → P id (f r))
    → (j : ℕ) → ((r : Request) → m j ≡ some r → P j r)
    → (r : Request) → change id f m j ≡ some r
    → P j r
kept P id f m keeps j h r e = elim (changed_cases id f m j r e) [
  | inl same ↦ h r same
  | inr (at_id, r', here, written) ↦
      subst (λ x. P j x) written
        (subst (λ k. P k (f r')) (sym at_id)
          (keeps r' (subst (λ k. m k ≡ some r') at_id here)
            (subst (λ k. P k r') at_id (h r' here))))
]

-- What a write has to keep, of the request with the id that it changes.
pub record Keeps (id : ℕ) (f : Request → Request) (m : ℕ → Option Request) : Type 0 where
  pub answers : (r : Request) → m id ≡ some r → HasAnswer id r → HasAnswer id (f r)
  pub settles : (r : Request) → m id ≡ some r → IsSettled id r → IsSettled id (f r)
  pub finishes :
      (r : Request)
      → m id ≡ some r
      → (r.done ≡ true → IsSettled id r)
      → (f r).done ≡ true
      → IsSettled id (f r)

-- The same, of a request that is there.
pub carried :
    (P : ℕ → Request → Type 0) (id : ℕ) (f : Request → Request) (m : ℕ → Option Request)
    → ((r : Request) → m id ≡ some r → P id r → P id (f r))
    → (j : ℕ) → Holds P m j
    → Holds P (change id f m) j
unfolding change
carried P id f m keeps j (r, here, p) = elim (Bool-cases (j == id)) [
  | inl at_id ↦
      let e = (==_iff j id).0 at_id in
      (
        f r,
        rw (at_id, here) refl,
        subst (λ k. P k (f r)) (sym e)
            (keeps r (subst (λ k. m k ≡ some r) e here) (subst (λ k. P k r) e p)),
      )
  | inr other ↦ (r, rw (other, here) refl, p)
]

module _ (id : ℕ) (f : Request → Request) (m : ℕ → Option Request) (k : Keeps id f m) where
  pub keeps_reader : (reader : Reader) → ReaderFits m reader → ReaderFits (change id f m) reader
  keeps_reader waiting h = tt
  keeps_reader (loaded j packet) h = (h.0, carried IsAny id f m (λ r e p. tt) j h.1)
  keeps_reader (wrote_response j) h = carried HasAnswer id f m k.answers j h
  keeps_reader (reset_error j) h = carried HasAnswer id f m k.answers j h

  pub keeps_closer : (closer : Closer) → CloserFits m closer → CloserFits (change id f m) closer
  keeps_closer (came_to j) h = carried IsAny id f m (λ r e p. tt) j h
  keeps_closer (set_error j) h = carried IsSettled id f m k.settles j h
  keeps_closer open_still h = tt
  keeps_closer ranging h = tt
  keeps_closer finished h = tt
  keeps_closer (closed_request j) h = tt

  pub keeps_IsSettled :
      ((j : ℕ) (r : Request) → m j ≡ some r → r.done ≡ true → IsSettled j r)
      → (j : ℕ) (r : Request) → change id f m j ≡ some r
      → r.done ≡ true
      → IsSettled j r
  keeps_IsSettled h j r e =
      kept (λ i q. q.done ≡ true → IsSettled i q) id f m k.finishes j (h j) r e

-- A request that is there stays when another one is registered.
module _ (id : ℕ) (m : ℕ → Option Request) (fresh : m id ≡ none) where
  abbrev with_new : ℕ → Option Request
  with_new = add id (some new_pending) m

  stays : (P : ℕ → Request → Type 0) (j : ℕ) → Holds P m j → Holds P with_new j
  stays P j (r, here, p) = elim (Bool-cases (j == id)) [
    | inl at_id ↦
        let gone : m j ≡ none = subst (λ i. m i ≡ none) (sym ((==_iff j id).0 at_id)) fresh in
        absurd (cc)
    | inr other ↦ (r, rw (other, here) refl, p)
  ]

  pub new_reader : (reader : Reader) → ReaderFits m reader → ReaderFits with_new reader
  new_reader waiting h = tt
  new_reader (loaded j packet) h = (h.0, stays IsAny j h.1)
  new_reader (wrote_response j) h = stays HasAnswer j h
  new_reader (reset_error j) h = stays HasAnswer j h

  pub new_closer : (closer : Closer) → CloserFits m closer → CloserFits with_new closer
  new_closer (came_to j) h = stays IsAny j h
  new_closer (set_error j) h = stays IsSettled j h
  new_closer open_still h = tt
  new_closer ranging h = tt
  new_closer finished h = tt
  new_closer (closed_request j) h = tt

  pub new_known :
      (pending : ℕ → Bool)
      → ((j : ℕ) → pending j ≡ true → Holds IsAny m j)
      → (j : ℕ) → add id true pending j ≡ true
      → Holds IsAny with_new j
  new_known pending h j e = elim (Bool-cases (j == id)) [
    | inl at_id ↦ (new_pending, rw at_id refl, tt)
    | inr other ↦ stays IsAny j (h j (rw other at e))
  ]

  -- It is not done.
  pub new-IsSettled :
      ((j : ℕ) (r : Request) → m j ≡ some r → r.done ≡ true → IsSettled j r)
      → (j : ℕ) (r : Request) → with_new j ≡ some r
      → r.done ≡ true
      → IsSettled j r
  new-IsSettled h j r e done = elim (Bool-cases (j == id)) [
    | inl at_id ↦
        let same : some new_pending ≡ some r = rw at_id at e in
        let e' : new_pending ≡ r = cc in
        let undone : r.done ≡ false = subst (λ x. x.done ≡ false) e' refl in absurd (cc)
    | inr other ↦ h j r (rw other at e) done
  ]
