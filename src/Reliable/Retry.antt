-- ===== src/Reliable/Retry.antt =====
-- How often `send` of reliable_channel.go performs a request, and what it returns.
use mcgv.Base.{ℕ, zero, suc, ◌≡◌, ◌⊎◌, sym, ap, ◌∙◌, inl, inr}
use mcgv.Base.{Bool, true, false, Option, none, some, ◌==◌, if◌then◌else◌, Bool-cases}
use mcgv.Base.{==_iff}
use mcgv.Reliable.{
  Answer, answer, failure, Network, State, current_channel, Sent, connection_lost, attempt,
  send_round, send_loop, send,
}

module _ (net : Network) where
  open net use {World, Chan, Reply, perform}

  -- What a finished `send` left, or a value of choice.
  sent_or : Sent net → Option (Sent net) → Sent net
  sent_or d none = d
  sent_or d (some r) = r

  some-injective : (x y : Sent net) → some x ≡ some y → x ≡ y
  unfolding sent_or
  some-injective x y e = ap (sent_or x) e

  -- The request was performed as often as the attempts limit says.
  abbrev pub Exhausted : Sent net → Type 0
  Exhausted r = r.requests ≡ r.state.attempts_limit

  attempt_sticky :
      (count : ℕ) (s : State net) (p : Answer Reply × World)
      (next : Bool → State net → Option (Sent net)) (r : Sent net)
      → ((t : State net) → next true t ≡ some r → Exhausted r)
      → attempt net true count s p next ≡ some r
      → Exhausted r
  unfolding attempt
  attempt_sticky count s (reply, w) next r ih e =
      elim (Bool-cases (suc count == s.attempts_limit)) [
        | inl limit ↦
            let stop = rw limit at e in
            let same : record {
              reply = reply;
              requests = suc count;
              state = record s { world = w };
            }
                ≡ r =
              some-injective _ _ stop in
            ap (λ (q : Sent net). q.requests) (sym same)
            ∙ (==_iff _ _).0 limit
            ∙ ap (λ (q : Sent net). q.state.attempts_limit) same
        | inr more ↦ ih (record s { world = w }) (rw more at e)
      ]

  round_sticky :
      (count : ℕ) (c : Option (Answer Chan × State net))
      (next : Bool → State net → Option (Sent net)) (r : Sent net) (x : Reply)
      → ((t : State net) → next true t ≡ some r → Exhausted r)
      → send_round net true count c next ≡ some r
      → r.reply ≡ answer x
      → Exhausted r
  unfolding send_round
  round_sticky count none next r x ih e a = cc
  round_sticky count (some (failure f, s)) next r x ih e a =
      cc (ap (λ (q : Sent net). q.reply) (some-injective _ _ e), a)
  round_sticky count (some (answer ch, s)) next r x ih e a =
      attempt_sticky count s (perform ch s.world) next r ih e

  -- Once a connection has failed, the loop ends with an answer only at the attempts limit.
  sticky :
      (reconnects fuel count : ℕ) (s : State net) (r : Sent net) (x : Reply)
      → r.reply ≡ answer x
      → send_loop net reconnects fuel true count s ≡ some r
      → Exhausted r
  unfolding send_loop
  sticky reconnects zero count s r x a e = cc
  sticky reconnects (suc fuel) count s r x a e =
      round_sticky count (current_channel net reconnects s) _ r x
        (λ t e'. sticky reconnects fuel (suc count) t r x a e') e a

  -- The first attempt ends the loop, or its connection is lost.
  attempt_first :
      (s : State net) (p : Answer Reply × World) (next : Bool → State net → Option (Sent net))
      (r : Sent net)
      → ((t : State net) → next true t ≡ some r → Exhausted r)
      → attempt net false 0 s p next ≡ some r
      → (r.requests ≡ 1) ⊎ Exhausted r
  unfolding attempt
  attempt_first s (reply, w) next r ih e = elim (Bool-cases (connection_lost net reply)) [
    | inl lost ↦ elim (Bool-cases (1 == s.attempts_limit)) [
      | inl limit ↦
          inl (sym (ap (λ (q : Sent net). q.requests) (some-injective _ _ (rw (lost, limit) at e))))
      | inr more ↦ inr (ih (record s { world = w }) (rw (lost, more) at e))
    ]
    | inr kept ↦ inl (sym (ap (λ (q : Sent net). q.requests) (some-injective _ _ (rw kept at e))))
  ]

  -- A loop that ends with an answer.
  round_first :
      (c : Option (Answer Chan × State net)) (next : Bool → State net → Option (Sent net))
      (r : Sent net) (x : Reply)
      → ((t : State net) → next true t ≡ some r → Exhausted r)
      → send_round net false 0 c next ≡ some r
      → r.reply ≡ answer x
      → (r.requests ≡ 1) ⊎ Exhausted r
  unfolding send_round
  round_first none next r x ih e a = cc
  round_first (some (failure f, s)) next r x ih e a =
      cc (ap (λ (q : Sent net). q.reply) (some-injective _ _ e), a)
  round_first (some (answer ch, s)) next r x ih e a =
      attempt_first s (perform ch s.world) next r ih e

  -- A test whose outcome is known to be a result.
  if-or : (b : Bool) (x y z : Option (Sent net)) → (if b then x else y) ≡ z → (x ≡ z) ⊎ (y ≡ z)
  if-or true x y z e = inl e
  if-or false x y z e = inr e

  -- If `send` ends with an answer of the server, the request was performed once, or as often as the
  -- attempts limit says.
  pub retried_answer :
      (reconnects fuel : ℕ) (s : State net) (r : Sent net) (x : Reply)
      → send net reconnects fuel s ≡ some r
      → r.reply ≡ answer x
      → (r.requests ≡ 1) ⊎ (r.requests ≡ r.state.attempts_limit)
  unfolding send send_loop
  retried_answer reconnects fuel s r x e a = elim (if-or s.closed _ _ _ e) [
    | inl shut ↦ cc (ap (λ (q : Sent net). q.reply) (some-injective _ _ shut), a)
    | inr alive ↦ loop_first fuel alive
  ]
    where
      loop_first :
          (f : ℕ) → send_loop net reconnects f false 0 s ≡ some r → (r.requests ≡ 1) ⊎ Exhausted r
      loop_first zero h = cc
      loop_first (suc f) h =
          round_first (current_channel net reconnects s) _ r x
            (λ t e'. sticky reconnects f 1 t r x a e') h a
