-- ===== src/Reliable/Connect.antt =====
-- Which server `initConnection` of reliable_channel.go connects to, and when it cannot.
use mcgv.Base.{ℕ, ◌≡◌, ◌≤◌, ◌<◌, ◌⊎◌, refl, sym, ap, ◌∙◌, inl, inr, List, [], ◌∷◌, arith, ltb}
use mcgv.Base.{Bool-cases, ltb→lt, ltb→le}
use mathlib.Core.Path.{subst}
use mcgv.Base.{Bool, true, false, Option, none, some, if◌then◌else◌}
use mcgv.Reliable.{
  Failure, connection, is_connection, Answer, answer, failure, Network, State, is_old, limit_for,
  open_channel, final_failure, after_dial, connect_loop, connect_any, after_supply, init_connection,
}

-- The values of a list.
abbrev pub AnyOf : {A : Type 0} → List A → A → Type 0
AnyOf [] x = ⊥
AnyOf (y ∷ ys) x = (y ≡ x) ⊎ AnyOf ys x

module _ (net : Network) where
  open net use {World, Chan, Addr, same_addr, addr, is_closed, dial, supply, retry_limit}

  -- The only address that the supplier gives is the one of the closed channel: the loop passes over
  -- it, and `initConnection` fails without a dial, with the channel left as it was.
  pub init_connection_single :
      (s : State net) (ch : Chan) (a : Addr) (w : World)
      → is_closed s.world ch ≡ true
      → supply s.world ≡ (answer (a ∷ []), w)
      → same_addr (addr ch) a ≡ true
      → init_connection net (record s { curr = some ch })
        ≡ (some connection, record s { curr = some ch; world = w })
  unfolding init_connection open_channel after_supply connect_any connect_loop final_failure
  init_connection_single s ch a w shut given same = rw (init_connection, shut, given, same)

  -- How often a request is tried over a connection to one of `n` addresses.
  pub data IsLimit (n : ℕ) : ℕ → Type 0 where
    by_retry_limit : 0 < retry_limit → retry_limit < n → IsLimit n retry_limit
    by_addresses : (retry_limit ≡ 0) ⊎ (n ≤ retry_limit) → IsLimit n n

  limit_for-IsLimit : (n : ℕ) → IsLimit n (limit_for net n)
  limit_for-IsLimit n = elim (Bool-cases (ltb 0 retry_limit)) [
    | inl positive ↦ elim (Bool-cases (ltb retry_limit n)) [
      | inl less ↦ rw (positive, less) (by_retry_limit (ltb→lt _ _ positive) (ltb→lt _ _ less))
      | inr least ↦ rw (positive, least) (by_addresses (inr (ltb→le _ _ least)))
    ]
    | inr none_given ↦
        let zero_limit : retry_limit ≤ 0 = ltb→le _ _ none_given in
        rw none_given (by_addresses (inl (omega arith)))
  ]

  -- How the loop went from `s` to `t`: an address of the list that is not the one of the old channel
  -- was dialed, and the connection is the current channel.
  pub record Connected (n : ℕ) (as' : List Addr) (s t : State net) : Type 0 where
    pub address : Addr
    pub channel : Chan
    pub before : World
    pub listed : AnyOf as' address
    pub fresh : (old : Chan) → s.curr ≡ some old → same_addr (addr old) address ≡ false
    pub dialed : dial address before ≡ (answer channel, t.world)
    pub limited : IsLimit n t.attempts_limit
    pub now :
        t ≡ record s { attempts_limit = t.attempts_limit; curr = some channel; world = t.world }

  not_old :
      (curr : Option Chan) (a : Addr)
      → is_old net curr a ≡ false
      → (old : Chan) → curr ≡ some old
      → same_addr (addr old) a ≡ false
  not_old none a h old e = cc
  not_old (some ch) a h old e =
      let same : ch ≡ old = cc in ap (λ c. same_addr (addr c) a) (sym same) ∙ h

  after_dial_success :
      (n : ℕ) (s t : State net) (a : Addr) (as' : List Addr) (p : Answer Chan × World)
      (next : Failure → World → Option Failure × State net)
      → is_old net s.curr a ≡ false
      → dial a s.world ≡ p
      → ((e : Failure) (w : World) → next e w ≡ (none, t) → Connected n (a ∷ as') s t)
      → after_dial net n s p next ≡ (none, t)
      → Connected n (a ∷ as') s t
  unfolding after_dial
  after_dial_success n s t a as' (answer ch, w) next fresh d ih e =
      let same : record s { attempts_limit = limit_for net n; curr = some ch; world = w } ≡ t =
        ap (λ p. p.1) e in
      let there : w ≡ t.world = ap (λ (u : State net). u.world) same in
      record {
        address = a;
        channel = ch;
        before = s.world;
        listed = inl refl;
        fresh = not_old s.curr a fresh;
        limited =
            subst (IsLimit n) (ap (λ (u : State net). u.attempts_limit) same) (limit_for-IsLimit n);
        dialed = d ∙ ap (λ v. (answer ch, v)) there;
        now =
            sym same
            ∙ ap (λ v. record s { attempts_limit = limit_for net n; curr = some ch; world = v })
                there
            ∙ ap (λ l. record s { attempts_limit = l; curr = some ch; world = t.world })
                (ap (λ (u : State net). u.attempts_limit) same);
      }
  after_dial_success n s t a as' (failure f, w) next fresh d ih e = go (is_connection f) e
    where
      go :
          (b : Bool)
          → (if b then next f w else (some (final_failure net (some f)), record s { world = w }))
            ≡ (none, t)
          → Connected n (a ∷ as') s t
      go true h = ih f w h
      go false h = cc (ap (λ p. p.0) h)

  -- What holds of the rest of the addresses, and from a later state of the network.
  later :
      (n : ℕ) (as' : List Addr) (a : Addr) (w : World) (s t : State net)
      → Connected n as' (record s { world = w }) t
      → Connected n (a ∷ as') s t
  later n as' a w s t c = record {
    address = c.address;
    channel = c.channel;
    before = c.before;
    listed = inr c.listed;
    fresh = c.fresh;
    limited = c.limited;
    dialed = c.dialed;
    now = c.now;
  }

  -- A loop over addresses that succeeds has dialed one of them, which is not that of the old channel if
  -- there is one, and the connection that it got is the current channel. The attempts limit is the retry
  -- limit if that is positive and less than the number `n` that the loop is given for that of all
  -- addresses, and `n` otherwise. Nothing else of the state changes but the network.
  pub connect_loop_success :
      (n : ℕ) (as' : List Addr) (last : Option Failure) (s t : State net)
      → connect_loop net n as' last s ≡ (none, t)
      → Connected n as' s t
  unfolding connect_loop
  connect_loop_success n [] last s t e = cc (ap (λ p. p.0) e)
  connect_loop_success n (a ∷ as') last s t e =
      go (λ l u h. connect_loop_success n as' l u t h) (is_old net s.curr a) refl e
    where
      go :
          ((l : Option Failure) (u : State net)
            → connect_loop net n as' l u ≡ (none, t)
            → Connected n as' u t)
          → (b : Bool) → is_old net s.curr a ≡ b
          → (if b
              then connect_loop net n as' last s
              else after_dial net n s
                  (dial a s.world)
                  (λ f w. connect_loop net n as' (some f) (record s { world = w })))
            ≡ (none, t)
          → Connected n (a ∷ as') s t
      go ih true old h = later n as' a s.world s t (ih last s h)
      go ih false fresh h =
          after_dial_success n s t a as' (dial a s.world) _ fresh refl
            (λ f w h'. later n as' a w s t (ih (some f) (record s { world = w }) h')) h
