-- ===== src/Reliable.antt =====
-- reliable_channel.go: a channel that connects to one of several servers and retries a request whose
-- connection fails. One goroutine is modelled; the network, and what other goroutines do to a
-- connection, is the interface `Network`.
pub mod Connect
pub mod Retry
mod Tests
use mcgv.Base.{ℕ, zero, suc, ◌+◌, Bool, true, false, not, ◌&&◌, ◌||◌, List, [], ◌∷◌}
use mcgv.Base.{Option, none, some, ltb, ◌==◌, if◌then◌else◌, length}

-- The errors that the code tells apart by `errors.As`.
pub data Failure : Type 0 where
  connection authentication protocol unknown : Failure

abbrev pub is_connection : Failure → Bool
is_connection connection = true
is_connection _ = false

-- `isHandshakeError`, on an error that is not nil.
abbrev pub is_handshake : Failure → Bool
is_handshake authentication = true
is_handshake protocol = true
is_handshake _ = false

-- A value or an error.
pub data Answer {ℓ} (A : Type ℓ) : Type ℓ where
  answer : A → Answer A
  failure : Failure → Answer A

-- What the channel uses: the state of the network, the connections, and the configuration.
pub record Network : Type 1 where
  pub World : Type 0
  pub Chan : Type 0
  pub Addr : Type 0
  pub Reply : Type 0
  pub same_addr : Addr → Addr → Bool
  -- `tcpChannel.addr`, and `tcpChannel.isClosed`
  pub addr : Chan → Addr
  pub is_closed : World → Chan → Bool
  -- `createTcpChannel`
  pub dial : Addr → World → Answer Chan × World
  -- `tcpChannel.send` of the request: what its response reader is given
  pub perform : Chan → World → Answer Reply × World
  -- `cfg.addressesSupplier`, `cfg.shuffleAddresses` and the shuffle, `cfg.retryLimit`
  pub supply : World → Answer (List Addr) × World
  pub shuffle_addresses : Bool
  pub shuffle : List Addr → World → List Addr × World
  pub retry_limit : ℕ

module _ (net : Network) where
  open net use {
    World, Chan, Addr, Reply, same_addr, addr, is_closed, dial, perform, supply, shuffle_addresses,
    shuffle, retry_limit,
  }

  -- The fields of `reliableChannel` that change, and the network.
  pub record State : Type 0 where
    pub attempts_limit : ℕ
    pub curr : Option Chan
    pub closed : Bool
    pub world : World

  -- The current channel, if it is open.
  unfoldable pub open_channel : State → Option Chan
  open_channel s = elim s.curr [
    | none ↦ none
    | some ch ↦ if is_closed s.world ch then none else some ch
  ]

  -- `oldCh != nil && oldCh.addr == address`
  abbrev pub is_old : Option Chan → Addr → Bool
  is_old none a = false
  is_old (some ch) a = same_addr (addr ch) a

  abbrev pub limit_for : ℕ → ℕ
  limit_for n = if ltb 0 retry_limit && ltb retry_limit n then retry_limit else n

  -- What `initConnection` returns after its loop, for the last error of a dial.
  unfoldable pub final_failure : Option Failure → Failure
  final_failure none = connection
  final_failure (some e) = if is_connection e then e else if is_handshake e then e else connection

  -- The outcome of one dial in the loop; `next` goes on with the addresses that are left.
  unfoldable pub after_dial :
      ℕ
      → State
      → Answer Chan × World
      → (Failure → World → Option Failure × State)
      → Option Failure × State
  unfolding final_failure
  after_dial n s (answer ch, w) next =
      (none, record s { attempts_limit = limit_for n; curr = some ch; world = w })
  after_dial n s (failure e, w) next =
      if is_connection e then next e w else (some (final_failure (some e)), record s { world = w })

  -- The loop of `initConnection` over the addresses, `n` in all; `last` is the error so far.
  unfoldable pub connect_loop : ℕ → List Addr → Option Failure → State → Option Failure × State
  unfolding after_dial
  connect_loop n [] last s = (some (final_failure last), s)
  connect_loop n (a ∷ as') last s =
      let skip = connect_loop n as' last s in
      let try =
        after_dial n s (dial a s.world)
          (λ e w. connect_loop n as' (some e) (record s { world = w })) in
      if is_old s.curr a then skip else try

  -- `initConnection` once the addresses are known.
  unfoldable pub connect_any : List Addr → State → Option Failure × State
  unfolding connect_loop
  connect_any [] s = (some unknown, s)
  connect_any (a ∷ as') s =
      let (order, w) =
        if ltb 1 (length (a ∷ as')) && shuffle_addresses
        then shuffle (a ∷ as') s.world
        else (a ∷ as', s.world) in
      connect_loop (length order) order none (record s { world = w })

  unfoldable pub after_supply : State → Answer (List Addr) × World → Option Failure × State
  unfolding connect_any
  after_supply s (answer as', w) = connect_any as' (record s { world = w })
  after_supply s (failure e, w) = (some e, record s { world = w })

  -- `initConnection`: none if the channel is connected.
  unfoldable pub init_connection : State → Option Failure × State
  unfolding open_channel after_supply
  init_connection s = elim (open_channel s) [
    | some ch ↦ (none, s)
    | none ↦ after_supply s (supply s.world)
  ]

  -- The loop of `currentChannel`: it connects until the current channel is open. `none` is the fuel
  -- running out.
  unfoldable pub connect_until : ℕ → State → Option (Answer Chan × State)
  unfolding open_channel init_connection
  connect_until zero s = none
  connect_until (suc fuel) s = elim (open_channel s) [
    | some ch ↦ some (answer ch, s)
    | none ↦
        let (e, s') = init_connection s in
        elim e [ some f ↦ some (failure f, s') | none ↦ connect_until fuel s' ]
  ]

  -- `currentChannel`
  unfoldable pub current_channel : ℕ → State → Option (Answer Chan × State)
  unfolding connect_until
  current_channel fuel s = if s.closed then some (failure unknown, s) else connect_until fuel s

  -- What a call of `send` leaves: the one answer that the response reader gets, how many times the
  -- request was handed to a connection, and the state.
  pub record Sent : Type 0 where
    pub reply : Answer Reply
    pub requests : ℕ
    pub state : State

  -- `errors.As(err, &connErr)` on what the response reader is given
  abbrev pub connection_lost : Answer Reply → Bool
  connection_lost (answer r) = false
  connection_lost (failure e) = is_connection e

  -- One round of the loop of `send`, on an open channel; `next` is the rest of the loop. Once a
  -- connection has failed, `failed` stays true.
  unfoldable pub attempt :
      Bool → ℕ → State → Answer Reply × World → (Bool → State → Option Sent) → Option Sent
  attempt failed count s (reply, w) next =
      let failed' = failed || connection_lost reply in
      let done =
        some (record { reply = reply; requests = suc count; state = record s { world = w } }) in
      if not failed' || suc count == s.attempts_limit
      then done
      else next failed' (record s { world = w })

  -- A round of the loop, on what `currentChannel` returned after `count` attempts.
  unfoldable pub send_round :
      Bool → ℕ → Option (Answer Chan × State) → (Bool → State → Option Sent) → Option Sent
  unfolding attempt
  send_round failed count none next = none
  send_round failed count (some (failure e, s)) next =
      some (record { reply = failure e; requests = count; state = s })
  send_round failed count (some (answer ch, s)) next =
      attempt failed count s (perform ch s.world) next

  -- The loop of `send`.
  unfoldable pub send_loop : ℕ → ℕ → Bool → ℕ → State → Option Sent
  unfolding current_channel send_round
  send_loop reconnects zero failed count s = none
  send_loop reconnects (suc fuel) failed count s =
      send_round failed count (current_channel reconnects s)
        (λ failed' t. send_loop reconnects fuel failed' (suc count) t)

  -- `send`
  unfoldable pub send : ℕ → ℕ → State → Option Sent
  unfolding send_loop
  send reconnects fuel s =
      if s.closed
      then some (record { reply = failure connection; requests = 0; state = s })
      else send_loop reconnects fuel false 0 s
