-- ===== src/Reliable/Tests.antt =====
-- Runs of reliable_channel.go on a small network, and the theorems at concrete inputs.
use mcgv.Base.{ℕ, ◌≡◌, ◌⊎◌, refl, Bool, false, ◌||◌, ◌==◌, if◌then◌else◌, List, [], ◌∷◌, none, some}
use mcgv.Reliable.{
  connection, Answer, answer, failure, Network, State, Sent, open_channel, after_dial, connect_loop,
  connect_any, after_supply, init_connection, connect_until, current_channel, attempt, send_round,
  send_loop, send,
}
use mcgv.Reliable.Retry.{retried_answer}
use mcgv.Reliable.Connect.{Connected, init_connection_single, connect_loop_success}

abbrev is_in : ℕ → List ℕ → Bool
is_in n [] = false
is_in n (m ∷ ms) = (n == m) || is_in n ms

-- Server 1 breaks its connection on a request.
abbrev serve : ℕ → List ℕ → Answer ℕ × List ℕ
serve ch down = if ch == 1 then (failure connection, ch ∷ down) else (answer 7, down)

-- The state of the network is the list of the connections that are lost. A connection is named by the
-- address of its server.
abbrev cluster : List ℕ → Network
cluster servers = record {
  World = List ℕ;
  Chan = ℕ;
  Addr = ℕ;
  Reply = ℕ;
  same_addr = λ a b. a == b;
  addr = λ ch. ch;
  is_closed = λ down ch. is_in ch down;
  dial = λ a down. (answer a, down);
  perform = serve;
  supply = λ down. (answer servers, down);
  shuffle_addresses = false;
  shuffle = λ as' down. (as', down);
  retry_limit = 0;
}

abbrev three_servers : Network
three_servers = cluster (1 ∷ 2 ∷ 3 ∷ [])

-- Connected to server 1 of three.
abbrev at_first : State three_servers
at_first = record { attempts_limit = 3; curr = some 1; closed = false; world = [] }

-- Server 2 answers the request twice.
abbrev sent_thrice : Sent three_servers
sent_thrice = record {
  reply = answer 7;
  requests = 3;
  state = record { attempts_limit = 3; curr = some 2; closed = false; world = 1 ∷ [] };
}

send_run : send three_servers 5 5 at_first ≡ some sent_thrice
unfolding send send_loop send_round attempt current_channel connect_until init_connection
    after_supply connect_any connect_loop after_dial open_channel
send_run = refl

retried_answer_example :
    (sent_thrice.requests ≡ 1) ⊎ (sent_thrice.requests ≡ sent_thrice.state.attempts_limit)
retried_answer_example = retried_answer three_servers 5 5 at_first sent_thrice 7 send_run refl

abbrev one_server : Network
one_server = cluster (1 ∷ [])

abbrev broken : State one_server
broken = record { attempts_limit = 1; curr = none; closed = false; world = 1 ∷ [] }

init_connection_single_example :
    init_connection one_server (record broken { curr = some 1 })
    ≡ (some connection, record broken { curr = some 1; world = 1 ∷ [] })
init_connection_single_example =
    init_connection_single one_server broken 1 1 (1 ∷ []) refl refl refl

abbrev at_second : State three_servers
at_second = record { attempts_limit = 3; curr = some 2; closed = false; world = 1 ∷ [] }

connect_run :
    connect_loop three_servers 3 (1 ∷ 2 ∷ 3 ∷ []) none (record at_first { world = 1 ∷ [] })
    ≡ (none, at_second)
unfolding connect_loop after_dial
connect_run = refl

connect_loop_success_example :
    Connected three_servers 3 (1 ∷ 2 ∷ 3 ∷ []) (record at_first { world = 1 ∷ [] }) at_second
connect_loop_success_example =
    connect_loop_success three_servers 3 (1 ∷ 2 ∷ 3 ∷ []) none (record at_first { world = 1 ∷ [] })
      at_second connect_run
