-- ===== src/Channel/Pending.antt =====
-- The requests that wait for their answers in channel.go, and the goroutines that end the wait: the
-- sender of each request, `readLoop` with one packet after the other, and `beginClose`, which runs once.
-- A step is one access to what they share, in any order. A `pendingRequest` stays with its sender after it
-- is deleted from the map.
pub mod Keeps
pub mod Safe
use mcgv.Base.{ℕ, Bool, true, false, ◌≡◌, ◌≢◌, List, Option, none, some, leb, length, take}
use mcgv.Base.{if◌then◌else◌, ◌==◌}
use mcgv.Base.Bytes.{of_le}

-- `responseId`: the first eight bytes.
unfoldable pub response_id : List ℕ → Option ℕ
response_id packet = if leb 8 (length packet) then some (of_le (take 8 packet)) else none

-- `pendingRequest`: `responseData`, whether `err` is set, and whether `doneCh` is closed.
pub record Request : Type 0 where
  pub response : Option (List ℕ)
  pub failed : Bool
  pub done : Bool

-- Where `readLoop` is with a packet: it has loaded the request, written the packet to it, or reset its
-- error as `safeClose` does first.
pub data Reader : Type 0 where
  waiting : Reader
  loaded : ℕ → List ℕ → Reader
  wrote_response reset_error : ℕ → Reader

-- Where `beginClose` is: before, between two requests, at a request that it has got from the map, after
-- `safeClose` has set its error, after it has closed its channel, or at the end.
pub data Closer : Type 0 where
  open_still ranging finished : Closer
  came_to set_error closed_request : ℕ → Closer

-- The requests of all senders by their ids, which of them are in `pendingRequests`, and the goroutines.
pub record Shared : Type 0 where
  pub requests : ℕ → Option Request
  pub pending : ℕ → Bool
  pub reader : Reader
  pub closer : Closer
  pub channel_done : Bool

abbrev pub new_pending : Request
new_pending = record { response = none; failed = false; done = false }

abbrev pub changed : (Request → Request) → Option Request → Option Request
changed f none = none
changed f (some r) = some (f r)

-- A write through the pointer to a request.
unfoldable pub change : ℕ → (Request → Request) → (ℕ → Option Request) → ℕ → Option Request
change id f requests j = if j == id then changed f (requests j) else requests j

abbrev pub answer_with : List ℕ → Request → Request
answer_with packet r = record r { response = some packet }

abbrev pub fail_with : Bool → Request → Request
fail_with e r = record r { failed = e }

-- `close(req.doneCh)`; that of a closed channel panics, which `safeClose` recovers.
abbrev pub finish : Request → Request
finish r = record r { done = true }

abbrev pub add {ℓ} : {A : Type ℓ} → ℕ → A → (ℕ → A) → ℕ → A
add id v f j = if j == id then v else f j

-- The sender of a request.
pub data SenderStep : Shared → Shared → Type 0 where
  -- `newRequest` and `pendingRequests.Store`, with an id of its own
  register :
      (id : ℕ) (s : Shared)
      → s.requests id ≡ none
      → SenderStep s (record s {
        requests = add id (some new_pending) s.requests;
        pending = add id true s.pending;
      })
  -- the deferred `pendingRequests.Delete`
  forget : (id : ℕ) (s : Shared) → SenderStep s (record s { pending = add id false s.pending })

-- `readLoop`, on a packet after the handshake.
pub data ReaderStep : Shared → Shared → Type 0 where
  -- `pendingRequests.Load` of the id in a packet
  load :
      (id : ℕ) (packet : List ℕ) (s : Shared)
      → s.reader ≡ waiting
      → response_id packet ≡ some id
      → s.pending id ≡ true
      → ReaderStep s (record s { reader = loaded id packet })
  -- `req.responseData = data`
  write_response :
      (id : ℕ) (packet : List ℕ) (s : Shared)
      → s.reader ≡ loaded id packet
      → ReaderStep s (record s {
        requests = change id (answer_with packet) s.requests;
        reader = wrote_response id;
      })
  -- `safeClose(req, nil)`
  clear_error :
      (id : ℕ) (s : Shared)
      → s.reader ≡ wrote_response id
      → ReaderStep s
          (record s { requests = change id (fail_with false) s.requests; reader = reset_error id })
  close_answered :
      (id : ℕ) (s : Shared)
      → s.reader ≡ reset_error id
      → ReaderStep s (record s { requests = change id finish s.requests; reader = waiting })

-- `beginClose`.
pub data CloserStep : Shared → Shared → Type 0 where
  -- `ch.closed.CompareAndSwap`
  begin_close : (s : Shared) → s.closer ≡ open_still → CloserStep s (record s { closer = ranging })
  -- `Range` comes to a request
  come_to :
      (id : ℕ) (s : Shared)
      → s.closer ≡ ranging
      → s.pending id ≡ true
      → CloserStep s (record s { closer = came_to id })
  -- `safeClose` with an error
  write_error :
      (id : ℕ) (s : Shared)
      → s.closer ≡ came_to id
      → CloserStep s
          (record s { requests = change id (fail_with true) s.requests; closer = set_error id })
  close_failed :
      (id : ℕ) (s : Shared)
      → s.closer ≡ set_error id
      → CloserStep s
          (record s { requests = change id finish s.requests; closer = closed_request id })
  -- `pendingRequests.Delete`
  delete :
      (id : ℕ) (s : Shared)
      → s.closer ≡ closed_request id
      → CloserStep s (record s { pending = add id false s.pending; closer = ranging })
  -- `close(ch.doneCh)`
  close_channel :
      (s : Shared)
      → s.closer ≡ ranging
      → CloserStep s (record s { closer = finished; channel_done = true })

pub data Step : Shared → Shared → Type 0 where
  by_sender : (s t : Shared) → SenderStep s t → Step s t
  by_reader : (s t : Shared) → ReaderStep s t → Step s t
  by_closer : (s t : Shared) → CloserStep s t → Step s t

abbrev pub new_shared : Shared
new_shared = record {
  requests = λ id. none;
  pending = λ id. false;
  reader = waiting;
  closer = open_still;
  channel_done = false;
}

pub data Reachable : Shared → Type 0 where
  start : Reachable new_shared
  next : (s t : Shared) → Reachable s → Step s t → Reachable t
