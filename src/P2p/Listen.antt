-- ===== src/P2p/Listen.antt =====
-- p2p/sdsp2pserver.cpp: the loop of `startListening`, which polls the sockets, accepts a client and
-- serves those that have sent something. What `poll` and `accept` return is an argument of a turn.
pub mod Slots
pub mod Turns
pub mod Overrun
pub mod Starved
use sniffdogsniff.Shared.{
  ℕ, zero, suc, ◌+◌, ◌-◌, ◌==◌, ◌&&◌, Bool, true, false, not, Option, none, some, List, [], ◌∷◌,
  get_elem?, set, replicate, ltb, leb, if◌then◌else◌, bit_and,
}
use sniffdogsniff.Run.{Run, Op, ◌>>=◌, ◌>>◌, pure, finished, raised, crashed, blocked, aborted}
use sniffdogsniff.Entries.Db.{Database}
use sniffdogsniff.LocalNode.{LocalNode}
use sniffdogsniff.P2p.Server.{Call, handle_request}

abbrev pub max_client_count : ℕ
max_client_count = 100

abbrev pub max_poll_fd_count : ℕ
max_poll_fd_count = max_client_count + 1

-- A descriptor: -1, or a number.
pub data Fd : Type 0 where
  minus_one : Fd
  fd_of : ℕ → Fd

unfoldable pub is_zero : Fd → Bool
is_zero minus_one = false
is_zero (fd_of n) = n == 0

unfoldable pub is_positive : Fd → Bool
is_positive minus_one = false
is_positive (fd_of n) = ltb 0 n

-- An entry of `wait_fds`; the events that are waited for never matter here.
pub record PollFd : Type 0 where
  pub fd : Fd
  pub revents : ℕ

abbrev pub pollin : ℕ
pollin = 1

abbrev pub pollerr : ℕ
pollerr = 8

abbrev pub pollhup : ℕ
pollhup = 16

unfoldable pub has_event : ℕ → ℕ → Bool
has_event revents event = not (bit_and revents event == 0)

unfoldable pub readable : ℕ → Bool
readable revents =
    has_event revents pollin && not (has_event revents pollhup) && not (has_event revents pollerr)

-- The variables of `startListening`, the state `node` that the handlers work on, and the descriptors
-- that have been closed, the last one first.
pub record Listener (S : Type 0) : Type 0 where
  pub node : S
  pub wait_fds : List PollFd
  pub clients_count : ℕ
  pub closed : List Fd

-- Zeros, and the listening socket in the first entry.
unfoldable pub new_listener : {S : Type 0} → S → Fd → Listener S
new_listener node server_fd = record {
  node = node;
  wait_fds =
      record { fd = server_fd; revents = 0 }
      ∷ replicate max_client_count (record { fd = fd_of 0; revents = 0 });
  clients_count = 0;
  closed = [];
}

-- What `poll` writes: the events of each entry.
unfoldable pub report : List ℕ → List PollFd → List PollFd
report [] ps = ps
report (e ∷ es) [] = []
report (e ∷ es) (p ∷ ps) = record p { revents = e } ∷ report es ps

module _ {S : Type 0} where
  -- The first entry from `i` on whose descriptor is 0 takes the client; `rounds` are those left until
  -- `i` is beyond MAX_POLL_FD_COUNT.
  unfoldable pub place_client : ℕ → ℕ → Fd → Op (Listener S) (Unit {0})
  place_client zero i client l = finished tt l
  place_client (suc rounds) i client l = elim (get_elem? l.wait_fds i) [
    | none ↦ crashed
    | some p ↦
        if is_zero p.fd
        then finished tt (record l {
          wait_fds = set l.wait_fds i (record p { fd = client });
          clients_count = l.clients_count + 1;
        })
        else place_client rounds (suc i) client l
  ]

  -- `close` and the reset of the entry; on ℕ the count stops at 0.
  unfoldable pub close_client : ℕ → Fd → Op (Listener S) (Unit {0})
  close_client i client l = finished tt (record l {
    wait_fds = set l.wait_fds i (record { fd = fd_of 0; revents = 0 });
    clients_count = l.clients_count - 1;
    closed = client ∷ l.closed;
  })

  -- The events of the listening socket are those of the first entry.
  unfoldable pub listening : Listener S → ℕ
  listening l = elim (get_elem? l.wait_fds 0) [ none ↦ 0 | some p ↦ p.revents ]

  module _ (handle_request : Fd → Op S ℕ) where
    -- A handler on the node that the listener holds.
    unfoldable pub with_node : Fd → Op (Listener S) ℕ
    with_node client l = elim (handle_request client l.node) [
      | finished errcode node ↦ finished errcode (record l { node = node })
      | raised node ↦ raised (record l { node = node })
      | crashed ↦ crashed
      | blocked ↦ blocked
      | aborted ↦ aborted
    ]

    -- A client is kept if its request has been answered with no error.
    unfoldable pub serve_client : ℕ → PollFd → Op (Listener S) (Unit {0})
    serve_client i p =
        if readable p.revents
        then (with_node p.fd >>= λ errcode. if errcode == 0 then pure tt else close_client i p.fd)
        else close_client i p.fd

    -- `i` is an index of `wait_fds`; what lies behind the array is read there too.
    unfoldable pub serve_slot : ℕ → Op (Listener S) (Unit {0})
    serve_slot i l = elim (get_elem? l.wait_fds i) [
      | none ↦ crashed
      | some p ↦ if is_positive p.fd && ltb 0 p.revents then serve_client i p l else finished tt l
    ]

    unfoldable pub serve_from : ℕ → ℕ → Op (Listener S) (Unit {0})
    serve_from zero i = pure tt
    serve_from (suc rounds) i = do serve_slot i; serve_from rounds (suc i)

    -- What is done when `poll` has reported something. Both loops run from 1 to MAX_POLL_FD_COUNT.
    unfoldable pub after_poll : Fd → Op (Listener S) (Unit {0})
    after_poll client l =
        if has_event (listening l) pollin
        then if leb max_client_count l.clients_count
          then finished tt l
          else (place_client max_poll_fd_count 1 client >> serve_from max_poll_fd_count 1) l
        else serve_from max_poll_fd_count 1 l

    -- A turn of the loop: the events that `poll` writes, if it returns a positive number, and what
    -- `accept` returns if it is called.
    unfoldable pub turn : Option (List ℕ) → Fd → Op (Listener S) (Unit {0})
    turn none client l = finished tt l
    turn (some events) client l =
        after_poll client (record l { wait_fds = report events l.wait_fds })

    -- Turns one after the other.
    unfoldable pub turns : List (Option (List ℕ) × Fd) → Op (Listener S) (Unit {0})
    turns [] = pure tt
    turns ((events, client) ∷ rest) = do turn events client; turns rest

-- The code that `handleRequest` returns, where -1 is another code than ERR_NULL.
unfoldable pub returned_code : Option (List (List ℕ) × ℕ) → ℕ
returned_code none = 1
returned_code (some (sent, errcode)) = errcode

-- `handleRequest` for the loop: what the server meets on each descriptor is `calls`.
unfoldable pub request_code :
    (D : Database) (sha256 : List ℕ → List ℕ) → (Fd → Call) → Fd → Op (LocalNode D sha256) ℕ
request_code D sha256 calls client = do
  r ← handle_request D sha256 (calls client)
  pure (returned_code r)
