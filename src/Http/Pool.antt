-- ===== src/Http/Pool.antt =====
-- webserver/httpserver.cpp: the queue of clients between the thread that accepts them and the threads of
-- the pool. An event is what one thread does while it holds the mutex, or at the head of its loop.
pub mod Counts
pub mod Queue
pub mod Settled
use sniffdogsniff.Shared.{
  ℕ, ◌≡◌, Bool, true, false, ◌||◌, Option, none, some, List, [], ◌∷◌, ◌++◌, map, get_elem?, set,
  replicate, if◌then◌else◌,
}

-- Where a thread of the pool is: at the head of its loop, at the test of the queue, in the wait for the
-- condition, with a client, or at its end.
pub data Worker : Type 0 where
  at_head : Worker
  checking : Worker
  waiting : Worker
  serving : ℕ → Worker
  done : Worker

-- The state of the server, and the clients that have been accepted, taken from the queue and closed.
pub record Pool : Type 0 where
  pub queue : List ℕ
  pub running : Bool
  pub workers : List Worker
  pub accepted : List ℕ
  pub taken : List ℕ
  pub closed : List ℕ

abbrev pub thread_pool_sz : ℕ
thread_pool_sz = 1

unfoldable pub new_pool : ℕ → Pool
new_pool size = record {
  queue = [];
  running = true;
  workers = replicate size at_head;
  accepted = [];
  taken = [];
  closed = [];
}

unfoldable pub is_waiting : Worker → Bool
is_waiting waiting = true
is_waiting _ = false

unfoldable pub any_waiting : List Worker → Bool
any_waiting [] = false
any_waiting (w ∷ ws) = is_waiting w || any_waiting ws

-- `pthread_cond_signal` wakes a thread that waits, and none only if none waits.
unfoldable pub signal : Option ℕ → List Worker → Option (List Worker)
signal none ws = if any_waiting ws then none else some ws
signal (some i) ws = elim (get_elem? ws i) [
  | none ↦ none
  | some w ↦ if is_waiting w then some (set ws i checking) else none
]

unfoldable pub woken : Worker → Worker
woken waiting = checking
woken w = w

-- A client is accepted, and a thread is woken; a thread goes on; the server is shut down.
pub data Event : Type 0 where
  accept : ℕ → Option ℕ → Event
  proceed : ℕ → Event
  shutdown : Event

-- What the thread `i` does next, by where it is and by the queue. The wait may end with no signal.
unfoldable pub worker_step : ℕ → Worker → List ℕ → Pool → Option Pool
worker_step i at_head q p =
    some (record p { workers = set p.workers i (if p.running then checking else done) })
worker_step i checking [] p =
    some (record p { workers = set p.workers i (if p.running then waiting else done) })
worker_step i checking (client ∷ q) p = some (record p {
  queue = q;
  workers = set p.workers i (serving client);
  taken = p.taken ++ (client ∷ []);
})
worker_step i waiting q p = some (record p { workers = set p.workers i checking })
worker_step i (serving client) q p =
    some (record p { workers = set p.workers i at_head; closed = client ∷ p.closed })
worker_step i done q p = none

-- `none` where the event cannot happen.
unfoldable pub step : Event → Pool → Option Pool
step (accept client wakes) p = elim (signal wakes p.workers) [
  | none ↦ none
  | some ws ↦ some (record p {
    queue = p.queue ++ (client ∷ []);
    workers = ws;
    accepted = p.accepted ++ (client ∷ []);
  })
]
step (proceed i) p = elim (get_elem? p.workers i) [
  | none ↦ none
  | some w ↦ worker_step i w p.queue p
]
step shutdown p = some (record p { running = false; workers = map woken p.workers })

-- The states that a server with this many threads comes to.
pub data Reach (size : ℕ) : Pool → Type 0 where
  start : Reach size (new_pool size)
  next : {p q : Pool} (e : Event) → Reach size p → step e p ≡ some q → Reach size q
