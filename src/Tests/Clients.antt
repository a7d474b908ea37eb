-- ===== src/Tests/Clients.antt =====
-- The theorems about the loop over the sockets, the pool of threads and the crawler at concrete states.
use sniffdogsniff.Shared.{
  ℕ, ◌+◌, ◌≡◌, ◌≢◌, refl, true, false, Option, some, none, List, [], ◌∷◌, ◌++◌, ◌<◌, ◌&&◌,
  replicate, if◌then◌else◌, leb, length, arith,
}
use sniffdogsniff.Shared.Codes.{codes}
use sniffdogsniff.Run.{Op, finished}
use sniffdogsniff.P2p.Listen.{
  Fd, fd_of, Listener, new_listener, is_zero, has_event, pollin, listening, report, place_client,
  serve_from, turn, turns,
}
use sniffdogsniff.P2p.Listen.Slots.{Placed, IsListener, place_client-IsListener, used}
use sniffdogsniff.P2p.Listen.Turns.{ServedOr, serve_from-IsListener}
use sniffdogsniff.P2p.Listen.Overrun.{turn_overrun}
use sniffdogsniff.P2p.Listen.Starved.{IsUnserved, turns-IsUnserved}
use sniffdogsniff.Http.Pool.{
  Pool, new_pool, step, signal, any_waiting, is_waiting, Reach, start, next, accept, at_head,
}
use sniffdogsniff.Http.Pool.Queue.{IsPool, Reach-IsPool}
use sniffdogsniff.Shared.Bytes.{bytes_eq}
use sniffdogsniff.Crawler.{GumboNode, element, text, cons, nil, a, other}
use sniffdogsniff.Crawler.Engine.{SearchEngine, extracted, crashed, search_url}
use sniffdogsniff.Crawler.Engine.Format.{search_url_lem}

-- A handler that counts its calls.
abbrev counted : Fd → Op ℕ ℕ
counted client n = finished 0 (n + 1)

abbrev first_listener : Listener ℕ
first_listener = new_listener 0 (fd_of 3)

first_size : length first_listener.wait_fds ≡ 101
unfolding new_listener
first_size = refl

first_events :
    (has_event
        (listening
          (record first_listener { wait_fds = report (0 ∷ 1 ∷ []) first_listener.wait_fds }))
        pollin
      && leb 100 first_listener.clients_count)
    ≡ false
unfolding new_listener report listening has_event
first_events = refl

turn_overrun_example :
    turn counted (some (0 ∷ 1 ∷ [])) (fd_of 7) first_listener ≢ finished tt first_listener
turn_overrun_example =
    turn_overrun counted (0 ∷ 1 ∷ []) (fd_of 7) first_listener first_listener first_size
      first_events

first_listener-IsListener : IsListener first_listener
unfolding new_listener is_zero used
first_listener-IsListener = record {
  size = refl;
  server = record { fd = fd_of 3; revents = 0 };
  listens = refl;
  open_server = refl;
  counted = refl;
}

no_clients : first_listener.clients_count < 100
unfolding new_listener
no_clients = omega arith

seven_open : is_zero (fd_of 7) ≡ false
unfolding is_zero
seven_open = refl

place_client-IsListener_example :
    (l' : Listener ℕ) × (place_client 101 1 (fd_of 7) first_listener ≡ finished tt l')
    × Placed 1 (fd_of 7) first_listener l'
    × IsListener l'
place_client-IsListener_example =
    place_client-IsListener (fd_of 7) first_listener first_listener-IsListener no_clients seven_open

serve_from-IsListener_example :
    ServedOr counted (serve_from counted 100 1 first_listener) IsListener
serve_from-IsListener_example =
    serve_from-IsListener counted 100 0 first_listener first_listener-IsListener (omega arith)

abbrev full_listener : Listener ℕ
full_listener = record {
  node = 0;
  wait_fds =
      record { fd = fd_of 3; revents = 0 } ∷ replicate 100 (record { fd = fd_of 7; revents = 0 });
  clients_count = 100;
  closed = [];
}

abbrev waiting_turns : List (Option (List ℕ) × Fd)
waiting_turns = (some (1 ∷ 1 ∷ []), fd_of 8) ∷ (some (1 ∷ []), fd_of 9) ∷ []

one_waits : has_event 1 1 ≡ true
unfolding has_event
one_waits = refl

turns-IsUnserved_example :
    (l' : Listener ℕ) × (turns counted waiting_turns full_listener ≡ finished tt l')
    × IsUnserved full_listener l'
turns-IsUnserved_example =
    turns-IsUnserved counted waiting_turns full_listener (record { fd = fd_of 3; revents = 0 })
      (replicate 100 (record { fd = fd_of 7; revents = 0 })) (one_waits, (one_waits, tt)) refl
      (omega arith)

abbrev one_accepted : Pool
one_accepted = record {
  queue = 7 ∷ [];
  running = true;
  workers = at_head ∷ [];
  accepted = 7 ∷ [];
  taken = [];
  closed = [];
}

accepted_step : step (accept 7 none) (new_pool 1) ≡ some one_accepted
unfolding step signal any_waiting is_waiting new_pool
accepted_step = refl

one_accepted-Reach : Reach 1 one_accepted
one_accepted-Reach = next (accept 7 none) start accepted_step

Reach-IsPool_example : IsPool 1 one_accepted
Reach-IsPool_example = Reach-IsPool 1 one_accepted (omega arith) one_accepted-Reach

-- `<div><a class="hit" href="x">`.
abbrev hit : GumboNode
hit = element a (λ name. if bytes_eq name (codes "class") then some (codes "hit") else none) nil

abbrev hits : GumboNode
hits = element (other 2) (λ name. none) (cons (text (codes "t")) (cons hit (cons hit nil)))

abbrev engine : SearchEngine
engine = record {
  user_agent = codes "agent";
  search_query_url = codes "http://s/?q=%s&x";
  results_container_element = codes ".list";
  result_container_element = codes ".hit";
  result_url_element = codes ".hit";
  result_url_property = codes "href";
  result_title_element = codes ".hit";
  result_title_property = [];
}

search_url_lem_example : search_url engine (replicate 600 97) ≡ (
    if leb 512
      (length (codes "http://s/?q=") + (length {A = ℕ} (replicate 600 97) + length (codes "&x")))
    then crashed
    else extracted (codes "http://s/?q=" ++ (replicate 600 97 ++ codes "&x")))
search_url_lem_example =
    search_url_lem engine (replicate 600 97) (codes "http://s/?q=") (codes "&x") refl (ground arith)
      (ground arith)
