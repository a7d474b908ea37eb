-- ===== src/Http/Pool/Settled.antt =====
-- Threads of the pool that are where they may be: none ends while the server runs, none waits when it is
-- shut down.
use sniffdogsniff.Shared.{
  ℕ, zero, suc, ◌≡◌, refl, Bool, true, false, ◌&&◌, &&_split, not, List, [], ◌∷◌, map, set,
  replicate, if◌then◌else◌,
}
use sniffdogsniff.Http.Pool.{Worker, at_head, checking, waiting, serving, done, woken}

unfoldable pub is_settled : Bool → Worker → Bool
is_settled running waiting = running
is_settled running done = not running
is_settled running _ = true

unfoldable pub all_settled : Bool → List Worker → Bool
all_settled running [] = true
all_settled running (w ∷ ws) = is_settled running w && all_settled running ws

pub all_settled-set :
    (running : Bool) (ws : List Worker) (i : ℕ) (v : Worker)
    → all_settled running ws ≡ true
    → is_settled running v ≡ true
    → all_settled running (set ws i v) ≡ true
unfolding all_settled
all_settled-set running [] i v a h = refl
all_settled-set running (w ∷ ws) zero v a h =
    rw h (&&_split (is_settled running w) (all_settled running ws) a).1
all_settled-set running (w ∷ ws) (suc i) v a h =
    let (b, c) = &&_split (is_settled running w) (all_settled running ws) a in
    rw b (all_settled-set running ws i v c h)

-- When the server is shut down, every thread that waits is woken.
pub all_settled-woken : (ws : List Worker) → all_settled false (map woken ws) ≡ true
unfolding all_settled is_settled woken
all_settled-woken [] = refl
all_settled-woken (at_head ∷ ws) = all_settled-woken ws
all_settled-woken (checking ∷ ws) = all_settled-woken ws
all_settled-woken (waiting ∷ ws) = all_settled-woken ws
all_settled-woken (serving c ∷ ws) = all_settled-woken ws
all_settled-woken (done ∷ ws) = all_settled-woken ws

pub all_settled-replicate : (size : ℕ) → all_settled true (replicate size at_head) ≡ true
unfolding all_settled is_settled
all_settled-replicate zero = refl
all_settled-replicate (suc size) = all_settled-replicate size

-- A thread that looks whether the server runs goes on if it does, and ends if not.
pub is_settled-goes_on :
    (running : Bool) (w : Worker)
    → is_settled true w ≡ true
    → is_settled running (if running then w else done) ≡ true
unfolding is_settled
is_settled-goes_on true w h = h
is_settled-goes_on false w h = refl

pub is_settled-checking : (running : Bool) → is_settled running checking ≡ true
unfolding is_settled
is_settled-checking running = refl

pub is_settled-serving : (running : Bool) (c : ℕ) → is_settled running (serving c) ≡ true
unfolding is_settled
is_settled-serving running c = refl

pub is_settled-at_head : (running : Bool) → is_settled running at_head ≡ true
unfolding is_settled
is_settled-at_head running = refl
