-- ===== src/Http/Pool/Counts.antt =====
-- How many threads of the pool have a client, and whether one of them does not wait.
use sniffdogsniff.Shared.{
  ℕ, zero, suc, ◌+◌, ◌<◌, ◌≡◌, refl, ap, Bool, true, false, ◌||◌, not, some, List, [], ◌∷◌, ◌++◌,
  map, get_elem?, set, replicate, length, Bool-cases, inl, inr, ◌==◌, if◌then◌else◌, arith,
}
use sniffdogsniff.Http.Pool.{
  Worker, at_head, checking, waiting, serving, done, is_waiting, any_waiting, woken,
}

-- How often a client stands in a list.
unfoldable pub count : ℕ → List ℕ → ℕ
count x [] = 0
count x (y ∷ ys) = (if x == y then 1 else 0) + count x ys

abbrev pub serves : ℕ → Worker → ℕ
serves x (serving c) = if x == c then 1 else 0
serves x _ = 0

-- The number of threads that have the client.
unfoldable pub in_service : ℕ → List Worker → ℕ
in_service x [] = 0
in_service x (w ∷ ws) = serves x w + in_service x ws

unfoldable pub any_awake : List Worker → Bool
any_awake [] = false
any_awake (w ∷ ws) = not (is_waiting w) || any_awake ws

pub count-append : (x : ℕ) (xs ys : List ℕ) → count x (xs ++ ys) ≡ count x xs + count x ys
unfolding count
count-append x [] ys = omega arith
count-append x (y ∷ xs) ys = omega (arith, count-append x xs ys)

pub in_service-set :
    (x : ℕ) (ws : List Worker) (i : ℕ) (w v : Worker)
    → get_elem? ws i ≡ some w
    → in_service x (set ws i v) + serves x w ≡ in_service x ws + serves x v
unfolding in_service
in_service-set x [] i w v e = cc
in_service-set x (u ∷ ws) zero w v e = let e' : u ≡ w = cc in rw e' (omega arith)
in_service-set x (u ∷ ws) (suc i) w v e = omega (arith, in_service-set x ws i w v e)

pub any_awake-set :
    (ws : List Worker) (i : ℕ) (w v : Worker)
    → get_elem? ws i ≡ some w
    → is_waiting v ≡ false
    → any_awake (set ws i v) ≡ true
unfolding any_awake
any_awake-set [] i w v e h = cc
any_awake-set (u ∷ ws) zero w v e h = rw h refl
any_awake-set (u ∷ ws) (suc i) w v e h = elim (Bool-cases (is_waiting u)) [
  | inl f ↦ rw f (any_awake-set ws i w v e h)
  | inr f ↦ rw f refl
]

pub not_waiting-awake :
    (ws : List Worker) → any_waiting ws ≡ false → 0 < length ws → any_awake ws ≡ true
unfolding any_waiting any_awake
not_waiting-awake [] e h = elim h [ ]
not_waiting-awake (w ∷ ws) e h = elim (Bool-cases (is_waiting w)) [
  | inl f ↦ let e' : (true || any_waiting ws) ≡ false = rw f at e in absurd (cc)
  | inr f ↦ rw f refl
]

pub in_service-woken : (x : ℕ) (ws : List Worker) → in_service x (map woken ws) ≡ in_service x ws
unfolding in_service woken
in_service-woken x [] = refl
in_service-woken x (at_head ∷ ws) = omega (arith, in_service-woken x ws)
in_service-woken x (checking ∷ ws) = omega (arith, in_service-woken x ws)
in_service-woken x (waiting ∷ ws) = omega (arith, in_service-woken x ws)
in_service-woken x (serving c ∷ ws) =
    ap (λ (n : ℕ). serves x (serving c) + n) (in_service-woken x ws)
in_service-woken x (done ∷ ws) = omega (arith, in_service-woken x ws)

pub length-woken : (ws : List Worker) → length (map woken ws) ≡ length ws
length-woken [] = refl
length-woken (w ∷ ws) = ap suc (length-woken ws)

pub woken-awake : (ws : List Worker) → 0 < length ws → any_awake (map woken ws) ≡ true
unfolding any_awake woken is_waiting
woken-awake [] h = elim h [ ]
woken-awake (at_head ∷ ws) h = refl
woken-awake (checking ∷ ws) h = refl
woken-awake (waiting ∷ ws) h = refl
woken-awake (serving c ∷ ws) h = refl
woken-awake (done ∷ ws) h = refl

pub in_service-replicate : (x size : ℕ) → in_service x (replicate size at_head) ≡ 0
unfolding in_service
in_service-replicate x zero = refl
in_service-replicate x (suc size) = omega (arith, in_service-replicate x size)
