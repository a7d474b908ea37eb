-- ===== src/Kad/Bucket/Stalest.antt =====
-- The search for the stalest node of `pushNode`.
use sniffdogsniff.Shared.{
  ℕ, zero, suc, ◌+◌, ◌≤◌, ◌<◌, ◌≡◌, refl, ◌≢◌, ap, ◌∙◌, false, arith, inl, inr, ◌⊎◌, Option, none,
  some,
}
use sniffdogsniff.Shared.{
  List, [], ◌∷◌, length, erase_at, get_elem?, All, ◌&&◌, leb, ltb, Bool-cases,
}
use sniffdogsniff.Kad.Node.{KadNode}
use sniffdogsniff.Kad.Bucket.{find_stalest, stales_thr}

-- With no node past the threshold the search keeps what it started from.
pub find_stalest_fresh :
    (i m : ℕ) (s : Option ℕ) (ns : List KadNode)
    → All (λ n. n.stales < stales_thr) ns
    → find_stalest i m s ns ≡ s
unfolding find_stalest
find_stalest_fresh i m s [] h = refl
find_stalest_fresh i m s (n ∷ ns) h =
    let e : (leb stales_thr n.stales && ltb m n.stales) ≡ false = ground arith in
    rw e (find_stalest_fresh (suc i) m s ns h.1)

find_stalest-some : (i m j : ℕ) (ns : List KadNode) → find_stalest i m (some j) ns ≢ none
unfolding find_stalest
find_stalest-some i m j [] e = cc
find_stalest-some i m j (n ∷ ns) h = elim (Bool-cases (leb stales_thr n.stales && ltb m n.stales)) [
  | inl e ↦ find_stalest-some (suc i) n.stales i ns (rw e at h)
  | inr e ↦ find_stalest-some (suc i) m j ns (rw e at h)
]

pub find_stalest-none :
    (i : ℕ) (ns : List KadNode)
    → find_stalest i 0 none ns ≡ none
    → All (λ n. n.stales < stales_thr) ns
unfolding find_stalest
find_stalest-none i [] h = tt
find_stalest-none i (n ∷ ns) h = elim (Bool-cases (leb stales_thr n.stales && ltb 0 n.stales)) [
  | inl e ↦ absurd (find_stalest-some (suc i) n.stales i ns (rw e at h))
  | inr e ↦ (ground arith, find_stalest-none (suc i) ns (rw e at h))
]

-- What the search finds: a node past the threshold that no other node past it exceeds.
abbrev pub Stalest : ℕ → List KadNode → Type 0
Stalest j ns =
    (n : KadNode) × (get_elem? ns j ≡ some n)
    × (stales_thr ≤ n.stales)
    × All (λ m. m.stales ≤ n.stales ⊎ m.stales < stales_thr) ns

find_stalest_found :
    (i m j : ℕ) (s : Option ℕ) (ns : List KadNode)
    → find_stalest i m s ns ≡ some j
    → ((s ≡ some j) × All (λ n. n.stales ≤ m ⊎ n.stales < stales_thr) ns)
      ⊎ ((k : ℕ) × (n : KadNode) × (j ≡ i + k)
          × (get_elem? ns k ≡ some n)
          × (stales_thr ≤ n.stales)
          × (m < n.stales)
          × All (λ x. x.stales ≤ n.stales ⊎ x.stales < stales_thr) ns)
unfolding find_stalest
find_stalest_found i m j s [] h = inl (h, tt)
find_stalest_found i m j s (n ∷ ns) h =
    elim (Bool-cases (leb stales_thr n.stales && ltb m n.stales)) [
      | inl e ↦ elim (find_stalest_found (suc i) n.stales j (some i) ns (rw e at h)) [
        | inl (e', a) ↦
            inr (0, n, ground arith, refl, ground arith, ground arith, (inl (omega arith), a))
        | inr (k, x, jk, at, st, lt, a) ↦
            inr (suc k, x, omega arith, at, st, ground arith, (inl (omega arith), a))
      ]
      | inr e ↦ elim (find_stalest_found (suc i) m j s ns (rw e at h)) [
        | inl (e', a) ↦ inl (e', (ground arith, a))
        | inr (k, x, jk, at, st, lt, a) ↦ inr (suc k, x, omega arith, at, st, lt, (ground arith, a))
      ]
    ]

pub find_stalest-Stalest :
    (j : ℕ) (ns : List KadNode) → find_stalest 0 0 none ns ≡ some j → Stalest j ns
find_stalest-Stalest j ns h = elim (find_stalest_found 0 0 j none ns h) [
  | inl (e, a) ↦ cc
  | inr (k, n, jk, at, st, lt, a) ↦
      let e : j ≡ k = omega arith in (n, ap (get_elem? ns) e ∙ at, st, a)
]

pub length-erase_at :
    (k : ℕ) (n : KadNode) (ns : List KadNode)
    → get_elem? ns k ≡ some n
    → length (erase_at k ns) + 1 ≡ length ns
length-erase_at k n [] h = cc
length-erase_at zero n (m ∷ ms) h = omega arith
length-erase_at (suc k) n (m ∷ ms) h = omega (arith, length-erase_at k n ms h)
