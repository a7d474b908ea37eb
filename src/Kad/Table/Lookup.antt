-- ===== src/Kad/Table/Lookup.antt =====
-- Where a node of the table stands, and that it stands there once.
use sniffdogsniff.Shared.{
  ℕ, zero, suc, ◌+◌, ◌≤◌, ◌<◌, ◌≡◌, refl, subst, ◌∙◌, Bool, true, false, ◌||◌, arith, inl, inr,
  Option, some,
}
use sniffdogsniff.Shared.{List, [], ◌∷◌, ◌++◌, get_elem?, All, Bool-cases}
use sniffdogsniff.Kad.Id.{KadId, operator_minus, operator_eq, height}
use sniffdogsniff.Kad.Id.Value.{operator_eq_iff}
use sniffdogsniff.Kad.Node.{KadNode}
use sniffdogsniff.Kad.Bucket.{KadBucket, has_id}
use sniffdogsniff.Kad.Bucket
use sniffdogsniff.Kad.Bucket.Counting.{count, count-append, count_present, has_id-count}
use sniffdogsniff.Kad.Bucket.Behaviour.{has_id-append}
use sniffdogsniff.Kad.Table.{KadTable, any_has, has_node, nodes_at, get_all_nodes}
use sniffdogsniff.Kad.Table.Invariant.{IsTable, Holds, Placed}

-- What holds of all identifiers in a list holds of one that is found there.
pub has_id-All :
    (P : KadId → Type 0) (x : KadId) (ns : List KadNode)
    → All (λ n. P n.id) ns
    → has_id x ns ≡ true
    → P x
unfolding has_id
has_id-All P x [] h e = cc
has_id-All P x (n ∷ ns) h e = elim (Bool-cases (operator_eq n.id x)) [
  | inl e' ↦ subst P ((operator_eq_iff n.id x).0 e') h.0
  | inr e' ↦ has_id-All P x ns h.1 (rw e' at e)
]

abbrev HoldsFrom : KadId → ℕ → List KadBucket → Type 0
HoldsFrom s i bs = (h : ℕ) (b : KadBucket) → get_elem? bs h ≡ some b → Holds s (i + h) b

-- The buckets behind the first.
HoldsFrom-tail :
    (s : KadId) (i : ℕ) (b : KadBucket) (bs : List KadBucket)
    → HoldsFrom s i (b ∷ bs)
    → HoldsFrom s (suc i) bs
HoldsFrom-tail s i b bs v h c e = subst (λ k. Holds s k c) (omega arith) (v (suc h) c e)

HoldsFrom-head :
    (s : KadId) (i : ℕ) (b : KadBucket) (bs : List KadBucket) → HoldsFrom s i (b ∷ bs) → Holds s i b
HoldsFrom-head s i b bs v = subst (λ k. Holds s k b) (omega arith) (v 0 b refl)

bucket_once :
    (s : KadId) (i : ℕ) (b : KadBucket)
    → Holds s i b
    → (x : KadId) → (count x b.nodes ≤ 1) × (0 < count x b.nodes → Placed s i x)
bucket_once s i b v x = (
  omega (arith, v.0.once x),
  λ p. has_id-All (Placed s i) x b.nodes v.1.0 (has_id-count x b.nodes p),
)

some_height : {a b : ℕ} {o : Option ℕ} → o ≡ some a → o ≡ some b → a ≡ b
some_height p q = cc

all_once :
    (s : KadId) (i : ℕ) (bs : List KadBucket)
    → HoldsFrom s i bs
    → (x : KadId)
    → (count x (get_all_nodes bs) ≤ 1)
      × (0 < count x (get_all_nodes bs) → (h : ℕ) × Placed s h x × (i ≤ h))
unfolding get_all_nodes count
all_once s i [] v x = (omega arith, λ p. absurd (omega arith))
all_once s i (b ∷ bs) v x =
    go (count x b.nodes) (count x (get_all_nodes bs))
      (bucket_once s i b (HoldsFrom-head s i b bs v) x)
      (all_once s (suc i) bs (HoldsFrom-tail s i b bs v) x)
      (count-append x b.nodes (get_all_nodes bs))
  where
    go :
        (m n : ℕ)
        → ((m ≤ 1) × (0 < m → Placed s i x))
        → ((n ≤ 1) × (0 < n → (h : ℕ) × Placed s h x × (suc i ≤ h)))
        → count x (b.nodes ++ get_all_nodes bs) ≡ m + n
        → (count x (b.nodes ++ get_all_nodes bs) ≤ 1)
          × (0 < count x (b.nodes ++ get_all_nodes bs) → (h : ℕ) × Placed s h x × (i ≤ h))
    go zero n f g e =
        (omega arith, λ p. let (h, pl, le) = g.1 (omega arith) in (h, pl, omega arith))
    go (suc m) zero f g e = (omega arith, λ p. (i, f.1 (omega arith), omega arith))
    go (suc m) (suc n) f g e =
        let (h, pl, le) = g.1 (omega arith) in
        let same : i ≡ h = some_height ((f.1 (omega arith)).1) (pl.1) in absurd (omega arith)

-- No identifier stands in a well-formed table twice.
pub get_all_nodes_once :
    (t : KadTable) → IsTable t → (x : KadId) → count x (get_all_nodes t.buckets) ≤ 1
get_all_nodes_once t v x =
    (all_once t.self_node.id 0 t.buckets
      (λ h b e. subst (λ k. Holds t.self_node.id k b) (omega arith) (v.holds h b e)) x).0

any_has-count :
    (kn : KadNode) (bs : List KadBucket) → any_has kn bs ≡ has_id kn.id (get_all_nodes bs)
unfolding any_has get_all_nodes has_id Bucket.has_node
any_has-count kn [] = refl
any_has-count kn (b ∷ bs) =
    rw (has_id-append kn.id b.nodes (get_all_nodes bs), any_has-count kn bs) (ground arith)

absent_above :
    (s x : KadId) (i : ℕ) (bs : List KadBucket)
    → HoldsFrom s (suc i) bs
    → height (operator_minus s x) ≡ some i
    → has_id x (get_all_nodes bs) ≡ false
absent_above s x i bs v e = go (has_id x (get_all_nodes bs)) refl
  where
    go : (a : Bool) → has_id x (get_all_nodes bs) ≡ a → a ≡ false
    go false h = refl
    go true h =
        let (k, pl, le) = (all_once s (suc i) bs v x).1 (count_present x (get_all_nodes bs) h) in
        let same : i ≡ k = some_height e (pl.1) in absurd (omega arith)

absent_here :
    (s x : KadId) (i h : ℕ) (b : KadBucket)
    → Holds s i b
    → height (operator_minus s x) ≡ some (i + suc h)
    → has_id x b.nodes ≡ false
absent_here s x i h b v e = go (has_id x b.nodes) refl
  where
    go : (a : Bool) → has_id x b.nodes ≡ a → a ≡ false
    go false k = refl
    go true k =
        let same : i ≡ i + suc h = some_height ((has_id-All (Placed s i) x b.nodes v.1.0 k).1) e in
        absurd (omega arith)

has_id_at :
    (s : KadId) (x : KadId) (h i : ℕ) (bs : List KadBucket)
    → HoldsFrom s i bs
    → height (operator_minus s x) ≡ some (i + h)
    → has_id x (get_all_nodes bs) ≡ has_id x (nodes_at bs h)
unfolding get_all_nodes nodes_at has_id
has_id_at s x h i [] v e = refl
has_id_at s x zero i (b ∷ bs) v e =
    rw
      (
        has_id-append x b.nodes (get_all_nodes bs),
        absent_above s x i bs (HoldsFrom-tail s i b bs v)
            (subst (λ k. height (operator_minus s x) ≡ some k) (plus_zero i) e),
      )
      (or_false (has_id x b.nodes))
  where
    plus_zero : (i : ℕ) → i + 0 ≡ i
    plus_zero i = omega arith

    or_false : (a : Bool) → (a || false) ≡ a
    or_false a = ground arith
has_id_at s x (suc h) i (b ∷ bs) v e =
    rw
      (
        has_id-append x b.nodes (get_all_nodes bs),
        absent_here s x i h b (HoldsFrom-head s i b bs v) e,
      )
      (has_id_at s x h (suc i) bs (HoldsFrom-tail s i b bs v)
        (subst (λ k. height (operator_minus s x) ≡ some k) (plus_suc i h) e))
  where
    plus_suc : (i h : ℕ) → i + suc h ≡ suc i + h
    plus_suc i h = omega arith

-- On a well-formed table `hasNode`, which scans all buckets, finds a node if and only if it stands in
-- the bucket of the height of its distance, which it must have.
pub has_node_lem :
    (kn : KadNode) (t : KadTable) (h : ℕ)
    → IsTable t
    → height (operator_minus t.self_node.id kn.id) ≡ some h
    → has_node kn t ≡ has_id kn.id (nodes_at t.buckets h)
unfolding has_node
has_node_lem kn t h v e =
    any_has-count kn t.buckets
    ∙ has_id_at t.self_node.id kn.id h 0 t.buckets
        (λ k b e'. subst (λ j. Holds t.self_node.id j b) (omega arith) (v.holds k b e'))
        (subst (λ k. height (operator_minus t.self_node.id kn.id) ≡ some k) (omega arith) e)
