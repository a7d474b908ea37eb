-- ===== src/LocalNode/Nearest.antt =====
-- The map that `findKClosestTo` fills.
use sniffdogsniff.Shared.{
  ℕ, ◌≤◌, ◌<◌, ◌≡◌, refl, subst, ◌∙◌, true, false, some, List, [], ◌∷◌, ◌++◌, append-nil, length,
  map, All, Perm, min, arith, ltb, ◌==◌, Bool-cases, inl, inr,
}
use mathlib.Core.List.{perm_middle}
use mathlib.Core.List.Perm
use sniffdogsniff.Kad.Id.{KadId, IsKadId, kad_id_length, operator_eq, operator_lt, value}
use sniffdogsniff.Kad.Id.Value.{operator_lt-value, operator_eq-value, operator_eq_self}
use sniffdogsniff.Kad.Node.{KadNode}
use sniffdogsniff.Kad.Bucket.Counting.{count, has_id-count}
use sniffdogsniff.Kad.Table.{KadTable, get_all_nodes, get_k_closest_to}
use sniffdogsniff.Kad.Table.Invariant.{IsTable}
use sniffdogsniff.Kad.Table.Lookup.{has_id-All}
use sniffdogsniff.Kad.Table.Closest.{get_closest_to-Answer, get_all_nodes-All}
use sniffdogsniff.Wire.Messages.{set_nearest}
use sniffdogsniff.Wire.Messages.RoundTrip.{Entry, Ascending}
use sniffdogsniff.LocalNode.{enter_nodes, find_k_closest_to}

abbrev HasId : Entry → Type 0
HasId e = IsKadId e.0

-- No key is `x`.
abbrev Misses : KadId → List Entry → Type 0
Misses x m = All (λ e. (value e.0 == value x) ≡ false) m

-- What `nearest[id] = addr` makes of a map without this key.
record Entered (id : KadId) (addr : List ℕ) (m m' : List Entry) : Type 1 where
  perm : Perm m' ((id, addr) ∷ m)
  up : Ascending m'
  each : (P : Entry → Type 0) → P (id, addr) → All P m → All P m'

All_weaken :
    (P Q : Entry → Type 0) → ((e : Entry) → P e → Q e) → (m : List Entry) → All P m → All Q m
All_weaken P Q f [] h = tt
All_weaken P Q f (e ∷ m) (h, hs) = (f e h, All_weaken P Q f m hs)

set_nearest_lem :
    (id : KadId) (addr : List ℕ) (m : List Entry)
    → IsKadId id
    → All HasId m
    → Ascending m
    → Misses id m
    → (m' : List Entry) × (set_nearest id addr m ≡ some m') × Entered id addr m m'
unfolding set_nearest
set_nearest_lem id addr [] h hm up miss =
    ((id, addr) ∷ [], refl, record { perm = Perm.refl _; up = (tt, tt); each = λ P p ps. (p, tt) })
set_nearest_lem id addr ((k, a) ∷ m) h (hk, hm) (lo, up) (ne, miss) =
    let (m', e, r) = set_nearest_lem id addr m h hm up miss in
    elim (Bool-cases (ltb (value k) (value id))) [
      | inl lt ↦
          let test : operator_lt k id ≡ some true =
            operator_lt-value k id hk h ∙ rw (ne, lt) refl in
          (
            (k, a) ∷ m',
            rw (set_nearest, test, e) refl,
            record {
              perm = Perm.trans (Perm.cons (k, a) r.perm) (Perm.swap (id, addr) (k, a) m);
              up = (r.each (λ x. value k < value x.0) (ground arith) lo, r.up);
              each = λ P p ps. (ps.0, r.each P p ps.1);
            },
          )
      | inr ge ↦
          let test : operator_lt k id ≡ some false =
            operator_lt-value k id hk h ∙ rw (ne, ge) refl in
          let below : value id < value k = ground arith in
          (
            (id, addr) ∷ (k, a) ∷ m,
            rw (set_nearest, test) refl,
            record {
              perm = Perm.refl _;
              up = (
                (
                  below,
                  All_weaken (λ x. value k < value x.0) (λ x. value id < value x.0)
                      (λ x l. omega arith) m lo,
                ),
                (lo, up),
              );
              each = λ P p ps. (p, ps);
            },
          )
    ]

abbrev pub entry_of : KadNode → Entry
entry_of kn = (kn.id, kn.address)

-- No identifier twice.
abbrev Apart : List KadNode → Type 0
Apart [] = Unit {0}
Apart (n ∷ ns) = All (λ k. (value n.id == value k.id) ≡ false) ns × Apart ns

enter_nodes_lem :
    (ns : List KadNode) (m : List Entry)
    → All (λ n. IsKadId n.id) ns
    → Apart ns
    → All HasId m
    → Ascending m
    → All (λ n. Misses n.id m) ns
    → (m' : List Entry) × (enter_nodes ns m ≡ some m')
      × Perm m' (map entry_of ns ++ m)
      × Ascending m'
unfolding enter_nodes
enter_nodes_lem [] m hs ap' hm up miss = (m, refl, Perm.refl m, up)
enter_nodes_lem (n ∷ ns) m (h, hs) (far, ap') hm up (miss, misses) =
    let (m1, e, r) = set_nearest_lem n.id n.address m h hm up miss in
    let still : All (λ k. Misses k.id m1) ns = each_misses ns far misses r in
    let (m', e', p, up') = enter_nodes_lem ns m1 hs ap' (r.each HasId h hm) r.up still in
    (
      m',
      rw (enter_nodes, e) e',
      Perm.trans p (
          Perm.trans (Perm.append_left (map entry_of ns) r.perm) (perm_middle (map entry_of ns) m)),
      up',
    )
  where
    each_misses :
        (ks : List KadNode)
        → All (λ k. (value n.id == value k.id) ≡ false) ks
        → All (λ k. Misses k.id m) ks
        → {m1 : List Entry} → Entered n.id n.address m m1
        → All (λ k. Misses k.id m1) ks
    each_misses [] f g r = tt
    each_misses (k ∷ ks) (f, fs) (g, gs) r =
        (r.each (λ e. (value e.0 == value k.id) ≡ false) f g, each_misses ks fs gs r)

-- The answer of a table: identifiers of 16 bytes, none twice.
answer-All :
    (all r : List KadNode)
    → All (λ n. IsKadId n.id) all
    → ((x : KadId) → count x r ≤ count x all)
    → All (λ n. IsKadId n.id) r
unfolding count
answer-All all [] h le = tt
answer-All all (n ∷ ns) h le =
    let here : 0 < count n.id all = omega (arith, le n.id, first) in
    (
      has_id-All IsKadId n.id all h (has_id-count n.id all here),
      answer-All all ns h (λ x. omega (arith, le x)),
    )
  where
    first : 1 ≤ count n.id (n ∷ ns)
    first = ground (arith, operator_eq_self n.id)

answer-Apart :
    (r : List KadNode) → All (λ n. IsKadId n.id) r → ((x : KadId) → count x r ≤ 1) → Apart r
unfolding count
answer-Apart [] h le = tt
answer-Apart (n ∷ ns) (h, hs) le =
    (others ns hs absent, answer-Apart ns hs (λ x. omega (arith, le x)))
  where
    absent : count n.id ns ≡ 0
    absent = ground (arith, le n.id, operator_eq_self n.id)

    others :
        (ks : List KadNode)
        → All (λ k. IsKadId k.id) ks
        → count n.id ks ≡ 0
        → All (λ k. (value n.id == value k.id) ≡ false) ks
    others [] hs e = tt
    others (k ∷ ks) (hk, hs) e =
        (ground (arith, operator_eq-value k.id n.id hk h), others ks hs (omega arith))

no-Misses : (ns : List KadNode) → All (λ n. Misses n.id []) ns
no-Misses [] = tt
no-Misses (n ∷ ns) = (tt, no-Misses ns)

-- With a well-formed table and an identifier of 16 bytes other than its own, `findKClosestTo` finishes,
-- and its map has exactly the identifiers and addresses of the nodes that `getKClosestTo` returns, each
-- once, with the keys going up; they are 16, or as many as the table has when it has fewer.
pub find_k_closest_to_lem :
    (t : KadTable) (id : KadId)
    → IsTable t
    → IsKadId id
    → operator_eq t.self_node.id id ≡ false
    → (ns : List KadNode) × (m : List Entry) × (get_k_closest_to t id ≡ some ns)
      × (find_k_closest_to id t ≡ some m)
      × Perm m (map entry_of ns)
      × Ascending m
      × (length ns ≡ min kad_id_length (length (get_all_nodes t.buckets)))
unfolding find_k_closest_to get_k_closest_to
find_k_closest_to_lem t id v h ne =
    let (ns, e, a) = get_closest_to-Answer t id kad_id_length v h ne in
    let ids = answer-All (get_all_nodes t.buckets) ns (get_all_nodes-All t v) a.member in
    let (m, f, p, up) =
      enter_nodes_lem ns [] ids (answer-Apart ns ids a.distinct) tt tt (no-Misses ns) in
    (
      ns,
      m,
      e,
      rw (find_k_closest_to, e) f,
      subst (Perm m) (append-nil (map entry_of ns)) p,
      up,
      a.size,
    )
