-- ===== src/Kad/Table/Invariant.antt =====
-- The invariant of the routing table: every node stands in the bucket of its height.
use sniffdogsniff.Shared.{
  ℕ, zero, suc, ◌+◌, ◌<◌, ◌≡◌, refl, sym, ap, subst, ◌∙◌, Bool, false, arith, inl, inr, some,
}
use sniffdogsniff.Shared.{
  List, [], ◌∷◌, length, length-set, get_elem?, set, get_elem?-set_self, get_elem?-set_ne,
  Bool-cases,
}
use sniffdogsniff.Shared.Bytes.{bytes_eq}
use sniffdogsniff.Kad.Id.{
  KadId, IsKadId, kad_id_bit_length, operator_minus, operator_eq, height, value,
}
use sniffdogsniff.Kad.Id.Value.{operator_eq_iff, operator_minus-IsKadId}
use sniffdogsniff.Kad.Id.Height.{height-IsHeight}
use sniffdogsniff.Kad.Id.Metric.{distance_metric}
use sniffdogsniff.Kad.Node.{KadNode, new_node, same_node}
use sniffdogsniff.Kad.Bucket.{KadBucket, empty_bucket}
use sniffdogsniff.Kad.Bucket
use sniffdogsniff.Kad.Bucket.Invariant.{IsBucket, IsFresh, empty_bucket-IsBucket}
use sniffdogsniff.Kad.Bucket.Preserve.{push_node-IsBucket, remove_node-IsBucket}
use sniffdogsniff.Kad.Bucket.Places.{Both, push_node-Both, remove_node-Both}
use sniffdogsniff.Kad.Table.{KadTable, new_table, make_buckets, in_bucket, push_node, remove_node}
use native.Mathlib.Decide.{ℕ_discrete}

-- An identifier that belongs into bucket `h` of the node `self_id`.
abbrev pub Placed : KadId → ℕ → KadId → Type 0
Placed self_id h x = IsKadId x × (height (operator_minus self_id x) ≡ some h)

abbrev pub Holds : KadId → ℕ → KadBucket → Type 0
Holds self_id h b = IsBucket b × Both (Placed self_id h) b

pub record IsTable (t : KadTable) : Type 0 where
  pub own : IsKadId t.self_node.id
  pub size : length t.buckets ≡ kad_id_bit_length
  pub holds : (h : ℕ) (b : KadBucket) → get_elem? t.buckets h ≡ some b → Holds t.self_node.id h b

make_buckets_lem :
    (self_id : KadId) (n i h : ℕ) (b : KadBucket)
    → get_elem? (make_buckets n i) h ≡ some b
    → Holds self_id (i + h) b
unfolding make_buckets empty_bucket
make_buckets_lem s zero i h b e = cc
make_buckets_lem s (suc n) i zero b e =
    subst (Holds s (i + 0)) (first e) (empty_bucket-IsBucket i, (tt, tt))
  where
    first : some (empty_bucket i) ≡ some b → empty_bucket i ≡ b
    first e = cc
make_buckets_lem s (suc n) i (suc h) b e =
    subst (λ k. Holds s k b) (omega arith) (make_buckets_lem s n (suc i) h b e)

length-make_buckets : (n i : ℕ) → length (make_buckets n i) ≡ n
unfolding make_buckets
length-make_buckets zero i = refl
length-make_buckets (suc n) i = ap suc (length-make_buckets n (suc i))

-- A new table, whose own identifier has 16 bytes, is well formed.
pub new_table-IsTable : (self_id : KadId) → IsKadId self_id → IsTable (new_table self_id)
unfolding new_table new_node
new_table-IsTable self_id v = record {
  own = v;
  size = length-make_buckets kad_id_bit_length 0;
  holds = λ h b e.
      subst (λ k. Holds self_id k b) (zero_add h)
        (make_buckets_lem self_id kad_id_bit_length 0 h b e);
}
  where
    zero_add : (h : ℕ) → 0 + h ≡ h
    zero_add h = omega arith

get_elem?-some {ℓ} :
    {A : Type ℓ} (xs : List A) (i : ℕ) → i < length xs → (x : A) × (get_elem? xs i ≡ some x)
get_elem?-some [] i h = elim h [ ]
get_elem?-some (x ∷ xs) zero h = (x, refl)
get_elem?-some (x ∷ xs) (suc i) h = get_elem?-some xs i (omega arith)

-- The distance of two nodes with different identifiers has a height.
pub height_total :
    (x y : KadId)
    → IsKadId x
    → IsKadId y
    → operator_eq x y ≡ false
    → (h : ℕ) × (height (operator_minus x y) ≡ some h) × (h < kad_id_bit_length)
height_total x y hx hy e =
    let (h, eq, is, lt) =
      height-IsHeight (operator_minus x y) (operator_minus-IsKadId x y hx hy)
        (pos (value (operator_minus x y)) refl) in
    (h, eq, lt)
  where
    pos : (v : ℕ) → value (operator_minus x y) ≡ v → 0 < v
    pos zero z = cc ((operator_eq_iff x y).1 ((distance_metric x y y hx hy hy).0.0 z))
    pos (suc v) z = omega arith

some_inj {ℓ} : {A : Type ℓ} {a b : A} → some a ≡ some b → a ≡ b
some_inj e = cc

-- A change of one bucket that keeps what holds of it keeps the table.
in_bucket-IsTable :
    (change : KadBucket → Bool × KadBucket) (h : ℕ) (t : KadTable)
    → IsTable t
    → h < kad_id_bit_length
    → ((b : KadBucket) → Holds t.self_node.id h b → Holds t.self_node.id h (change b).1)
    → (found : Bool) × (t' : KadTable) × (in_bucket change h t ≡ some (found, t')) × IsTable t'
unfolding in_bucket
in_bucket-IsTable change h t v lt keep =
    let (b, e) = get_elem?-some t.buckets h (omega (arith, v.size)) in
    (
      (change b).0,
      record t { buckets = set t.buckets h (change b).1 },
      rw e,
      record {
        own = v.own;
        size = length-set t.buckets h (change b).1 ∙ v.size;
        holds = λ k c e'. at b e k c e' (ℕ_discrete h k);
      },
    )
  where
    at :
        (b : KadBucket)
        → get_elem? t.buckets h ≡ some b
        → (k : ℕ) (c : KadBucket) → get_elem? (set t.buckets h (change b).1) k ≡ some c
        → Dec (h ≡ k)
        → Holds t.self_node.id k c
    at b e k c e' (yes p) =
        subst (λ j. Holds t.self_node.id j c) p
          (subst (Holds t.self_node.id h)
            (some_inj (
              sym (get_elem?-set_self t.buckets h (change b).1 (omega (arith, v.size)))
              ∙ ap (get_elem? (set t.buckets h (change b).1)) p
              ∙ e'))
            (keep b (v.holds h b e)))
    at b e k c e' (no p) = v.holds k c (sym (get_elem?-set_ne t.buckets (change b).1 p) ∙ e')

-- On a well-formed table `pushNode` ends for every node with an identifier of 16 bytes that is not
-- stale, without an access outside an array, and the table stays well formed: each node stands in the
-- bucket of its height, and each bucket is within its limits and free of duplicates.
pub push_node-IsTable :
    (now : ℕ) (kn : KadNode) (t : KadTable)
    → IsTable t
    → IsKadId kn.id
    → IsFresh kn
    → (found : Bool) × (t' : KadTable) × (push_node now kn t ≡ some (found, t')) × IsTable t'
unfolding push_node same_node
push_node-IsTable now kn t v hk fresh = elim (Bool-cases (operator_eq t.self_node.id kn.id)) [
  | inl e ↦ (false, t, rw e, v)
  | inr e ↦ elim (Bool-cases (bytes_eq t.self_node.address kn.address)) [
    | inl a ↦ (false, t, rw (e, a), v)
    | inr a ↦
        let (h, eq, lt) = height_total t.self_node.id kn.id v.own hk e in
        let (f, t', r, v') = in_bucket-IsTable (Bucket.push_node now kn) h t v lt (λ b hb. (
          push_node-IsBucket now kn b fresh hb.0,
          push_node-Both (Placed t.self_node.id h) now kn b (hk, eq) hb.1,
        )) in
        (f, t', rw (e, a, eq) r, v')
  ]
]

-- On a well-formed table `removeNode` ends for every identifier of 16 bytes, and the table stays well
-- formed.
pub remove_node-IsTable :
    (id : KadId) (t : KadTable)
    → IsTable t
    → IsKadId id
    → (found : Bool) × (t' : KadTable) × (remove_node id t ≡ some (found, t')) × IsTable t'
unfolding remove_node
remove_node-IsTable id t v hk = elim (Bool-cases (operator_eq t.self_node.id id)) [
  | inl e ↦ (false, t, rw e, v)
  | inr e ↦
      let (h, eq, lt) = height_total t.self_node.id id v.own hk e in
      let (f, t', r, v') = in_bucket-IsTable (Bucket.remove_node id) h t v lt (λ b hb.
        (remove_node-IsBucket id b hb.0, remove_node-Both (Placed t.self_node.id h) id b hb.1)) in
      (f, t', rw (e, eq) r, v')
]
