-- ===== src/LocalNode/Publish/Unseen.antt =====
-- The nodes that entries are sent to, and the identifiers that are looked up.
use sniffdogsniff.Shared.{
  ℕ, zero, suc, ◌+◌, ◌≤◌, ◌<◌, ◌≡◌, ◌≢◌, ◌⊎◌, refl, ap, subst, true, false, Option, none, some,
  List, [], ◌∷◌, All, inl, inr, Bool-cases, Option-cases, length, arith,
}
use sniffdogsniff.Kad.Id.{KadId, IsKadId, id_nbits_far_from, operator_minus, height}
use sniffdogsniff.Kad.Id.Metric.{id_nbits_far_from_lem}
use sniffdogsniff.Kad.Node.{KadNode, node_before}
use sniffdogsniff.Kad.Table.{KadTable, get_k_closest_to, is_full}
use sniffdogsniff.Entries.Entry.{SearchEntry}
use sniffdogsniff.LocalNode.Publish.{
  PublishMap, add_for, add_for_all, assign, without, far_ids, ids_to_look,
}

-- From later times to earlier ones, each once.
abbrev pub Falling : PublishMap → Type 0
Falling [] = Unit {0}
Falling (e ∷ m) = All (λ d. d.0.last_seen < e.0.last_seen) m × Falling m

add_for-All :
    (t : ℕ) (kn : KadNode) (se : SearchEntry) (m : PublishMap)
    → kn.last_seen < t
    → All (λ d. d.0.last_seen < t) m
    → All (λ d. d.0.last_seen < t) (add_for kn se m)
unfolding add_for
add_for-All t kn se [] h hs = (h, tt)
add_for-All t kn se ((n, ses) ∷ m) h (k, hs) = elim (Bool-cases (node_before n kn)) [
  | inl e ↦ rw e (k, add_for-All t kn se m h hs)
  | inr e ↦ elim (Bool-cases (node_before kn n)) [
    | inl f ↦ rw (e, f) (h, (k, hs))
    | inr f ↦ rw (e, f) (k, hs)
  ]
]

All-below :
    (s t : ℕ) (m : PublishMap)
    → s < t
    → All (λ d. d.0.last_seen < s) m
    → All (λ d. d.0.last_seen < t) m
All-below s t [] h hs = tt
All-below s t (d ∷ m) h (k, hs) = (omega arith, All-below s t m h hs)

before-lt : (a b : KadNode) → node_before a b ≡ true → b.last_seen < a.last_seen
unfolding node_before
before-lt a b h = ground arith

before-le : (a b : KadNode) → node_before a b ≡ false → a.last_seen ≤ b.last_seen
unfolding node_before
before-le a b h = ground arith

add_for-Falling :
    (kn : KadNode) (se : SearchEntry) (m : PublishMap) → Falling m → Falling (add_for kn se m)
unfolding add_for
add_for-Falling kn se [] h = (tt, tt)
add_for-Falling kn se ((n, ses) ∷ m) (lt, h) = elim (Bool-cases (node_before n kn)) [
  | inl e ↦ rw e (add_for-All n.last_seen kn se m (before-lt n kn e) lt, add_for-Falling kn se m h)
  | inr e ↦ elim (Bool-cases (node_before kn n)) [
    | inl f ↦
        let k = before-lt kn n f in
        rw (e, f) ((k, All-below n.last_seen kn.last_seen m k lt), (lt, h))
    | inr f ↦ rw (e, f) (lt, h)
  ]
]

add_for_all-Falling :
    (se : SearchEntry) (ns : List KadNode) (m : PublishMap)
    → Falling m
    → Falling (add_for_all se ns m)
unfolding add_for_all
add_for_all-Falling se [] m h = h
add_for_all-Falling se (kn ∷ ns) m h =
    add_for_all-Falling se ns (add_for kn se m) (add_for-Falling kn se m h)

assign-Falling :
    (t : KadTable) (results : List SearchEntry) (m m' : PublishMap)
    → Falling m
    → assign t results m ≡ some m'
    → Falling m'
unfolding assign
assign-Falling t [] m m' h e = let e' : m ≡ m' = cc in subst Falling e' h
assign-Falling t (se ∷ ses) m m' h e = elim (Option-cases (get_k_closest_to t se.sim_hash)) [
  | inl f ↦ let e' : ◌≡◌ {A = Option PublishMap} none (some m') = rw (f, assign) at e in absurd (cc)
  | inr (ns, f) ↦
      assign-Falling t ses (add_for_all se ns m) m' (add_for_all-Falling se ns m h)
        (rw (f, assign) at e)
]

-- A node that is seen at another time than the own node.
abbrev pub IsOther : KadNode → KadNode × List SearchEntry → Type 0
IsOther self e = e.0.last_seen ≢ self.last_seen

earlier_others :
    (self : KadNode) (t : ℕ) (m : PublishMap)
    → t ≤ self.last_seen
    → All (λ d. d.0.last_seen < t) m
    → All (IsOther self) m
earlier_others self t [] h hs = tt
earlier_others self t (d ∷ m) h (k, hs) = (λ e. omega arith, earlier_others self t m h hs)

without-IsOther :
    (self : KadNode) (m : PublishMap) → Falling m → All (IsOther self) (without self m)
unfolding without
without-IsOther self [] h = tt
without-IsOther self ((n, ses) ∷ m) (lt, h) = elim (Bool-cases (node_before n self)) [
  | inl e ↦ let k = before-lt n self e in rw e (λ q. omega arith, without-IsOther self m h)
  | inr e ↦
      let le = before-le n self e in
      elim (Bool-cases (node_before self n)) [
        | inl f ↦
            let k = before-lt self n f in
            rw (e, f) (λ q. omega arith, earlier_others self n.last_seen m le lt)
        | inr f ↦ rw (e, f) (earlier_others self n.last_seen m le lt)
      ]
]

-- When the entries have been assigned, the publication sends nothing to a node with the time
-- last seen of the own node, whichever entries are closest to it.
pub assign-without :
    (t : KadTable) (results : List SearchEntry) (m : PublishMap)
    → assign t results [] ≡ some m
    → All (IsOther t.self_node) (without t.self_node m)
assign-without t results m e = without-IsOther t.self_node m (assign-Falling t results [] m tt e)

far_ids-height :
    (n i : ℕ) (self : KadId)
    → IsKadId self
    → 0 < i
    → n + i ≤ 129
    → All (λ id. height (operator_minus id self) ≡ some 127) (far_ids n i self)
unfolding far_ids
far_ids-height zero i self v h k = tt
far_ids-height (suc n) i self v h k = (
  positive_height (id_nbits_far_from_lem self i v (omega arith)).1,
  far_ids-height n (suc i) self v (omega arith) (omega arith),
)
  where
    positive_height :
        (i ≡ 0) ⊎ (height (operator_minus (id_nbits_far_from self i) self) ≡ some 127)
        → height (operator_minus (id_nbits_far_from self i) self) ≡ some 127
    positive_height (inl e) = absurd (omega arith)
    positive_height (inr e) = e

length-far_ids : (n i : ℕ) (self : KadId) → length (far_ids n i self) ≡ n
unfolding far_ids
length-far_ids zero i self = refl
length-far_ids (suc n) i self = ap suc (length-far_ids n (suc i) self)

-- While the table is not full, 127 of the 128 identifiers that the task looks up lie in one bucket, the
-- one of the height 127.
pub ids_to_look-height :
    (now : ℕ) (rand : ℕ → ℕ) (t : KadTable)
    → IsKadId t.self_node.id
    → is_full t ≡ false
    → (first : KadId) × (others : List KadId) × (ids_to_look now rand t ≡ some (first ∷ others))
      × (length others ≡ 127)
      × All (λ id. height (operator_minus id t.self_node.id) ≡ some 127) others
unfolding ids_to_look far_ids
ids_to_look-height now rand t v f = (
  id_nbits_far_from t.self_node.id 0,
  far_ids 127 1 t.self_node.id,
  rw (f, ids_to_look) refl,
  length-far_ids 127 1 t.self_node.id,
  far_ids-height 127 1 t.self_node.id v (omega arith) (omega arith),
)
