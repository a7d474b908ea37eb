-- ===== src/Kad/Bucket/Counting.antt =====
-- How often an identifier occurs in a list of nodes, and what the list operations do to that.
use sniffdogsniff.Shared.{
  ℕ, zero, suc, ◌+◌, ◌≤◌, ◌<◌, ◌≡◌, refl, sym, ap, ◌∙◌, Bool, true, false, some, arith, inl, inr,
}
use sniffdogsniff.Shared.{
  List, [], ◌∷◌, ◌++◌, erase_at, get_elem?, drop_last, sort, place, Bool-cases,
}
use sniffdogsniff.Kad.Id.{KadId, operator_eq}
use sniffdogsniff.Kad.Id.Value.{operator_eq_iff}
use sniffdogsniff.Kad.Node.{KadNode}
use sniffdogsniff.Kad.Bucket.{has_id, update_first, erase_first}

abbrev pub tally : Bool → ℕ
tally true = 1
tally false = 0

unfoldable pub count : KadId → List KadNode → ℕ
count x [] = 0
count x (n ∷ ns) = tally (operator_eq n.id x) + count x ns

pub count-append : (x : KadId) (ns ms : List KadNode) → count x (ns ++ ms) ≡ count x ns + count x ms
unfolding count
count-append x [] ms = omega arith
count-append x (n ∷ ns) ms = omega (arith, count-append x ns ms)

count-place :
    (x : KadId) (lt : KadNode → KadNode → Bool) (n : KadNode) (ns : List KadNode)
    → count x (place lt n ns) ≡ tally (operator_eq n.id x) + count x ns
unfolding count place
count-place x lt n [] = refl
count-place x lt n (m ∷ ms) = elim (Bool-cases (lt m n)) [
  | inl e ↦ rw e (omega (arith, count-place x lt n ms))
  | inr e ↦ rw e
]

pub count-sort :
    (x : KadId) (lt : KadNode → KadNode → Bool) (ns : List KadNode)
    → count x (sort lt ns) ≡ count x ns
unfolding count sort
count-sort x lt [] = refl
count-sort x lt (n ∷ ns) =
    count-place x lt n (sort lt ns)
    ∙ ap (λ (t : ℕ). tally (operator_eq n.id x) + t) (count-sort x lt ns)

pub count_absent : (x : KadId) (ns : List KadNode) → has_id x ns ≡ false → count x ns ≡ 0
unfolding count has_id
count_absent x [] h = refl
count_absent x (n ∷ ns) h = ground (arith, count_absent x ns)

pub count_present : (x : KadId) (ns : List KadNode) → has_id x ns ≡ true → 0 < count x ns
unfolding count has_id
count_present x [] h = cc
count_present x (n ∷ ns) h = ground (arith, count_present x ns)

pub has_id-count : (x : KadId) (ns : List KadNode) → 0 < count x ns → has_id x ns ≡ true
unfolding count has_id
has_id-count x [] h = absurd (omega arith)
has_id-count x (n ∷ ns) h = ground (arith, has_id-count x ns)

-- The identifier of a node decides how it counts.
pub tally_other :
    (n x : KadId) (ns : List KadNode)
    → has_id n ns ≡ false
    → tally (operator_eq n x) + count x ns ≤ 1 + count x ns
tally_other n x ns h = ground arith

pub count_same :
    (n x : KadId) (ns : List KadNode) → operator_eq n x ≡ true → count x ns ≡ count n ns
count_same n x ns e = ap (λ t. count t ns) (sym ((operator_eq_iff n x).0 e))

pub count-update_first :
    (x id : KadId) (f : KadNode → KadNode) (ns : List KadNode)
    → ((n : KadNode) → (f n).id ≡ n.id)
    → count x (update_first id f ns) ≡ count x ns
unfolding count update_first
count-update_first x id f [] h = refl
count-update_first x id f (n ∷ ns) h = elim (Bool-cases (operator_eq n.id id)) [
  | inl e ↦ rw (e, h n)
  | inr e ↦ rw e (ap (λ (t : ℕ). tally (operator_eq n.id x) + t) (count-update_first x id f ns h))
]

pub count-erase_first :
    (x id : KadId) (ns : List KadNode)
    → has_id id ns ≡ true
    → count x (erase_first id ns) + tally (operator_eq id x) ≡ count x ns
unfolding count erase_first has_id
count-erase_first x id [] h = cc
count-erase_first x id (n ∷ ns) h = elim (Bool-cases (operator_eq n.id id)) [
  | inl e ↦ rw (e, (operator_eq_iff n.id id).0 e) (omega arith)
  | inr e ↦ rw e (omega (arith, count-erase_first x id ns (rw e at h)))
]

pub count-erase_at : (x : KadId) (i : ℕ) (ns : List KadNode) → count x (erase_at i ns) ≤ count x ns
unfolding count
count-erase_at x i [] = omega arith
count-erase_at x zero (n ∷ ns) = omega arith
count-erase_at x (suc i) (n ∷ ns) = omega (arith, count-erase_at x i ns)

-- Exactly: less the node that stood there.
pub count-erase_at_found :
    (x : KadId) (i : ℕ) (n : KadNode) (ns : List KadNode)
    → get_elem? ns i ≡ some n
    → count x (erase_at i ns) + tally (operator_eq n.id x) ≡ count x ns
unfolding count
count-erase_at_found x i n [] h = cc
count-erase_at_found x zero n (m ∷ ms) h = let e : m ≡ n = ground arith in rw e (omega arith)
count-erase_at_found x (suc i) n (m ∷ ms) h = omega (arith, count-erase_at_found x i n ms h)

pub count-drop_last : (x : KadId) (ns : List KadNode) → count x (drop_last ns) ≤ count x ns
unfolding count
count-drop_last x [] = omega arith
count-drop_last x (n ∷ []) = omega arith
count-drop_last x (n ∷ m ∷ ms) = omega (arith, count-drop_last x (m ∷ ms))
