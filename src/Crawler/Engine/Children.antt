-- ===== src/Crawler/Engine/Children.antt =====
-- The loop over the children of the node that holds the results.
use sniffdogsniff.Shared.{
  ℕ, zero, suc, ◌+◌, ◌≤◌, ◌<◌, ◌≡◌, refl, sym, ap, ◌∙◌, Bool, none, some, List, [], ◌∷◌, inl, inr,
  Bool-cases, if◌then◌else◌, arith,
}
use sniffdogsniff.Entries.Entry.{SearchEntry}
use sniffdogsniff.Crawler.{
  GumboNode, GumboNodes, element, text, other_node, nil, cons, has_attr, children, next_by_attr,
  drop_nodes, get_next_element_by_attr,
}
use sniffdogsniff.Crawler.Search.{matches_attr}
use sniffdogsniff.Crawler.Engine.{
  SearchEngine, Extracted, extracted, crashed, attrb, rest_of, and_then, add_result, results_loop,
  count_nodes,
}

-- The children that have the attribute.
pub matching : List ℕ → List ℕ → GumboNodes → List GumboNode
matching name value nil = []
matching name value (cons n ns) =
    if matches_attr name value n then n ∷ matching name value ns else matching name value ns

count-drop_nodes : (k : ℕ) (ns : GumboNodes) → count_nodes (drop_nodes k ns) ≤ count_nodes ns
unfolding drop_nodes count_nodes
count-drop_nodes zero ns = omega arith
count-drop_nodes (suc k) nil = omega arith
count-drop_nodes (suc k) (cons n ns) = omega (arith, count-drop_nodes k ns)

module _ (name value : List ℕ) where
  -- The next child that is found, and the children behind it.
  data Found (i : ℕ) (ns : GumboNodes) : Type 0 where
    none_left : next_by_attr name value i ns ≡ none → matching name value ns ≡ [] → Found i ns
    found :
        (k : ℕ) (n : GumboNode)
        → next_by_attr name value i ns ≡ some (k + i, n)
        → matching name value ns ≡ n ∷ matching name value (drop_nodes (suc k) ns)
        → Found i ns

  later :
      (i : ℕ) (n : GumboNode) (ns : GumboNodes)
      → next_by_attr name value i (cons n ns) ≡ next_by_attr name value (suc i) ns
      → matching name value (cons n ns) ≡ matching name value ns
      → Found (suc i) ns
      → Found i (cons n ns)
  unfolding drop_nodes
  later i n ns e f (none_left g h) = none_left (e ∙ g) (f ∙ h)
  later i n ns e f (found k m g h) =
      found (suc k) m (e ∙ g ∙ ap (λ (j : ℕ). some (j, m)) (omega arith)) (f ∙ h)

  next_lem : (i : ℕ) (ns : GumboNodes) → Found i ns
  unfolding next_by_attr has_attr matching matches_attr drop_nodes
  next_lem i nil = none_left refl refl
  next_lem i (cons (element t as' below) ns) = elim (Bool-cases (has_attr name value as')) [
    | inl e ↦
        found 0 (element t as' below)
          (rw e (ap (λ (j : ℕ). some (j, element t as' below)) (omega arith))) (rw e refl)
    | inr e ↦ later i (element t as' below) ns (rw e refl) (rw e refl) (next_lem (suc i) ns)
  ]
  next_lem i (cons (text s) ns) = later i (text s) ns refl refl (next_lem (suc i) ns)
  next_lem i (cons other_node ns) = later i other_node ns refl refl (next_lem (suc i) ns)

  count-drop_found :
      (i k : ℕ) (ns : GumboNodes) {r : ℕ × GumboNode}
      → next_by_attr name value i ns ≡ some r
      → count_nodes (drop_nodes (suc k) ns) < count_nodes ns
  unfolding drop_nodes count_nodes next_by_attr
  count-drop_found i k nil e = cc
  count-drop_found i k (cons n ns) e = omega (arith, count-drop_nodes k ns)

  count-none : (ns : GumboNodes) → count_nodes ns ≤ 0 → matching name value ns ≡ []
  unfolding count_nodes matching
  count-none nil h = refl
  count-none (cons n ns) h = absurd (omega arith)

drop_same : {m n : ℕ} (ns : GumboNodes) → m ≡ n → drop_nodes m ns ≡ drop_nodes n ns
drop_same ns e = ap (λ k. drop_nodes k ns) e

drop_nil : (n : ℕ) → drop_nodes n nil ≡ nil
unfolding drop_nodes
drop_nil zero = refl
drop_nil (suc n) = refl

drop_nodes-drop_nodes :
    (a b : ℕ) (ns : GumboNodes) → drop_nodes a (drop_nodes b ns) ≡ drop_nodes (b + a) ns
unfolding drop_nodes
drop_nodes-drop_nodes a zero ns = drop_same {m = a} {n = 0 + a} ns (omega arith)
drop_nodes-drop_nodes zero (suc b) nil = sym (drop_nil (suc b + 0))
drop_nodes-drop_nodes (suc a) (suc b) nil = sym (drop_nil (suc b + suc a))
drop_nodes-drop_nodes a (suc b) (cons n ns) =
    drop_nodes-drop_nodes a b ns
    ∙ drop_same {m = suc (b + a)} {n = suc b + a} (cons n ns) (omega arith)

module _ (sha256 : List ℕ → List ℕ) (stray : List ℕ → Bool) (behind : List ℕ)
    (e : SearchEngine) where
  -- The results of these nodes, one after the other.
  pub add_all : List GumboNode → List SearchEntry → Extracted (List SearchEntry)
  add_all [] entries = extracted entries
  add_all (n ∷ ns) entries = and_then (add_result sha256 stray behind e n entries) (add_all ns)

  and_then_same :
      (r : Extracted (List SearchEntry)) (f g : List SearchEntry → Extracted (List SearchEntry))
      → ((entries : List SearchEntry) → f entries ≡ g entries)
      → and_then r f ≡ and_then r g
  and_then_same (extracted entries) f g h = h entries
  and_then_same crashed f g h = refl

  abbrev pub found_children : GumboNodes → List GumboNode
  found_children ns =
      matching (attrb e.result_container_element)
        (rest_of sha256 stray behind e.result_container_element) ns

  results_loop_lem :
      (fuel pos : ℕ) (parent : GumboNode) (entries : List SearchEntry)
      → count_nodes (drop_nodes (suc pos) (children parent)) ≤ fuel
      → results_loop sha256 stray behind fuel e parent pos entries
        ≡ add_all (found_children (drop_nodes (suc pos) (children parent))) entries
  unfolding results_loop add_all get_next_element_by_attr
  results_loop_lem zero pos parent entries h =
      let ns = drop_nodes (suc pos) (children parent) in
      ap (λ l. add_all l entries) (sym (count-none _ _ ns h))
  results_loop_lem (suc fuel) pos parent entries h =
      let ns = drop_nodes (suc pos) (children parent) in
      elim (next_lem (attrb e.result_container_element)
        (rest_of sha256 stray behind e.result_container_element) (suc pos) ns) [
          | none_left g m ↦ rw (g, results_loop) (ap (λ l. add_all l entries) (sym m))
          | found k n g m ↦
              let d : drop_nodes (suc (k + suc pos)) (children parent) ≡ drop_nodes (suc k) ns =
                drop_same (children parent) (omega arith)
                ∙ sym (drop_nodes-drop_nodes (suc k) (suc pos) (children parent)) in
              let c = count-drop_found _ _ (suc pos) k ns g in
              rw (g, results_loop)
                (and_then_same (add_result sha256 stray behind e n entries)
                    (results_loop sha256 stray behind fuel e parent (k + suc pos))
                    (add_all (found_children (drop_nodes (suc k) ns)))
                    (λ es.
                      results_loop_lem fuel (k + suc pos) parent es
                        (omega (arith, c, ap count_nodes d))
                      ∙ ap (λ l. add_all (found_children l) es) d)
                  ∙ ap (λ l. add_all l entries) (sym m))
        ]

  -- The loop over the results comes to its end and adds the results of the children that have the
  -- attribute of a result in their order, without the first child of all, which is never looked at.
  pub results_loop-add_all :
      (parent : GumboNode) (entries : List SearchEntry)
      → results_loop sha256 stray behind (count_nodes (children parent)) e parent 0 entries
        ≡ add_all (found_children (drop_nodes 1 (children parent))) entries
  results_loop-add_all parent entries =
      results_loop_lem (count_nodes (children parent)) 0 parent entries
        (count-drop_nodes 1 (children parent))
