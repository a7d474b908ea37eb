-- ===== src/Crawler/Search.antt =====
-- The searches of crawler/crawlerutils.cpp against the nodes of the tree in the order of the page.
use sniffdogsniff.Shared.{
  ℕ, ◌≡◌, refl, sym, ap, ◌∙◌, Bool, false, Option, none, some, List, [], ◌∷◌, ◌++◌, inl, inr,
  Bool-cases, if◌then◌else◌,
}
use sniffdogsniff.Text.{contains}
use sniffdogsniff.Crawler.{
  GumboNode, GumboNodes, element, text, other_node, nil, cons, is_skipped, has_attr, or_else,
  get_element_by_attr, first_by_attr,
}

-- The elements that are not inside of a style, a script or metadata, each before those inside of it.
mutual
  pub visible : GumboNode → List GumboNode
  visible (element t as' ns) = if is_skipped t then [] else element t as' ns ∷ visible_nodes ns
  visible (text s) = []
  visible other_node = []

  pub visible_nodes : GumboNodes → List GumboNode
  visible_nodes nil = []
  visible_nodes (cons n ns) = visible n ++ visible_nodes ns

-- An element with an attribute of that name whose value has the text in it.
unfoldable pub matches_attr : List ℕ → List ℕ → GumboNode → Bool
matches_attr name value (element t as' ns) = elim (as' name) [
  | none ↦ false
  | some v ↦ contains value v
]
matches_attr name value (text s) = false
matches_attr name value other_node = false

pub first_of : (GumboNode → Bool) → List GumboNode → Option GumboNode
first_of p [] = none
first_of p (n ∷ ns) = if p n then some n else first_of p ns

first_of-append :
    (p : GumboNode → Bool) (ns ms : List GumboNode)
    → first_of p (ns ++ ms) ≡ or_else (first_of p ns) (first_of p ms)
unfolding first_of
first_of-append p [] ms = refl
first_of-append p (n ∷ ns) ms = elim (Bool-cases (p n)) [
  | inl e ↦ rw e refl
  | inr e ↦ rw e (first_of-append p ns ms)
]

mutual
  unfolding get_element_by_attr first_by_attr has_attr visible visible_nodes first_of matches_attr

  found_element :
      (name value : List ℕ) (n : GumboNode)
      → get_element_by_attr name value n ≡ first_of (matches_attr name value) (visible n)
  found_element name value (element t as' ns) = elim (Bool-cases (is_skipped t)) [
    | inl e ↦ rw e refl
    | inr e ↦ elim (Bool-cases (has_attr name value as')) [
      | inl f ↦ rw (e, f) refl
      | inr f ↦ rw (e, f) (found_first name value ns)
    ]
  ]
  found_element name value (text s) = refl
  found_element name value other_node = refl

  found_first :
      (name value : List ℕ) (ns : GumboNodes)
      → first_by_attr name value ns ≡ first_of (matches_attr name value) (visible_nodes ns)
  found_first name value nil = refl
  found_first name value (cons n ns) =
      ap (λ o. or_else o (first_by_attr name value ns)) (found_element name value n)
      ∙ ap (or_else (first_of (matches_attr name value) (visible n))) (found_first name value ns)
      ∙ sym (first_of-append (matches_attr name value) (visible n) (visible_nodes ns))
