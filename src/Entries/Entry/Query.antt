-- ===== src/Entries/Entry/Query.antt =====
-- sds_core/searchentry.cpp, matchesQuery.
use sniffdogsniff.Shared.{
  ℕ, ◌+◌, ◌≡◌, refl, Bool, false, ◌&&◌, ◌||◌, not, List, [], ◌∷◌, length, arith, ltb, leb, ◌==◌,
  if◌then◌else◌, Bool-cases, inl, inr,
}
use sniffdogsniff.Text.{contains, split, to_lower}
use sniffdogsniff.Entries.Entry.{SearchEntry, PropertyMap}

-- How many of the tokens occur in the text.
unfoldable pub count_in : List (List ℕ) → List ℕ → ℕ
count_in [] text = 0
count_in (t ∷ ts) text = (if contains t text then 1 else 0) + count_in ts text

unfoldable pub count_in_properties : List (List ℕ) → PropertyMap → ℕ
count_in_properties ts [] = 0
count_in_properties ts ((k, v) ∷ m) = count_in ts (to_lower v) + count_in_properties ts m

unfoldable pub matches_query : List (List ℕ) → SearchEntry → Bool
matches_query tokens se =
    let nmatches =
      count_in tokens (to_lower se.title)
      + count_in tokens se.url
      + count_in_properties tokens se.properties in
    if ltb 1 (length tokens) && ltb 1 (length (split se.title (32 ∷ [])))
    then leb 2 nmatches
    else not (nmatches == 0)

unfoldable pub in_properties : List ℕ → PropertyMap → Bool
in_properties t [] = false
in_properties t ((k, v) ∷ m) = contains t (to_lower v) || in_properties t m

in_properties_lem :
    (t : List ℕ) (m : PropertyMap) → not (count_in_properties (t ∷ []) m == 0) ≡ in_properties t m
unfolding count_in_properties in_properties count_in
in_properties_lem t [] = refl
in_properties_lem t ((k, v) ∷ m) = elim (Bool-cases (contains t (to_lower v))) [
  | inl e ↦ rw e (ground arith)
  | inr e ↦ rw e (ground (arith, in_properties_lem t m))
]

-- A query of one token matches an entry in whose title in lower case, address or values in lower case
-- the token occurs, and no other.
pub matches_query_one :
    (t : List ℕ) (se : SearchEntry)
    → matches_query (t ∷ []) se
      ≡ (contains t (to_lower se.title) || (contains t se.url || in_properties t se.properties))
unfolding matches_query count_in
matches_query_one t se = elim (Bool-cases (contains t (to_lower se.title))) [
  | inl e ↦ rw e (ground arith)
  | inr e ↦ elim (Bool-cases (contains t se.url)) [
    | inl f ↦ rw (e, f) (ground arith)
    | inr f ↦ rw (e, f) (ground (arith, in_properties_lem t se.properties))
  ]
]
