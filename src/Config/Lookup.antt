-- ===== src/Config/Lookup.antt =====
-- The lookups of the configuration file.
use sniffdogsniff.Shared.{
  ℕ, ◌≡◌, refl, ap, Option, none, some, List, [], ◌∷◌, ◌++◌, Bool-cases, inl, inr,
}
use sniffdogsniff.Shared.Bytes.{bytes_eq}
use sniffdogsniff.Config.{Section, first_value, lookup_value, lookup_strings, all_values}

abbrev pub first_of : {A : Type 0} → List A → Option A
first_of [] = none
first_of (x ∷ xs) = some x

first_of_all :
    (key : List ℕ) (vs : List (List ℕ × List ℕ)) → first_value key vs ≡ first_of (all_values key vs)
unfolding first_value all_values
first_of_all key [] = refl
first_of_all key ((k, v) ∷ vs) = elim (Bool-cases (bytes_eq k key)) [
  | inl e ↦ rw e refl
  | inr e ↦ rw e (first_of_all key vs)
]

-- `lookupValue` gives the first of the values that `lookupStrings` collects, when it starts from an
-- empty list.
pub lookup_value_lem :
    (key : List ℕ) (s : Section) → lookup_value key s ≡ first_of (lookup_strings key s [])
unfolding lookup_value lookup_strings
lookup_value_lem key s = first_of_all key s.values_list

all_values-append :
    (key : List ℕ) (vs ws : List (List ℕ × List ℕ))
    → all_values key (vs ++ ws) ≡ all_values key vs ++ all_values key ws
unfolding all_values
all_values-append key [] ws = refl
all_values-append key ((k, v) ∷ vs) ws = elim (Bool-cases (bytes_eq k key)) [
  | inl e ↦ rw e (ap (λ t. v ∷ t) (all_values-append key vs ws))
  | inr e ↦ rw e (all_values-append key vs ws)
]
