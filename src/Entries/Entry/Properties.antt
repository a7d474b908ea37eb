-- ===== src/Entries/Entry/Properties.antt =====
-- The map of the properties of an entry.
use sniffdogsniff.Shared.{
  ℕ, ◌≤◌, ◌<◌, ◌≡◌, refl, false, some, none, List, [], ◌∷◌, All, arith, ltb, ◌==◌, if◌then◌else◌,
  Bool-cases, inl, inr,
}
use sniffdogsniff.Entries.Entry.{
  PropertyMap, SearchEntry, set_property, find_property, erase_property, add_property,
  remove_property,
}

-- The keys go up.
abbrev pub Ascending : PropertyMap → Type 0
Ascending [] = Unit {0}
Ascending (e ∷ m) = All (λ x. e.0 < x.0) m × Ascending m

set_property-All :
    (P : ℕ × List ℕ → Type 0) (k : ℕ) (v : List ℕ) (m : PropertyMap)
    → P (k, v)
    → All P m
    → All P (set_property k v m)
unfolding set_property
set_property-All P k v [] p h = (p, tt)
set_property-All P k v ((j, w) ∷ m) p (q, h) = elim (Bool-cases (ltb j k)) [
  | inl e ↦ rw e (q, set_property-All P k v m p h)
  | inr e ↦ elim (Bool-cases (j == k)) [ inl d ↦ rw (e, d) (p, h) | inr d ↦ rw (e, d) (p, (q, h)) ]
]

All-less : (k j : ℕ) (m : PropertyMap) → k ≤ j → All (λ x. j < x.0) m → All (λ x. k < x.0) m
All-less k j [] lt h = tt
All-less k j (x ∷ m) lt (h, hs) = (omega arith, All-less k j m lt hs)

-- A property that is set keeps the keys in order, each once.
pub set_property-Ascending :
    (k : ℕ) (v : List ℕ) (m : PropertyMap) → Ascending m → Ascending (set_property k v m)
unfolding set_property
set_property-Ascending k v [] h = (tt, tt)
set_property-Ascending k v ((j, w) ∷ m) (lt, h) = elim (Bool-cases (ltb j k)) [
  | inl e ↦
      rw e (set_property-All (λ x. j < x.0) k v m (ground arith) lt, set_property-Ascending k v m h)
  | inr e ↦ elim (Bool-cases (j == k)) [
    | inl d ↦ rw (e, d) (All-less k j m (ground arith) lt, h)
    | inr d ↦ rw (e, d) ((ground arith, All-less k j m (ground arith) lt), (lt, h))
  ]
]

find_set_property :
    (k j : ℕ) (v : List ℕ) (m : PropertyMap)
    → find_property j (set_property k v m) ≡ (if k == j then some v else find_property j m)
unfolding set_property find_property
find_set_property k j v [] = refl
find_set_property k j v ((i, w) ∷ m) = elim (Bool-cases (ltb i k)) [
  | inl e ↦ rw e (ground (arith, find_set_property k j v m))
  | inr e ↦ elim (Bool-cases (i == k)) [ inl d ↦ rw (e, d) (ground arith) | inr d ↦ rw (e, d) refl ]
]

-- A set property is found, and no other changes.
pub find_property-add_property :
    (k j : ℕ) (v : List ℕ) (se : SearchEntry)
    → find_property j (add_property k v se).properties
      ≡ (if k == j then some v else find_property j se.properties)
unfolding add_property
find_property-add_property k j v se = find_set_property k j v se.properties

-- Adding a property keeps the keys of an entry in order, each once.
pub add_property-Ascending :
    (k : ℕ) (v : List ℕ) (se : SearchEntry)
    → Ascending se.properties
    → Ascending (add_property k v se).properties
unfolding add_property
add_property-Ascending k v se h = set_property-Ascending k v se.properties h

find_erased :
    (k j : ℕ) (m : PropertyMap)
    → Ascending m
    → find_property j (erase_property k m) ≡ (if k == j then none else find_property j m)
unfolding erase_property find_property
find_erased k j [] h = ground arith
find_erased k j ((i, w) ∷ m) (lt, h) = elim (Bool-cases (i == k)) [
  | inl e ↦ rw e (ground (arith, missing i m lt))
  | inr e ↦ rw e (ground (arith, find_erased k j m h))
]
  where
    missing : (i : ℕ) (m : PropertyMap) → All (λ x. i < x.0) m → find_property i m ≡ none
    missing i [] h = refl
    missing i ((l, u) ∷ m) (lt, h) =
        let unlike : (l == i) ≡ false = ground arith in rw unlike (missing i m h)

-- In an entry whose keys are in order, a removed property is no longer found, and no other changes.
pub find_property-remove_property :
    (k j : ℕ) (se : SearchEntry)
    → Ascending se.properties
    → find_property j (remove_property k se).properties
      ≡ (if k == j then none else find_property j se.properties)
unfolding remove_property
find_property-remove_property k j se h = find_erased k j se.properties h
