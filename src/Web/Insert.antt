-- ===== src/Web/Insert.antt =====
-- The entries that are inserted through the web interface.
use sniffdogsniff.Shared.{
  subst, ℕ, ◌≡◌, refl, sym, ap, ◌∙◌, Option, none, some, List, [], ◌∷◌, inl, inr, Option-cases,
  if◌then◌else◌,
}
use sniffdogsniff.Shared.Codes.{codes}
use sniffdogsniff.Kad.Id.{KadId}
use sniffdogsniff.Http.{HttpRequest}
use sniffdogsniff.Entries.Entry.{
  SearchEntry, new_search_entry, add_property, set_property, find_property,
}
use sniffdogsniff.Entries.SimHash.Init.{of_text}
use sniffdogsniff.Web.{value_of, is_empty, with_property, entry_of_request}

-- A value of the form, which becomes a property unless it is empty.
abbrev pub field_value : List ℕ → Option (List ℕ)
field_value v = if is_empty v then none else some v

-- What the entry takes from the request.
pub record IsEntryOf (sha256 : List ℕ → List ℕ) (req : HttpRequest) (se : SearchEntry)
    : Type 0 where
  pub title : se.title ≡ value_of (codes "link_title") req.values
  pub url : se.url ≡ value_of (codes "link_url") req.values
  pub hash : se.hash ≡ sha256 (value_of (codes "link_title") req.values)
  pub sim_hash : of_text (value_of (codes "link_title") req.values) ≡ some se.sim_hash
  pub type : se.type ≡ 0
  pub description :
      find_property 0 se.properties
      ≡ field_value (value_of (codes "property_description") req.values)
  pub tags :
      find_property 1 se.properties ≡ field_value (value_of (codes "property_tags") req.values)
  pub origin :
      find_property 2 se.properties ≡ field_value (value_of (codes "property_origin") req.values)

-- The three properties, for values that are empty or not.
module _ (sha256 : List ℕ → List ℕ) (h : KadId) (title url : List ℕ) where
  filled : List ℕ → List ℕ → List ℕ → SearchEntry
  filled d t o =
      with_property 2 o
        (with_property 1 t (with_property 0 d (new_search_entry sha256 h title url 0 [])))

  filled_fields :
      (d t o : List ℕ)
      → ((filled d t o).title ≡ title)
        × ((filled d t o).url ≡ url)
        × ((filled d t o).hash ≡ sha256 title)
        × ((filled d t o).sim_hash ≡ h)
        × ((filled d t o).type ≡ 0)
        × (find_property 0 (filled d t o).properties ≡ field_value d)
        × (find_property 1 (filled d t o).properties ≡ field_value t)
        × (find_property 2 (filled d t o).properties ≡ field_value o)
  unfolding filled with_property add_property set_property find_property new_search_entry
  filled_fields [] [] [] = (refl, refl, refl, refl, refl, refl, refl, refl)
  filled_fields [] [] (c ∷ o) = (refl, refl, refl, refl, refl, refl, refl, refl)
  filled_fields [] (b ∷ t) [] = (refl, refl, refl, refl, refl, refl, refl, refl)
  filled_fields [] (b ∷ t) (c ∷ o) = (refl, refl, refl, refl, refl, refl, refl, refl)
  filled_fields (a ∷ d) [] [] = (refl, refl, refl, refl, refl, refl, refl, refl)
  filled_fields (a ∷ d) [] (c ∷ o) = (refl, refl, refl, refl, refl, refl, refl, refl)
  filled_fields (a ∷ d) (b ∷ t) [] = (refl, refl, refl, refl, refl, refl, refl, refl)
  filled_fields (a ∷ d) (b ∷ t) (c ∷ o) = (refl, refl, refl, refl, refl, refl, refl, refl)

-- The entry of a form has the title, the url and the values of the form that are not empty, and the
-- type 0 whatever category has been chosen.
pub entry_of_request-IsEntryOf :
    (sha256 : List ℕ → List ℕ) (req : HttpRequest) (se : SearchEntry)
    → entry_of_request sha256 req ≡ some se
    → IsEntryOf sha256 req se
unfolding entry_of_request filled
entry_of_request-IsEntryOf sha256 req se e =
    let title = value_of (codes "link_title") req.values in
    let url = value_of (codes "link_url") req.values in
    let d = value_of (codes "property_description") req.values in
    let t = value_of (codes "property_tags") req.values in
    let o = value_of (codes "property_origin") req.values in
    elim (Option-cases (of_text title)) [
      | inl f ↦
          let e' : ◌≡◌ {A = Option SearchEntry} none (some se) = rw (f, entry_of_request) at e in
          absurd (cc)
      | inr (h, f) ↦
          let e' : some (filled sha256 h title url d t o) ≡ some se =
            rw (f, entry_of_request) at e in
          let q : filled sha256 h title url d t o ≡ se = cc in
          let k = filled_fields sha256 h title url d t o in
          subst (IsEntryOf sha256 req) q (record {
            title = k.0;
            url = k.1;
            hash = k.2;
            sim_hash = f ∙ ap some (sym k.3);
            type = k.4;
            description = k.5;
            tags = k.6;
            origin = k.7;
          })
    ]
