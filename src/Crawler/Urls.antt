-- ===== src/Crawler/Urls.antt =====
-- The texts that the crawler collects as urls.
use sniffdogsniff.Shared.{
  ℕ, ◌≡◌, refl, sym, ap, ap₂, subst, ◌∙◌, true, false, Option, none, some, List, [], ◌∷◌, ◌++◌, All,
  inl, inr, Bool-cases, Option-cases, ◌==◌, ==_iff, arith,
}
use sniffdogsniff.Shared.Codes.{codes}
use sniffdogsniff.Text.{strip, find, contains}
use sniffdogsniff.Entries.Entry.{SearchEntry, new_search_entry}
use sniffdogsniff.Entries.SimHash.Init.{string_lt, of_text}
use sniffdogsniff.Crawler.{
  GumboNode, GumboNodes, element, text, other_node, nil, cons, is_skipped, get_node_text,
  made_entry,
}
use sniffdogsniff.Crawler.Scan.{
  UrlMap, set_entry, is_link, scheme, absolute_url, and_scan, scan_nodes, scan_document,
}

strip-append :
    (d s t behind : List ℕ) → strip d s ≡ some behind → strip d (s ++ t) ≡ some (behind ++ t)
unfolding strip
strip-append [] s t behind e = let e' : s ≡ behind = cc in ap (λ r. some (r ++ t)) e'
strip-append (x ∷ d) [] t behind e = cc
strip-append (x ∷ d) (c ∷ s) t behind e = elim (Bool-cases (x == c)) [
  | inl f ↦ rw f (strip-append d s t behind (rw f at e))
  | inr f ↦ let e' : ◌≡◌ {A = Option (List ℕ)} none (some behind) = rw f at e in absurd (cc)
]

-- A text of one character at least that is found in a text is found in a longer one.
find-append :
    (x : ℕ) (d s t : List ℕ) {r : List ℕ × List ℕ}
    → find (x ∷ d) s ≡ some r
    → (r' : List ℕ × List ℕ) × (find (x ∷ d) (s ++ t) ≡ some r')
unfolding find strip
find-append x d [] t e = cc
find-append x d (c ∷ s) t e = elim (Option-cases (strip (x ∷ d) (c ∷ s))) [
  | inr (a, f) ↦ let g = strip-append (x ∷ d) (c ∷ s) t a f in (([], a ++ t), rw (g, find) refl)
  | inl f ↦ elim (Option-cases (find (x ∷ d) s)) [
    | inl g ↦ absurd (none_some (sym (rw (f, g, find) refl) ∙ e))
    | inr (q, g) ↦
        let (q', h) = find-append x d s t g in
        elim (Option-cases (strip (x ∷ d) (c ∷ (s ++ t)))) [
          | inr (a, k) ↦ (([], a), rw (k, find) refl)
          | inl k ↦ ((c ∷ q'.0, q'.1), rw (k, h, find) refl)
        ]
  ]
]
  where
    none_some : {A : Type 0} {y : A} → ◌≡◌ {A = Option A} none (some y) → ⊥
    none_some e = cc

-- A text with `://` somewhere in it, which is what the code takes for an absolute url.
abbrev pub HasSchemeMark : List ℕ → Type 0
HasSchemeMark url = contains scheme url ≡ true

contains_found : (s : List ℕ) → HasSchemeMark s → (r : List ℕ × List ℕ) × (find scheme s ≡ some r)
contains_found s h = elim (Option-cases (find scheme s)) [
  | inl e ↦ let h' : false ≡ true = rw (e, contains) at h in absurd (cc)
  | inr (r, e) ↦ (r, e)
]

absolute_url-HasSchemeMark :
    (site_url href : List ℕ) → HasSchemeMark site_url → HasSchemeMark (absolute_url site_url href)
unfolding absolute_url
absolute_url-HasSchemeMark site_url href h = elim (Bool-cases (contains scheme href)) [
  | inl e ↦ rw e e
  | inr e ↦
      let (r, f) = contains_found site_url h in
      let (r', g) = find-append 58 (47 ∷ 47 ∷ []) site_url href f in rw e (rw (g, contains) refl)
]

-- An entry of the map that `scanDocument` fills: of the type SITE, with the url of its key.
abbrev pub IsLinkEntry : List ℕ × SearchEntry → Type 0
IsLinkEntry (url, se) = HasSchemeMark url × (se.url ≡ url) × (se.type ≡ 0)

made_entry_fields :
    (sha256 : List ℕ → List ℕ) (title url : List ℕ) (se : SearchEntry)
    → made_entry sha256 title url ≡ some se
    → (se.url ≡ url) × (se.type ≡ 0)
unfolding made_entry new_search_entry
made_entry_fields sha256 title url se e = elim (Option-cases (of_text title)) [
  | inl f ↦
      let e' : ◌≡◌ {A = Option SearchEntry} none (some se) = rw (f, made_entry) at e in absurd (cc)
  | inr (h, f) ↦
      let e' : some (new_search_entry sha256 h title url 0 []) ≡ some se =
        rw (f, made_entry) at e in
      let q : new_search_entry sha256 h title url 0 [] ≡ se = cc in
      (sym (ap (λ x. x.url) q), sym (ap (λ x. x.type) q))
]

==_sym : (c d : ℕ) → (c == d) ≡ true → (d == c) ≡ true
==_sym c d h = ground arith

string_eq : (s t : List ℕ) → string_lt t s ≡ false → string_lt s t ≡ false → s ≡ t
unfolding string_lt
string_eq [] [] e f = refl
string_eq [] (d ∷ t) e f = cc
string_eq (c ∷ s) [] e f = cc
string_eq (c ∷ s) (d ∷ t) e f = elim (Bool-cases (c == d)) [
  | inl g ↦
      let same : c ≡ d = (==_iff c d).0 g in
      ap₂ ◌∷◌ same (string_eq s t (rw (==_sym c d g) at e) (rw g at f))
  | inr g ↦ absurd (ground arith)
]

set_entry-IsLinkEntry :
    (url : List ℕ) (se : SearchEntry) (m : UrlMap)
    → IsLinkEntry (url, se)
    → All IsLinkEntry m
    → All IsLinkEntry (set_entry url se m)
unfolding set_entry
set_entry-IsLinkEntry url se [] h hs = (h, tt)
set_entry-IsLinkEntry url se ((k, v) ∷ m) h (j, hs) = elim (Bool-cases (string_lt k url)) [
  | inl e ↦ rw e (j, set_entry-IsLinkEntry url se m h hs)
  | inr e ↦ elim (Bool-cases (string_lt url k)) [
    | inl f ↦ rw (e, f) (h, (j, hs))
    | inr f ↦ rw (e, f) ((j.0, h.1 ∙ string_eq url k e f, h.2), hs)
  ]
]

pub none-ne-some : {A : Type 0} {x : A} → ◌≡◌ {A = Option A} none (some x) → ⊥
none-ne-some e = cc

and_scan-some :
    (o : Option UrlMap) (f : UrlMap → Option UrlMap) (m : UrlMap)
    → and_scan o f ≡ some m
    → (m' : UrlMap) × (o ≡ some m') × (f m' ≡ some m)
and_scan-some none f m e = absurd (none-ne-some e)
and_scan-some (some m') f m e = (m', refl, e)

module _ (sha256 : List ℕ → List ℕ) (site_url : List ℕ) (site : HasSchemeMark site_url) where
  scan_nodes-IsLinkEntry :
      (ns : GumboNodes) (title : List ℕ) (entries m : UrlMap)
      → All IsLinkEntry entries
      → scan_nodes sha256 site_url ns title entries ≡ some m
      → All IsLinkEntry m
  unfolding scan_nodes
  scan_nodes-IsLinkEntry nil title entries m h e =
      let e' : entries ≡ m = cc in subst (All IsLinkEntry) e' h
  scan_nodes-IsLinkEntry (cons (text s) ns) title entries m h e =
      scan_nodes-IsLinkEntry ns title entries m h e
  scan_nodes-IsLinkEntry (cons other_node ns) title entries m h e =
      scan_nodes-IsLinkEntry ns title entries m h e
  scan_nodes-IsLinkEntry (cons (element t as' below) ns) title entries m h e =
      elim (Bool-cases (is_link t)) [
        | inl link ↦ elim (Option-cases (as' (codes "href"))) [
          | inl f ↦ scan_nodes-IsLinkEntry ns title entries m h (rw (link, f, scan_nodes) at e)
          | inr (href, f) ↦
              let title' = get_node_text (element t as' below) title in
              let url = absolute_url site_url href in
              elim (Option-cases (made_entry sha256 title' url)) [
                | inl g ↦ absurd (none-ne-some (rw (link, f, g, scan_nodes) at e))
                | inr (se, g) ↦
                    let k = made_entry_fields sha256 title' url se g in
                    scan_nodes-IsLinkEntry ns title' (set_entry url se entries) m
                      (set_entry-IsLinkEntry url se entries
                        (absolute_url-HasSchemeMark site_url href site, k.0, k.1) h)
                      (rw (link, f, g, scan_nodes) at e)
              ]
        ]
        | inr link ↦ elim (Bool-cases (is_skipped t)) [
          | inl f ↦ scan_nodes-IsLinkEntry ns title entries m h (rw (link, f, scan_nodes) at e)
          | inr f ↦
              let (m', p, q) =
                and_scan-some (scan_nodes sha256 site_url below [] entries)
                  (scan_nodes sha256 site_url ns title) m (rw (link, f, scan_nodes) at e) in
              scan_nodes-IsLinkEntry ns title m' m (scan_nodes-IsLinkEntry below [] entries m' h p)
                q
        ]
      ]

  pub scan_document-IsLinkEntry :
      (n : GumboNode) (entries m : UrlMap)
      → All IsLinkEntry entries
      → scan_document sha256 n site_url entries ≡ some m
      → All IsLinkEntry m
  unfolding scan_document
  scan_document-IsLinkEntry (text s) entries m h e =
      let e' : entries ≡ m = cc in subst (All IsLinkEntry) e' h
  scan_document-IsLinkEntry other_node entries m h e =
      let e' : entries ≡ m = cc in subst (All IsLinkEntry) e' h
  scan_document-IsLinkEntry (element t as' ns) entries m h e = elim (Bool-cases (is_skipped t)) [
    | inl f ↦
        let g : some entries ≡ some m = rw (f, scan_document) at e in
        let e' : entries ≡ m = cc in subst (All IsLinkEntry) e' h
    | inr f ↦ scan_nodes-IsLinkEntry ns [] entries m h (rw (f, scan_document) at e)
  ]
