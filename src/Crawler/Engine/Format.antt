-- ===== src/Crawler/Engine/Format.antt =====
-- The url of a search, in an array of 512 bytes.
use sniffdogsniff.Shared.{
  ℕ, ◌+◌, ◌≡◌, refl, ap, ◌∙◌, false, Option, none, some, List, [], ◌∷◌, ◌++◌, All, length,
  length-append, leb, ◌==◌, if◌then◌else◌, arith,
}
use sniffdogsniff.Crawler.Engine.{
  SearchEngine, extracted, crashed, put_front, format_from, search_url,
}

-- A text without the character `%`.
abbrev pub IsPlain : List ℕ → Type 0
IsPlain s = All (λ c. (c == 37) ≡ false) s

format_plain : (arg : Option (List ℕ)) (s : List ℕ) → IsPlain s → format_from arg s ≡ some s
unfolding format_from
format_plain arg [] h = refl
format_plain arg (c ∷ []) (h, hs) = rw h refl
format_plain arg (c ∷ d ∷ cs) (h, hs) =
    rw h (ap (put_front (c ∷ [])) (format_plain arg (d ∷ cs) hs))

-- A format with one `%s`.
format_query :
    (query before behind : List ℕ)
    → IsPlain before
    → IsPlain behind
    → format_from (some query) (before ++ (37 ∷ 115 ∷ behind)) ≡ some (before ++ (query ++ behind))
unfolding format_from
format_query query [] behind h k = ap (put_front query) (format_plain none behind k)
format_query query (c ∷ []) behind (h, hs) k =
    rw h (ap (put_front (c ∷ [])) (format_query query [] behind tt k))
format_query query (c ∷ d ∷ cs) behind (h, hs) k =
    rw h (ap (put_front (c ∷ [])) (format_query query (d ∷ cs) behind hs k))

-- With a format that has one `%s` and no other `%`, the url is the format with the query in place of
-- it; a query with which it has 512 bytes or more, as anyone may send it, is written beyond the array.
pub search_url_lem :
    (e : SearchEngine) (query before behind : List ℕ)
    → e.search_query_url ≡ before ++ (37 ∷ 115 ∷ behind)
    → IsPlain before
    → IsPlain behind
    → search_url e query ≡ (
        if leb 512 (length before + (length query + length behind))
        then crashed
        else extracted (before ++ (query ++ behind)))
unfolding search_url
search_url_lem e query before behind f h k =
    let url = before ++ (query ++ behind) in
    let g : format_from (some query) e.search_query_url ≡ some url =
      ap (format_from (some query)) f ∙ format_query query before behind h k in
    let n : length url ≡ length before + (length query + length behind) =
      omega (arith, length-append before (query ++ behind), length-append query behind) in
    rw (g, search_url) (ap (λ (m : ℕ). if leb 512 m then crashed else extracted url) n)
