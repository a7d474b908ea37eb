-- ===== src/Crawler/Engine.antt =====
-- crawler/searchengine.cpp: a search at a search engine of the web. What is downloaded is an argument,
-- the tree of the page or `none`.
pub mod Format
pub mod Children
use sniffdogsniff.Shared.{
  ℕ, zero, suc, ◌+◌, Bool, true, false, Option, none, some, List, [], ◌∷◌, ◌++◌, length, leb, ltb,
  ◌==◌, if◌then◌else◌,
}
use sniffdogsniff.Shared.Codes.{codes}
use sniffdogsniff.Config.{Section, lookup_string}
use sniffdogsniff.Entries.Entry.{SearchEntry, new_search_entry}
use sniffdogsniff.Entries.SimHash.Init.{of_text}
use sniffdogsniff.Crawler.{
  GumboNode, GumboNodes, element, text, other_node, nil, cons, Attributes, get_element_by_attr,
  get_next_element_by_attr, get_document_body, get_node_text, children, made_entry,
}

-- The fields that a search reads. The others are never read.
pub record SearchEngine : Type 0 where
  pub user_agent : List ℕ
  pub search_query_url : List ℕ
  pub results_container_element : List ℕ
  pub result_container_element : List ℕ
  pub result_url_element : List ℕ
  pub result_url_property : List ℕ
  pub result_title_element : List ℕ
  pub result_title_property : List ℕ

-- The constructor.
unfoldable pub new_search_engine : Section → SearchEngine
new_search_engine section = record {
  user_agent = lookup_string (codes "user_agent") [] section;
  search_query_url = lookup_string (codes "search_query_url") [] section;
  results_container_element = lookup_string (codes "results_container_element") [] section;
  result_container_element = lookup_string (codes "result_container_element") [] section;
  result_url_element = lookup_string (codes "result_url_element") [] section;
  result_url_property = lookup_string (codes "result_url_property") [] section;
  result_title_element = lookup_string (codes "result_title_element") [] section;
  result_title_property = lookup_string (codes "result_title_property") [] section;
}

-- `attrb`: of an empty text the terminating 0 is tested.
unfoldable pub attrb : List ℕ → List ℕ
attrb [] = codes "class"
attrb (c ∷ cs) = if c == 35 then codes "id" else codes "class"

-- How a search ends: with what it returns, or with an access outside of its memory.
pub data Extracted (A : Type 0) : Type 0 where
  extracted : A → Extracted A
  crashed : Extracted A

abbrev pub and_then : {A B : Type 0} → Extracted A → (A → Extracted B) → Extracted B
and_then (extracted a) f = f a
and_then crashed f = crashed

-- `sprintf` with the format of the configuration and one argument: a second `%s` or another conversion
-- reads what is not there, `none`.
abbrev pub put_front : List ℕ → Option (List ℕ) → Option (List ℕ)
put_front bs none = none
put_front bs (some cs) = some (bs ++ cs)

unfoldable pub format_from : Option (List ℕ) → List ℕ → Option (List ℕ)
format_from arg [] = some []
format_from arg (c ∷ []) = if c == 37 then none else some (c ∷ [])
format_from arg (c ∷ d ∷ cs) =
    let plain = format_from arg (d ∷ cs) in
    let percent = format_from arg cs in
    let rest = format_from none cs in
    if c == 37
    then if d == 37
      then put_front (c ∷ []) percent
      else if d == 115
      then elim arg [ none ↦ none | some query ↦ put_front query rest ]
      else none
    else put_front (c ∷ []) plain

-- The array has 512 bytes, the last one for the terminating 0.
unfoldable pub search_url : SearchEngine → List ℕ → Extracted (List ℕ)
search_url e query = elim (format_from (some query) e.search_query_url) [
  | none ↦ crashed
  | some url ↦ if leb 512 (length url) then crashed else extracted url
]

-- The text of a property of a node, or the text inside of it if no property is named.
unfoldable pub node_value : List ℕ → GumboNode → List ℕ
node_value [] n = get_node_text n []
node_value (c ∷ name) (element t as' ns) = elim (as' (c ∷ name)) [ none ↦ [] | some v ↦ v ]
node_value (c ∷ name) (text s) = []
node_value (c ∷ name) other_node = []

unfoldable pub count_nodes : GumboNodes → ℕ
count_nodes nil = 0
count_nodes (cons n ns) = suc (count_nodes ns)

-- `stray` is what the code reads of a child that is no element, and `behind` the text behind the
-- terminating 0 of an empty one.
module _ (sha256 : List ℕ → List ℕ) (stray : List ℕ → Bool) (behind : List ℕ) where
  unfoldable pub rest_of : List ℕ → List ℕ
  rest_of [] = behind
  rest_of (c ∷ cs) = cs

  -- The first node below that an element of the configuration describes.
  unfoldable pub select : List ℕ → GumboNode → Option GumboNode
  select described n = get_element_by_attr (attrb described) (rest_of described) n

  unfoldable pub result_title : SearchEngine → GumboNode → List ℕ
  result_title e container = elim (select e.result_title_element container) [
    | none ↦ []
    | some n ↦ node_value e.result_title_property n
  ]

  -- What a child that describes a result adds to the entries.
  unfoldable pub add_result :
      SearchEngine → GumboNode → List SearchEntry → Extracted (List SearchEntry)
  add_result e container entries = elim (select e.result_url_element container) [
    | none ↦ extracted entries
    | some n ↦
        let title = result_title e container in
        if length title == 0
        then extracted entries
        else elim (made_entry sha256 title (node_value e.result_url_property n)) [
          | none ↦ crashed
          | some se ↦ extracted (entries ++ (se ∷ []))
        ]
  ]

  -- The loop; it ends since the position grows, and the number of the children is fuel enough.
  unfoldable pub results_loop :
      ℕ → SearchEngine → GumboNode → ℕ → List SearchEntry → Extracted (List SearchEntry)
  results_loop zero e parent pos entries = extracted entries
  results_loop (suc fuel) e parent pos entries =
      elim (get_next_element_by_attr parent (some pos) (attrb e.result_container_element)
        (rest_of e.result_container_element)) [
          | none ↦ extracted entries
          | some (i, container) ↦
              and_then (add_result e container entries) (results_loop fuel e parent i)
        ]

  -- The results of a page, behind the entries that are there.
  unfoldable pub extract_search_results :
      SearchEngine → Option GumboNode → List SearchEntry → Extracted (List SearchEntry)
  extract_search_results e none entries = extracted entries
  extract_search_results e (some root) entries = elim (get_document_body stray root) [
    | none ↦ extracted entries
    | some docu ↦ elim (select e.results_container_element docu) [
      | none ↦ extracted entries
      | some parent ↦ results_loop (count_nodes (children parent)) e parent 0 entries
    ]
  ]

  -- `download` gives the page of a url for a user agent.
  unfoldable pub do_search :
      (List ℕ → List ℕ → Option GumboNode)
      → SearchEngine
      → List SearchEntry
      → List ℕ
      → Extracted (List SearchEntry)
  do_search download e entries query = elim (search_url e query) [
    | crashed ↦ crashed
    | extracted url ↦ extract_search_results e (download url e.user_agent) entries
  ]
