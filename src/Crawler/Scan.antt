-- ===== src/Crawler/Scan.antt =====
-- crawler/webcrawler.h and webcrawler.cpp: the links of a page, and the crawler with its queue of urls.
-- What is downloaded is an argument.
use sniffdogsniff.Shared.{
  ℕ, zero, suc, Bool, true, false, Option, none, some, List, [], ◌∷◌, ◌++◌, map, length,
  if◌then◌else◌,
}
use sniffdogsniff.Shared.Codes.{codes}
use sniffdogsniff.Text.{contains, c_str}
use sniffdogsniff.Config.{fgets}
use sniffdogsniff.Entries.Entry.{SearchEntry}
use sniffdogsniff.Entries.SimHash.Init.{string_lt}
use sniffdogsniff.Crawler.{
  Tag, a, GumboNode, GumboNodes, element, text, other_node, nil, cons, is_skipped,
  get_document_body, get_node_text, made_entry,
}
use sniffdogsniff.Crawler.Engine.{SearchEngine, Extracted, extracted, crashed, and_then}
use sniffdogsniff.Crawler.Engine

-- `entries[url] = se`: the entries in the order of their urls.
abbrev pub UrlMap : Type 0
UrlMap = List (List ℕ × SearchEntry)

unfoldable pub set_entry : List ℕ → SearchEntry → UrlMap → UrlMap
set_entry url se [] = (url, se) ∷ []
set_entry url se ((k, v) ∷ m) =
    if string_lt k url
    then (k, v) ∷ set_entry url se m
    else if string_lt url k
    then (url, se) ∷ (k, v) ∷ m
    else (k, se) ∷ m

unfoldable pub is_link : Tag → Bool
is_link a = true
is_link _ = false

abbrev pub scheme : List ℕ
scheme = codes "://"

-- A link without a scheme is put behind the url of the page.
unfoldable pub absolute_url : List ℕ → List ℕ → List ℕ
absolute_url site_url href = if contains scheme href then href else site_url ++ href

abbrev pub and_scan : Option UrlMap → (UrlMap → Option UrlMap) → Option UrlMap
and_scan none f = none
and_scan (some m) f = f m

-- The loop of `scanDocument` over the children, with the title that the last link left; for another
-- element than a link it calls itself.
unfoldable pub scan_nodes :
    (List ℕ → List ℕ) → List ℕ → GumboNodes → List ℕ → UrlMap → Option UrlMap
scan_nodes sha256 site_url nil title entries = some entries
scan_nodes sha256 site_url (cons (element t as' below) ns) title entries = elim (is_link t) [
  | true ↦ elim (as' (codes "href")) [
    | none ↦ scan_nodes sha256 site_url ns title entries
    | some href ↦
        let title' = get_node_text (element t as' below) title in
        let url = absolute_url site_url href in
        elim (made_entry sha256 title' url) [
          | none ↦ none
          | some se ↦ scan_nodes sha256 site_url ns title' (set_entry url se entries)
        ]
  ]
  | false ↦
      and_scan
        (elim (is_skipped t) [
          | true ↦ some entries
          | false ↦ scan_nodes sha256 site_url below [] entries
        ])
        (scan_nodes sha256 site_url ns title)
]
scan_nodes sha256 site_url (cons (text s) ns) title entries =
    scan_nodes sha256 site_url ns title entries
scan_nodes sha256 site_url (cons other_node ns) title entries =
    scan_nodes sha256 site_url ns title entries

unfoldable pub scan_document : (List ℕ → List ℕ) → GumboNode → List ℕ → UrlMap → Option UrlMap
scan_document sha256 (element t as' ns) site_url entries =
    if is_skipped t then some entries else scan_nodes sha256 site_url ns [] entries
scan_document sha256 (text s) site_url entries = some entries
scan_document sha256 other_node site_url entries = some entries

pub record WebCrawler : Type 0 where
  pub running : Bool
  pub url_queue : List (List ℕ)
  pub searches : List SearchEntry
  pub search_engines : List SearchEngine

module _ (sha256 : List ℕ → List ℕ) (stray : List ℕ → Bool) where
  unfoldable pub add_found : WebCrawler → UrlMap → WebCrawler
  add_found c entries = record c {
    url_queue = c.url_queue ++ map (λ e. e.0) entries;
    searches = c.searches ++ map (λ e. e.1) entries;
  }

  unfoldable pub crawl_page : List ℕ → Option GumboNode → WebCrawler → Option WebCrawler
  crawl_page url none c = some c
  crawl_page url (some root) c = elim (get_document_body stray root) [
    | none ↦ some c
    | some docu ↦ elim (scan_document sha256 docu url []) [
      | none ↦ none
      | some entries ↦ some (add_found c entries)
    ]
  ]

  -- A round of the loop of `crawlingFunc` for the next url, if there is one.
  unfoldable pub crawl_next :
      (List ℕ → Option GumboNode) → List (List ℕ) → WebCrawler → Option WebCrawler
  crawl_next download [] c = some c
  crawl_next download (url ∷ urls) c =
      crawl_page url (download (c_str url)) (record c { url_queue = urls })

  unfoldable pub crawl_round : (List ℕ → Option GumboNode) → WebCrawler → Option WebCrawler
  crawl_round download c = crawl_next download c.url_queue c

  -- The entries for the caller, which the crawler forgets.
  unfoldable pub get_entries_for_broadcast :
      List SearchEntry → WebCrawler → List SearchEntry × WebCrawler
  get_entries_for_broadcast entries c = (entries ++ c.searches, record c { searches = [] })

  -- `doSearch`: every search engine in turn, and the urls of all the entries into the queue.
  module _ (behind : List ℕ) (download : List ℕ → List ℕ → Option GumboNode) where
    unfoldable pub search_all :
        List SearchEngine → List SearchEntry → List ℕ → Extracted (List SearchEntry)
    search_all [] entries query = extracted entries
    search_all (e ∷ es) entries query =
        and_then (Engine.do_search sha256 stray behind download e entries query)
          (λ entries'. search_all es entries' query)

    unfoldable pub do_search :
        List SearchEntry → List ℕ → WebCrawler → Extracted (List SearchEntry × WebCrawler)
    do_search entries query c = and_then (search_all c.search_engines entries query) (λ entries'.
        extracted (entries', record c { url_queue = c.url_queue ++ map (λ se. se.url) entries' }))

-- `save`: each url, as far as its first 0, on a line.
unfoldable pub save : List (List ℕ) → List ℕ
save [] = []
save (url ∷ urls) = c_str url ++ (10 ∷ save urls)

-- How `load` ends; to make a text of a null pointer is no text.
pub data Loaded : Type 0 where
  loaded : List (List ℕ) → Loaded
  null_text : Loaded
  out_of_fuel : Loaded

abbrev pub has_newline : List ℕ → Bool
has_newline line = contains (10 ∷ []) line

-- What `fgets` has read, and the rest of the file. Behind the terminating 0 that replaces the newline,
-- at which `endp` points, stands the empty text.
unfoldable pub after_line : (List ℕ → Loaded) → List ℕ × List ℕ → Loaded
after_line more r = if has_newline (c_str r.0) then more r.1 else null_text

unfoldable pub load_lines : ℕ → List ℕ → List (List ℕ) → Loaded
load_lines fuel [] urls = loaded urls
load_lines zero (x ∷ file) urls = out_of_fuel
load_lines (suc fuel) (x ∷ file) urls =
    after_line (λ rest. load_lines fuel rest (urls ++ ([] ∷ []))) (fgets 1023 (x ∷ file))

-- Each line takes a byte at least, so that the length of the file is fuel enough.
unfoldable pub load : List ℕ → List (List ℕ) → Loaded
load file urls = load_lines (length file) file urls
