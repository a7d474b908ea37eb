-- ===== src/Crawler.antt =====
-- crawler/crawlerutils.cpp: the walks over the tree of a web page. The tree is the one that the parser
-- of the Gumbo library gives, with what the code reads of it: the library's search for an attribute is a
-- function that each element carries.
pub mod Search
pub mod Engine
pub mod Scan
pub mod Urls
pub mod Round
pub mod Files
use sniffdogsniff.Shared.{
  ℕ, zero, suc, ◌+◌, Bool, true, false, ◌&&◌, ◌||◌, not, Option, none, some, List, [], ◌∷◌, ◌++◌,
  ◌==◌, if◌then◌else◌,
}
use sniffdogsniff.Shared.Bytes.{bytes_eq}
use sniffdogsniff.Text.{contains}
use sniffdogsniff.Entries.Entry.{SearchEntry, new_search_entry}
use sniffdogsniff.Entries.SimHash.Init.{of_text}

-- The tags that the code names, and the others by a number.
pub data Tag : Type 0 where
  style : Tag
  script : Tag
  meta : Tag
  a : Tag
  body : Tag
  other : ℕ → Tag

-- What `gumbo_get_attribute` finds for each name among the attributes of an element.
abbrev pub Attributes : Type 0
Attributes = List ℕ → Option (List ℕ)

-- A node is an element, a text, or of another kind, such as a comment.
mutual
  pub data GumboNode : Type 0 where
    element : Tag → Attributes → GumboNodes → GumboNode
    text : List ℕ → GumboNode
    other_node : GumboNode

  pub data GumboNodes : Type 0 where
    nil : GumboNodes
    cons : GumboNode → GumboNodes → GumboNodes

unfoldable pub is_skipped : Tag → Bool
is_skipped style = true
is_skipped script = true
is_skipped meta = true
is_skipped a = false
is_skipped body = false
is_skipped (other n) = false

-- The element has the attribute, and its value contains the text.
unfoldable pub has_attr : List ℕ → List ℕ → Attributes → Bool
has_attr name value as' = elim (as' name) [ none ↦ false | some v ↦ contains value v ]

unfoldable pub children : GumboNode → GumboNodes
children (element t as' ns) = ns
children (text s) = nil
children other_node = nil

-- What has been found, or what is found further on.
abbrev pub or_else : Option GumboNode → Option GumboNode → Option GumboNode
or_else (some n) o = some n
or_else none o = o

-- `getElementByAttr`.
unfoldable mutual
  pub get_element_by_attr : List ℕ → List ℕ → GumboNode → Option GumboNode
  get_element_by_attr name value (element t as' ns) =
      let below = first_by_attr name value ns in
      if is_skipped t
      then none
      else if has_attr name value as'
      then some (element t as' ns)
      else below
  get_element_by_attr name value (text s) = none
  get_element_by_attr name value other_node = none

  pub first_by_attr : List ℕ → List ℕ → GumboNodes → Option GumboNode
  first_by_attr name value nil = none
  first_by_attr name value (cons n ns) =
      or_else (get_element_by_attr name value n) (first_by_attr name value ns)

-- `getNextElementByAttr` from the child `i` on: the child that is found, and its position.
unfoldable pub next_by_attr : List ℕ → List ℕ → ℕ → GumboNodes → Option (ℕ × GumboNode)
next_by_attr name value i nil = none
next_by_attr name value i (cons (element t as' below) ns) =
    let rest = next_by_attr name value (suc i) ns in
    if has_attr name value as' then some (i, element t as' below) else rest
next_by_attr name value i (cons (text s) ns) = next_by_attr name value (suc i) ns
next_by_attr name value i (cons other_node ns) = next_by_attr name value (suc i) ns

unfoldable pub drop_nodes : ℕ → GumboNodes → GumboNodes
drop_nodes zero ns = ns
drop_nodes (suc n) nil = nil
drop_nodes (suc n) (cons x ns) = drop_nodes n ns

-- With a position it looks behind it, without one at all children.
unfoldable pub get_next_element_by_attr :
    GumboNode → Option ℕ → List ℕ → List ℕ → Option (ℕ × GumboNode)
get_next_element_by_attr parent none name value = next_by_attr name value 0 (children parent)
get_next_element_by_attr parent (some pos) name value =
    next_by_attr name value (suc pos) (drop_nodes (suc pos) (children parent))

-- `getDocumentBody`. The code reads the tag of every child, also of one that is no element: what it
-- reads there is `stray`.
unfoldable pub is_body : (List ℕ → Bool) → GumboNode → Bool
is_body stray (element body as' ns) = true
is_body stray (element t as' ns) = false
is_body stray (text s) = stray s
is_body stray other_node = stray []

unfoldable pub find_body : (List ℕ → Bool) → GumboNodes → Option GumboNode
find_body stray nil = none
find_body stray (cons n ns) =
    let rest = find_body stray ns in if is_body stray n then some n else rest

unfoldable pub get_document_body : (List ℕ → Bool) → GumboNode → Option GumboNode
get_document_body stray root = find_body stray (children root)

-- `getNodeText`: the old text stays unless the only child is a text.
unfoldable pub get_node_text : GumboNode → List ℕ → List ℕ
get_node_text (element t as' (cons (text s) nil)) old = s
get_node_text (element t as' ns) old = old
get_node_text (text s) old = old
get_node_text other_node old = old

-- `GumboElementIterator` without a tag: the children that are elements, one call of `next` after the
-- other.
unfoldable pub elements : GumboNodes → List GumboNode
elements nil = []
elements (cons (element t as' below) ns) = element t as' below ∷ elements ns
elements (cons (text s) ns) = elements ns
elements (cons other_node ns) = elements ns

unfoldable pub iterated : GumboNode → List GumboNode
iterated (element t as' ns) = if is_skipped t then [] else elements ns
iterated (text s) = []
iterated other_node = []

-- The constructor of an entry of the type SITE; `none` where the hash of the title reads outside of its
-- bytes.
unfoldable pub made_entry : (List ℕ → List ℕ) → List ℕ → List ℕ → Option SearchEntry
made_entry sha256 title url = elim (of_text title) [
  | none ↦ none
  | some h ↦ some (new_search_entry sha256 h title url 0 [])
]
