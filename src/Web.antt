-- ===== src/Web.antt =====
-- webserver/sdswebuiserver.cpp: the handlers of the web interface and the table of them. The local node is
-- an interface, the files of the resources are an argument.
pub mod Pages
pub mod Status
pub mod Insert
pub mod Queries
pub mod Locked
use sniffdogsniff.Shared.{
  ℕ, ◌+◌, Bool, true, false, Option, none, some, List, [], ◌∷◌, ◌++◌, length, ltb, leb, ◌==◌,
  if◌then◌else◌,
}
use sniffdogsniff.Shared.Bytes.{bytes_eq}
use sniffdogsniff.Shared.Codes.{codes}
use sniffdogsniff.Text.{c_str}
use sniffdogsniff.Text.Decimal.{decimal}
use sniffdogsniff.Run.{Run, Op, ◌>>=◌, ◌>>◌, pure, finished, raised, crashed, blocked, aborted}
use sniffdogsniff.Http.{Fields, HttpRequest, HttpResponse, http_ok, http_not_found, set_field}
use sniffdogsniff.Http.Serve.{Handler, Handlers, add_handler}
use sniffdogsniff.Entries.Entry.{SearchEntry, new_search_entry, add_property, get_property}
use sniffdogsniff.Entries.Entry.Print.{print_entry}
use sniffdogsniff.Entries.SimHash.Init.{of_text}
use sniffdogsniff.Web.Pages.{
  page_start, head_end, page_end, populate_head, index_page, results_start, result_item,
  results_end, insert_start, insert_form,
}

-- What the handlers call of the local node.
pub record WebNode (S : Type 0) : Type 0 where
  pub do_search : List ℕ → Op S (List SearchEntry)
  pub store_result : SearchEntry → Op S (Unit {0})

-- The local node, and the fields of the handler of searches, which all requests share.
pub record Web (S : Type 0) : Type 0 where
  pub node : S
  pub link_filter : List ℕ
  pub data_type : List ℕ

-- `values[key]`; the empty value that the map gets for a missing key is never told from none.
unfoldable pub value_of : List ℕ → Fields → List ℕ
value_of key [] = []
value_of key ((k, v) ∷ m) = if bytes_eq k key then v else value_of key m

abbrev pub is_empty : List ℕ → Bool
is_empty [] = true
is_empty (x ∷ xs) = false

abbrev pub no_fields : Fields → Bool
no_fields [] = true
no_fields (x ∷ xs) = false

unfoldable pub result_items : List SearchEntry → List ℕ
result_items [] = []
result_items (se ∷ ses) = result_item se.url se.title (get_property 0 se).0 ++ result_items ses

module _ {S : Type 0} where
  unfoldable pub on_node : {A : Type 0} → Op S A → Op (Web S) A
  on_node m w = elim (m w.node) [
    | finished a node ↦ finished a (record w { node = node })
    | raised node ↦ raised (record w { node = node })
    | crashed ↦ crashed
    | blocked ↦ blocked
    | aborted ↦ aborted
  ]

  -- `WebUiHandler::handleRequest`: every page with its code, which is always HTTP_OK.
  unfoldable pub web_page : (HttpRequest → Op (Web S) (List ℕ)) → Handler (Web S)
  web_page populate_body req resp = do
    body ← populate_body req
    pure (
      http_ok,
      record resp {
        buffer = resp.buffer ++ (page_start ++ (populate_head ++ (head_end ++ (body ++ page_end))));
      },
    )

  unfoldable pub index_body : HttpRequest → Op (Web S) (List ℕ)
  index_body req = pure index_page

  -- The fields of the handler take the values of the request; nothing reads them.
  unfoldable pub keep_filters : HttpRequest → Op (Web S) (Unit {0})
  keep_filters req w = finished tt (record w {
    link_filter = value_of (codes "link_filter") req.values;
    data_type = value_of (codes "data_type") req.values;
  })

  unfoldable pub results_body : WebNode S → HttpRequest → Op (Web S) (List ℕ)
  results_body node req = do
    keep_filters req
    results ← on_node (node.do_search (c_str (value_of (codes "q") req.values)))
    pure (results_start ++ (result_items results ++ results_end))

-- The category that `insertSearchEntry` computes; the entry is made without it.
unfoldable pub chosen_type : HttpRequest → ℕ
chosen_type req =
    let chosen = value_of (codes "data_type") req.values in
    if bytes_eq chosen (codes "image") then 1 else if bytes_eq chosen (codes "video") then 2 else 0

unfoldable pub with_property : ℕ → List ℕ → SearchEntry → SearchEntry
with_property idx value se = if is_empty value then se else add_property idx value se

abbrev pub error_box : List ℕ → List ℕ
error_box text =
    codes "<div class=\"error-box\"><p>Result insertion error: " ++ (text ++ codes "<p></div>")

module _ (sha256 : List ℕ → List ℕ) where
  -- `none` is a read outside of the bytes of the title.
  unfoldable pub entry_of_request : HttpRequest → Option SearchEntry
  entry_of_request req =
      let title = value_of (codes "link_title") req.values in
      elim (of_text title) [
        | none ↦ none
        | some h ↦
            let se =
              new_search_entry sha256 h title (value_of (codes "link_url") req.values) 0 [] in
            let described =
              with_property 0 (value_of (codes "property_description") req.values) se in
            let tagged = with_property 1 (value_of (codes "property_tags") req.values) described in
            some (with_property 2 (value_of (codes "property_origin") req.values) tagged)
      ]

  module _ {S : Type 0} (node : WebNode S) (what : List ℕ) where
    -- An exception, of which `what` is the text, is caught.
    unfoldable pub stored : SearchEntry → Op (Web S) (List ℕ)
    stored se w = elim (on_node (node.store_result se) w) [
      | finished u w' ↦
          finished
            (codes "<div class=\"success-box\"><p>Result added: "
              ++ (print_entry se ++ codes "<p></div>"))
            w'
      | raised w' ↦ finished (error_box what) w'
      | crashed ↦ crashed
      | blocked ↦ blocked
      | aborted ↦ aborted
    ]

    -- What is written about the insertion.
    unfoldable pub insert_search_entry : HttpRequest → Op (Web S) (List ℕ)
    insert_search_entry req w =
        if is_empty (value_of (codes "link_title") req.values)
        then finished (error_box (codes "title is empty")) w
        else if is_empty (value_of (codes "link_url") req.values)
        then finished (error_box (codes "url is empty")) w
        else elim (entry_of_request req) [ none ↦ crashed | some se ↦ stored se w ]

    unfoldable pub insert_body : HttpRequest → Op (Web S) (List ℕ)
    insert_body req w =
        if no_fields req.values
        then finished (insert_start ++ insert_form) w
        else (insert_search_entry req >>= λ told. pure (insert_start ++ (told ++ insert_form))) w

-- `FileHandler::handleRequest`, where `files` gives the bytes of a file that can be opened. The array
-- for the path has 1024 bytes, the last one for the terminating 0.
unfoldable pub file_page :
    {S : Type 0} → (List ℕ → Option (List ℕ)) → List ℕ → List ℕ → Handler (Web S)
file_page files resources_dir content_type req resp w =
    let path = c_str resources_dir ++ (codes "/static/" ++ c_str req.url) in
    if leb 1024 (length path) then crashed else elim (files path) [
      | none ↦ finished (http_not_found, resp) w
      | some bytes ↦
          finished
            (
              http_ok,
              record resp {
                buffer = resp.buffer ++ bytes;
                headers =
                    set_field (codes "Content-Length") (decimal (length (resp.buffer ++ bytes)))
                      (set_field (codes "Content-Type") content_type resp.headers);
              },
            )
            w
    ]

unfoldable pub create_handlers :
    {S : Type 0}
    → (List ℕ → List ℕ)
    → WebNode S
    → List ℕ
    → (List ℕ → Option (List ℕ))
    → List ℕ
    → Handlers (Web S)
create_handlers sha256 node what files resources_dir =
    let pages = add_handler (codes "/insert_link") (web_page (insert_body sha256 node what)) (
      add_handler (codes "/search") (web_page (results_body node))
        (add_handler (codes "/") (web_page index_body) [])) in
    add_handler (codes "/sds_header.png") (file_page files resources_dir (codes "image/png")) (
      add_handler (codes "/sds_logo.png") (file_page files resources_dir (codes "image/png")) pages)

abbrev pub default_content_type : List ℕ
default_content_type = codes "text/html"
