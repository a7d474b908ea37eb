-- ===== src/Web/Queries.antt =====
-- Searches that are sent with the method GET, as the form of the page sends them.
use sniffdogsniff.Shared.{ℕ, ◌≡◌, refl, sym, ap, ◌∙◌, false, Option, some, List, [], ◌++◌}
use sniffdogsniff.Shared.Bytes.{bytes_eq}
use sniffdogsniff.Shared.Codes.{codes}
use sniffdogsniff.Text.{find, c_str}
use sniffdogsniff.Run.{Run, Op, pure, finished, raised, crashed, blocked, aborted, bind_finished}
use sniffdogsniff.Http.{
  HttpRequest, HttpResponse, http_ok, newline, is_post, create_response, parse_http_first_line,
  parse_http_request, set_field,
}
use sniffdogsniff.Http.Values.{parse_http_request_lem}
use sniffdogsniff.Http.Serve.{
  add_handler, find_handler, handle_request, handle_parsed, response_bytes, respond, new_request,
  new_response,
}
use sniffdogsniff.Entries.Entry.{SearchEntry}
use sniffdogsniff.Web.{
  Web, WebNode, on_node, web_page, keep_filters, results_body, result_items, create_handlers,
  default_content_type, value_of,
}
use sniffdogsniff.Web.Pages.{
  page_start, populate_head, head_end, page_end, results_start, results_end,
}

-- The response with a page of results.
abbrev pub results_response : ℕ → List SearchEntry → HttpResponse
results_response junk ses = record {
  headers = set_field (codes "Content-Type") default_content_type [];
  buffer =
      page_start
      ++ (populate_head
          ++ (head_end ++ ((results_start ++ (result_items ses ++ results_end)) ++ page_end)));
  code = junk;
}

-- The local node after the search, and the filters of a request without values.
abbrev pub searched_web : {S : Type 0} → S → Web S
searched_web n = record { node = n; link_filter = []; data_type = [] }

pub on_node_finished :
    {S A : Type 0} (m : Op S A) (w : Web S) (a : A) (n : S)
    → m w.node ≡ finished a n
    → on_node m w ≡ finished a (record w { node = n })
unfolding on_node
on_node_finished {S} {A} m w a n e =
    ap
      (λ (r : Run S A). elim r [
        | finished b n' ↦ finished b (record w { node = n' })
        | raised n' ↦ raised (record w { node = n' })
        | crashed ↦ crashed
        | blocked ↦ blocked
        | aborted ↦ aborted
      ])
      e

module _ {S : Type 0} (sha256 : List ℕ → List ℕ) (node : WebNode S) (what : List ℕ)
    (files : List ℕ → Option (List ℕ)) (resources_dir : List ℕ) where
  results_body_empty :
      (req : HttpRequest) (ses : List SearchEntry) (w : Web S) (n : S)
      → req.values ≡ []
      → node.do_search [] w.node ≡ finished ses n
      → results_body node req w
        ≡ finished (results_start ++ (result_items ses ++ results_end)) (searched_web n)
  unfolding results_body keep_filters value_of c_str
  results_body_empty req ses w n v e =
      let w1 : Web S = record { node = w.node; link_filter = []; data_type = [] } in
      rw v (
        bind_finished (on_node (node.do_search []))
          (λ results. pure (results_start ++ (result_items results ++ results_end))) w1
          (searched_web n) ses (on_node_finished (node.do_search []) w1 ses n e))

  found_search :
      find_handler (codes "/search") (create_handlers sha256 node what files resources_dir)
      ≡ some (web_page (results_body node))
  unfolding find_handler create_handlers add_handler bytes_eq
  found_search = refl

  page_of_results :
      (req : HttpRequest) (junk : ℕ) (ses : List SearchEntry) (w : Web S) (n : S)
      → req.values ≡ []
      → node.do_search [] w.node ≡ finished ses n
      → web_page
          (results_body node)
          req
          (record (new_response junk) {
            headers = set_field (codes "Content-Type") default_content_type [];
          })
          w
        ≡ finished (http_ok, results_response junk ses) (searched_web n)
  unfolding web_page
  page_of_results req junk ses w n v e =
      bind_finished (results_body node req)
        (λ text. pure (
          http_ok,
          record (new_response junk) {
            headers = set_field (codes "Content-Type") default_content_type [];
            buffer = page_start ++ (populate_head ++ (head_end ++ (text ++ page_end)));
          },
        ))
        w (searched_web n) (results_start ++ (result_items ses ++ results_end))
        (results_body_empty req ses w n v e)

  search_page :
      (req : HttpRequest) (junk : ℕ) (ses : List SearchEntry) (w : Web S) (n : S)
      → req.url ≡ codes "/search"
      → req.values ≡ []
      → node.do_search [] w.node ≡ finished ses n
      → handle_request default_content_type
          (create_handlers sha256 node what files resources_dir)
          req
          (new_response junk)
          w
        ≡ finished (http_ok, results_response junk ses) (searched_web n)
  unfolding handle_request
  search_page req junk ses w n u v e =
      let hs = create_handlers sha256 node what files resources_dir in
      let f : find_handler req.url hs ≡ some (web_page (results_body node)) =
        ap (λ url. find_handler url hs) u ∙ found_search in
      rw (f, handle_request) (page_of_results req junk ses w n v e)

  -- A GET request for `/search` whose first line is well-formed and whose headers end with a blank
  -- line, if it is accepted, is a search for the empty text, whatever the query in its url was: the
  -- answer is the page with the entries that this search finds.
  pub respond_search :
      (sbuffer line rest headers bytes : List ℕ) (r r' : HttpRequest) (junk : ℕ)
      (ses : List SearchEntry) (w : Web S) (n : S)
      → find newline sbuffer ≡ some (line, rest)
      → parse_http_first_line new_request line ≡ some (http_ok, r)
      → is_post r.method ≡ false
      → find (newline ++ newline) rest ≡ some (headers, bytes)
      → parse_http_request new_request sbuffer ≡ some (http_ok, r')
      → r'.url ≡ codes "/search"
      → node.do_search [] w.node ≡ finished ses n
      → respond default_content_type
          (create_handlers sha256 node what files resources_dir)
          junk
          sbuffer
          w
        ≡ finished (create_response (results_response junk ses)) (searched_web n)
  unfolding respond handle_parsed response_bytes
  respond_search sbuffer line rest headers bytes r r' junk ses w n f g h k p u e =
      let hs = create_handlers sha256 node what files resources_dir in
      let (code, req, d, v) =
        parse_http_request_lem new_request r sbuffer line rest headers bytes f g h k in
      let same : req ≡ r' = cc in
      let v' : r'.values ≡ [] = ap (λ q. q.values) (sym same) ∙ v in
      rw (p, respond)
        (bind_finished (handle_parsed default_content_type hs http_ok r' (new_response junk))
          (λ a. pure (response_bytes r' a)) w (searched_web n) (http_ok, results_response junk ses)
          (search_page r' junk ses w n u v' e))
