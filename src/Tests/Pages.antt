-- ===== src/Tests/Pages.antt =====
-- The theorems about the web interface and the crawler at concrete requests and pages.
use sniffdogsniff.Shared.{if◌then◌else◌}
use sniffdogsniff.Shared.{
  ℕ, ◌+◌, ◌≡◌, refl, Bool, true, false, Option, some, none, List, [], ◌∷◌, ◌++◌, replicate,
}
use sniffdogsniff.Shared.Bytes.{bytes_eq}
use sniffdogsniff.Shared.Codes.{codes}
use sniffdogsniff.Text.{
  find, strip, split, split_from, tokenize, trim_all, tokens_from, to_lower, in_set, lower_char,
}
use sniffdogsniff.Text.Decimal.{decimal, digits}
use sniffdogsniff.Kad.Id.{KadId}
use sniffdogsniff.Kad.Node.{KadNode}
use sniffdogsniff.Wire.Results.{FindResultsReply}
use sniffdogsniff.Run.{finished, blocked}
use sniffdogsniff.Http.{
  HttpRequest, http_get, http_post, http_ok, newline, create_response, header_lines, set_field,
  parse_http_request, parse_rest, parse_data, parse_http_headers, set_headers,
  parse_http_first_line, parse_target, parse_http_attrs, set_values, http_unescape,
}
use sniffdogsniff.Http.Serve.{
  serve_client, receive_request, respond, handle_parsed, handle_error, error_text, response_bytes,
  new_request,
}
use sniffdogsniff.Entries.Entry.{
  SearchEntry, has_valid_size, properties_size, new_search_entry, add_property, set_property,
}
use sniffdogsniff.Entries.SimHash.Init.{
  of_text, init, token_mults, id_bytes, id_byte, weight_bit, sim_weight,
}
use sniffdogsniff.Web.{
  Web, WebNode, create_handlers, default_content_type, entry_of_request, with_property, value_of,
  insert_search_entry, error_box,
}
use sniffdogsniff.Web.Locked.{local_web, NeverSearches, insert_search_entry_large}
use sniffdogsniff.Web.Queries.{results_response, searched_web, respond_search}
use sniffdogsniff.Web.Status.{serve_client_status}
use sniffdogsniff.LocalNode.{LocalNode}
use sniffdogsniff.Tests.{no_sha}
use sniffdogsniff.Tests.Services.{cell, some_node}
use sniffdogsniff.Crawler.{GumboNode, element, cons, nil, a, body, other}
use sniffdogsniff.Crawler.Scan.{WebCrawler}

abbrev blank : List ℕ
blank = 32 ∷ []

abbrev zero_id : KadId
zero_id = record { id = replicate 16 0 }

abbrev form : List ℕ → HttpRequest
form url = record {
  url = codes "/insert_link";
  method = some http_post;
  version = codes "HTTP/1.1";
  headers = [];
  values =
      (codes "link_title", blank)
      ∷ (codes "link_url", url)
      ∷ (codes "data_type", codes "image")
      ∷ (codes "property_tags", codes "t")
      ∷ [];
  data_bytes = [];
}

abbrev form_entry : List ℕ → SearchEntry
form_entry url = record {
  hash = no_sha blank;
  sim_hash = zero_id;
  title = blank;
  url = url;
  type = 0;
  properties = (1, codes "t") ∷ [];
}

form_made : (url : List ℕ) → entry_of_request no_sha (form url) ≡ some (form_entry url)
unfolding entry_of_request value_of bytes_eq with_property add_property set_property
    new_search_entry of_text tokenize trim_all tokens_from to_lower in_set lower_char init
    token_mults id_bytes id_byte weight_bit sim_weight
form_made url = refl

abbrev long_url : List ℕ
long_url = replicate 30000 97

form_large : has_valid_size (form_entry long_url) ≡ false
unfolding has_valid_size properties_size
form_large = refl

form_title : value_of (codes "link_title") (form long_url).values ≡ blank
unfolding value_of bytes_eq
form_title = refl

abbrev no_reply : KadNode → Option FindResultsReply
no_reply kn = none

abbrev web_node : WebNode (LocalNode cell no_sha)
web_node = local_web cell no_sha no_reply [] 100 101

abbrev some_web : Web (LocalNode cell no_sha)
some_web = record { node = some_node; link_filter = []; data_type = [] }

insert_search_entry_large_example :
    (w' : Web (LocalNode cell no_sha)) × (insert_search_entry no_sha web_node
        (codes "large")
        (form long_url)
        some_web
      ≡ finished (error_box (codes "large")) w')
    × ((query : List ℕ) → NeverSearches cell no_sha no_reply [] 100 101 query w'.node)
    × ((other : SearchEntry) → web_node.store_result other w'.node ≡ blocked)
unfolding value_of bytes_eq
insert_search_entry_large_example =
    insert_search_entry_large cell no_sha no_reply [] 100 101 (codes "large") (form long_url)
      (form_entry long_url) some_web (some (1 ∷ [], 2 ∷ [])) refl refl refl refl
      (form_made long_url) form_large

-- A node without results.
abbrev empty_node : WebNode ℕ
empty_node = record {
  do_search = λ query n. finished [] (n + 1);
  store_result = λ se n. finished tt (n + 1);
}

abbrev no_files : List ℕ → Option (List ℕ)
no_files path = none

abbrev web : Web ℕ
web = record { node = 0; link_filter = []; data_type = [] }

bad_sent :
    serve_client default_content_type
      (create_handlers no_sha empty_node [] no_files [])
      7
      (some (codes "GET") ∷ [])
      web
    ≡ finished
        (codes "HTTP/1.1 "
          ++ (decimal 7 ++ (newline ++ (newline ++ codes "<html><body><h2> Error 400</h2>"))))
        web
unfolding serve_client receive_request respond parse_http_request find strip handle_parsed
    response_bytes create_response handle_error error_text header_lines decimal digits
bad_sent = refl

serve_client_status_example :
    (rest : List ℕ) × (codes "HTTP/1.1 "
        ++ (decimal 7 ++ (newline ++ (newline ++ codes "<html><body><h2> Error 400</h2>")))
      ≡ codes "HTTP/1.1 " ++ (decimal 7 ++ (newline ++ rest)))
serve_client_status_example =
    serve_client_status no_sha empty_node [] no_files [] 7 (some (codes "GET") ∷ [])
      (codes "HTTP/1.1 "
        ++ (decimal 7 ++ (newline ++ (newline ++ codes "<html><body><h2> Error 400</h2>"))))
      web web bad_sent

abbrev search_line : List ℕ
search_line = codes "GET /search?q=dog HTTP/1.1"

abbrev search_headers : List ℕ
search_headers = codes "h:1"

abbrev search_bytes : List ℕ
search_bytes = codes "GET /search?q=dog HTTP/1.1\r\nh:1\r\n\r\n"

abbrev line_request : HttpRequest
line_request = record {
  url = codes "/search";
  method = some http_get;
  version = codes "HTTP/1.1";
  headers = [];
  values = (codes "q", codes "dog") ∷ [];
  data_bytes = [];
}

abbrev search_request : HttpRequest
search_request = record line_request { headers = (codes "h", codes "1") ∷ []; values = [] }

search_line_found : find newline search_bytes ≡ some (search_line, codes "h:1\r\n\r\n")
unfolding find strip
search_line_found = refl

search_line_parsed : parse_http_first_line new_request search_line ≡ some (http_ok, line_request)
unfolding parse_http_first_line parse_target parse_http_attrs set_values http_unescape set_field
    split split_from find strip bytes_eq
search_line_parsed = refl

search_headers_found : find (newline ++ newline) (codes "h:1\r\n\r\n") ≡ some (search_headers, [])
unfolding find strip
search_headers_found = refl

search_parsed : parse_http_request new_request search_bytes ≡ some (http_ok, search_request)
unfolding parse_http_request parse_rest parse_data parse_http_headers set_headers
    parse_http_first_line parse_target parse_http_attrs set_values http_unescape set_field split
    split_from find strip bytes_eq
search_parsed = refl

respond_search_example :
    respond default_content_type
      (create_handlers no_sha empty_node [] no_files [])
      7
      search_bytes
      web
    ≡ finished (create_response (results_response 7 [])) (searched_web 1)
respond_search_example =
    respond_search no_sha empty_node [] no_files [] search_bytes search_line (codes "h:1\r\n\r\n")
      search_headers [] line_request search_request 7 [] web 1 search_line_found search_line_parsed
      refl search_headers_found search_parsed refl refl

-- `<body><a href="/b"></a></body>` below the root.
abbrev some_page : GumboNode
some_page =
    element (other 0) (λ name. none)
      (cons
        (element body (λ name. none)
          (cons
            (element a (λ name. if bytes_eq name (codes "href") then some (codes "/b") else none)
              nil)
            nil))
        nil)

abbrev crawler_at : List (List ℕ) → List SearchEntry → WebCrawler
crawler_at urls ses = record {
  running = true;
  url_queue = urls;
  searches = ses;
  search_engines = [];
}

abbrev link_entry : SearchEntry
link_entry = record {
  hash = no_sha [];
  sim_hash = zero_id;
  title = [];
  url = codes "http://a/b";
  type = 0;
  properties = [];
}

abbrev never : List ℕ → Bool
never s = false
