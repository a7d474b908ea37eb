-- ===== src/Http/Serve.antt =====
-- webserver/httpserver.cpp: what a thread of the pool does with a client, from the bytes that it sends
-- to the bytes that are sent back.
use sniffdogsniff.Shared.{
  ℕ, Bool, true, false, Option, none, some, List, [], ◌∷◌, ◌++◌, length, ltb, ◌==◌, if◌then◌else◌,
}
use sniffdogsniff.Shared.Bytes.{bytes_eq}
use sniffdogsniff.Shared.Codes.{codes}
use sniffdogsniff.Text.Decimal.{decimal}
use sniffdogsniff.Run.{Op, ◌>>=◌, pure, crashed, aborted}
use sniffdogsniff.Http.{
  HttpRequest, HttpResponse, http_ok, http_not_found, http_internal_error, http_not_implemented,
  set_field, parse_http_request, create_response,
}

-- The method `handleRequest` of a handler: its code, and the response that it has written.
abbrev pub Handler : Type 0 → Type 0
Handler S = HttpRequest → HttpResponse → Op S (ℕ × HttpResponse)

-- The handlers by their url.
abbrev pub Handlers : Type 0 → Type 0
Handlers S = List (List ℕ × Handler S)

module _ {S : Type 0} where
  unfoldable pub add_handler : List ℕ → Handler S → Handlers S → Handlers S
  add_handler u h [] = (u, h) ∷ []
  add_handler u h ((k, g) ∷ hs) = if bytes_eq k u then (k, h) ∷ hs else (k, g) ∷ add_handler u h hs

  unfoldable pub remove_handler : List ℕ → Handlers S → Handlers S
  remove_handler u [] = []
  remove_handler u ((k, g) ∷ hs) = if bytes_eq k u then hs else (k, g) ∷ remove_handler u hs

  unfoldable pub find_handler : List ℕ → Handlers S → Option (Handler S)
  find_handler u [] = none
  find_handler u ((k, g) ∷ hs) = if bytes_eq k u then some g else find_handler u hs

  unfoldable pub has_handler_for : List ℕ → Handlers S → Bool
  has_handler_for u hs = elim (find_handler u hs) [ none ↦ false | some h ↦ true ]

-- The bytes of the request; each element is what a call of `recv` gives for a buffer of 512 bytes, the
-- list without an element that it returns 0. The result -1 is the largest number of `size_t`: the
-- exception of `append` ends the process, `none`.
unfoldable pub receive_request : List (Option (List ℕ)) → Option (List ℕ)
receive_request [] = some []
receive_request (none ∷ calls) = none
receive_request (some [] ∷ calls) = some []
receive_request (some (b ∷ bs) ∷ calls) =
    let rest = receive_request calls in
    if ltb (length (b ∷ bs)) 512
    then some (b ∷ bs)
    else elim rest [ none ↦ none | some r ↦ some ((b ∷ bs) ++ r) ]

unfoldable pub error_text : HttpRequest → ℕ → List ℕ
error_text req code =
    if code == http_not_found
    then codes "<h4>" ++ (req.url ++ (codes " Not Found" ++ codes "</h4>"))
    else if code == http_internal_error
    then codes "<h4> Internal Server Error </h4>"
    else if code == http_not_implemented
    then codes "<h4> Method Not Implemented </h4>"
    else []

-- The last statement computes a text with the end of the page and throws it away.
unfoldable pub handle_error : HttpRequest → HttpResponse → ℕ → HttpResponse
handle_error req resp code = record resp {
  buffer =
      codes "<html><body>"
      ++ (codes "<h2> Error " ++ (decimal code ++ (codes "</h2>" ++ error_text req code)));
}

-- The objects that a thread makes for a client. `junk` is what the memory of the code held.
abbrev pub new_request : HttpRequest
new_request = record {
  url = [];
  method = none;
  version = [];
  headers = [];
  values = [];
  data_bytes = [];
}

abbrev pub new_response : ℕ → HttpResponse
new_response junk = record { headers = []; buffer = []; code = junk }

unfoldable pub response_bytes : HttpRequest → ℕ × HttpResponse → List ℕ
response_bytes req r = create_response (if r.0 == http_ok then r.1 else handle_error req r.1 r.0)

module _ {S : Type 0} (content_type : List ℕ) (handlers : Handlers S) where
  unfoldable pub handle_request : Handler S
  handle_request req resp =
      let typed : HttpResponse = record resp {
        headers = set_field (codes "Content-Type") content_type resp.headers;
      } in
      elim (find_handler req.url handlers) [
        | none ↦ pure (http_not_found, typed)
        | some h ↦ h req typed
      ]

  -- The request is handled if it has been parsed.
  unfoldable pub handle_parsed : ℕ → HttpRequest → HttpResponse → Op S (ℕ × HttpResponse)
  handle_parsed code req resp =
      if code == http_ok then handle_request req resp else pure (code, resp)

  -- From the bytes of the request to those of the response.
  unfoldable pub respond : ℕ → List ℕ → Op S (List ℕ)
  respond junk sbuffer n = elim (parse_http_request new_request sbuffer) [
    | none ↦ crashed
    | some (code, req) ↦
        (do r ← handle_parsed code req (new_response junk); pure (response_bytes req r)) n
  ]

  unfoldable pub serve_client : ℕ → List (Option (List ℕ)) → Op S (List ℕ)
  serve_client junk calls n = elim (receive_request calls) [
    | none ↦ aborted
    | some sbuffer ↦ respond junk sbuffer n
  ]
