-- ===== src/Http/Values.antt =====
-- The values that a request carries when it has been parsed.
use sniffdogsniff.Shared.{
  ℕ, ◌≡◌, refl, ap, ◌∙◌, Bool, true, false, some, List, [], ◌∷◌, ◌++◌, inl, inr, Option-cases,
}
use sniffdogsniff.Text.{find, split}
use sniffdogsniff.Http.{
  HttpRequest, http_ok, http_bad_request, parse_data, is_post, newline, set_headers,
  parse_http_headers, parse_http_first_line, parse_rest, parse_http_request, set_field,
}

set_headers-values :
    (ts : List (List ℕ)) (req : HttpRequest)
    → ((set_headers ts req).1.values ≡ req.values) × ((set_headers ts req).1.method ≡ req.method)
unfolding set_headers
set_headers-values [] req = (refl, refl)
set_headers-values (t ∷ ts) req = elim (Option-cases (find (58 ∷ []) t)) [
  | inl e ↦ rw (e, set_headers) (refl, refl)
  | inr ((k, v), e) ↦
      rw (e, set_headers)
        (set_headers-values ts (record req { headers = set_field k v req.headers }))
]

headers-values :
    (req : HttpRequest) (s : List ℕ)
    → ((parse_http_headers req s).1.values ≡ [])
      × ((parse_http_headers req s).1.method ≡ req.method)
unfolding parse_http_headers
headers-values req s = set_headers-values (split s newline) (record req { values = [] })

parse_data-values :
    (bytes : List ℕ) (p : Bool × HttpRequest)
    → is_post p.1.method ≡ false
    → p.1.values ≡ []
    → (code : ℕ) × (r : HttpRequest) × (parse_data bytes p ≡ some (code, r)) × (r.values ≡ [])
unfolding parse_data
parse_data-values bytes (false, r) e v = (http_bad_request, r, refl, v)
parse_data-values bytes (true, r) e v = (http_ok, record r { data_bytes = bytes }, rw e refl, v)

-- A request other than POST whose first line is well-formed and whose headers end with a blank line
-- loses its values: whatever its result, the parsed request has none.
pub parse_http_request_lem :
    (req r : HttpRequest) (sbuffer line rest headers bytes : List ℕ)
    → find newline sbuffer ≡ some (line, rest)
    → parse_http_first_line req line ≡ some (http_ok, r)
    → is_post r.method ≡ false
    → find (newline ++ newline) rest ≡ some (headers, bytes)
    → (code : ℕ) × (r' : HttpRequest) × (parse_http_request req sbuffer ≡ some (code, r'))
      × (r'.values ≡ [])
unfolding parse_http_request parse_rest
parse_http_request_lem req r sbuffer line rest headers bytes e f g h =
    let (v, m) = headers-values r headers in
    let (code, r', d, w) =
      parse_data-values bytes (parse_http_headers r headers) (ap is_post m ∙ g) v in
    (code, r', rw (e, f, h, parse_http_request, parse_rest) d, w)
