-- ===== src/Http.antt =====
-- webserver/httpserver.h and httpserver.cpp: the parsing of requests, the table of handlers and the text
-- of a response. `none` is a read outside of a string.
pub mod Escape
pub mod Values
pub mod Serve
pub mod Pool
use sniffdogsniff.Shared.{
  ℕ, ◌+◌, ◌-◌, ◌*◌, ◌/◌, ◌%◌, Bool, true, false, ◌&&◌, ◌||◌, Option, none, some, List, [], ◌∷◌,
  ◌++◌, length, drop, ltb, leb, ◌==◌, if◌then◌else◌,
}
use sniffdogsniff.Shared.Bytes.{bytes_eq}
use sniffdogsniff.Shared.Codes.{codes}
use sniffdogsniff.Text.{find, split}
use sniffdogsniff.Text.Decimal.{decimal}
use sniffdogsniff.Entries.SimHash.Init.{string_lt}

abbrev pub http_ok : ℕ
http_ok = 200

abbrev pub http_bad_request : ℕ
http_bad_request = 400

abbrev pub http_not_found : ℕ
http_not_found = 404

abbrev pub http_internal_error : ℕ
http_internal_error = 500

abbrev pub http_not_implemented : ℕ
http_not_implemented = 501

pub data HttpMethod : Type 0 where
  http_get : HttpMethod
  http_head : HttpMethod
  http_post : HttpMethod

-- `std::map<std::string, std::string>`: the entries in the order of the keys.
abbrev pub Fields : Type 0
Fields = List (List ℕ × List ℕ)

-- `method` is `none` until the first line is parsed.
pub record HttpRequest : Type 0 where
  pub url : List ℕ
  pub method : Option HttpMethod
  pub version : List ℕ
  pub headers : Fields
  pub values : Fields
  pub data_bytes : List ℕ

-- `code` starts as what the memory held.
pub record HttpResponse : Type 0 where
  pub headers : Fields
  pub buffer : List ℕ
  pub code : ℕ

unfoldable pub set_field : List ℕ → List ℕ → Fields → Fields
set_field key value [] = (key, value) ∷ []
set_field key value ((k, v) ∷ m) =
    if string_lt k key
    then (k, v) ∷ set_field key value m
    else if string_lt key k
    then (key, value) ∷ (k, v) ∷ m
    else (k, value) ∷ m

-- A hexadecimal digit, and any other character as it is.
unfoldable pub nibble : ℕ → ℕ
nibble c = if leb 48 c && leb c 57 then c - 48 else if leb 65 c && leb c 70 then c - 55 else c

-- `((hi << 4) & 0xf0) | (lo & 0x0f)`.
abbrev pub escaped : ℕ → ℕ → ℕ
escaped hi lo = nibble hi % 16 * 16 + nibble lo % 16

abbrev pub before : ℕ → Option (List ℕ) → Option (List ℕ)
before c none = none
before c (some s) = some (c ∷ s)

-- The character behind the last is 0; the one after that is outside.
unfoldable pub http_unescape : List ℕ → Option (List ℕ)
http_unescape [] = some []
http_unescape (c ∷ []) =
    if c == 43 then some (32 ∷ []) else if c == 37 || c == 36 then none else some (c ∷ [])
http_unescape (c ∷ hi ∷ []) =
    let rest = http_unescape (hi ∷ []) in
    if c == 43
    then before 32 rest
    else if c == 37 || c == 36
    then some (escaped hi 0 ∷ [])
    else before c rest
http_unescape (c ∷ hi ∷ lo ∷ s) =
    let rest = http_unescape (hi ∷ lo ∷ s) in
    let behind = http_unescape s in
    if c == 43
    then before 32 rest
    else if c == 37 || c == 36
    then before (escaped hi lo) behind
    else before c rest

-- The loops over the pieces: whether all of them are well-formed, and the request.
unfoldable pub set_values : List (List ℕ) → HttpRequest → Option (Bool × HttpRequest)
set_values [] req = some (true, req)
set_values (t ∷ ts) req = elim (find (61 ∷ []) t) [
  | none ↦ some (false, req)
  | some (key, value) ↦ elim (http_unescape value) [
    | none ↦ none
    | some v ↦ set_values ts (record req { values = set_field key v req.values })
  ]
]

unfoldable pub parse_http_attrs : HttpRequest → List ℕ → Option (Bool × HttpRequest)
parse_http_attrs req attrs = set_values (split attrs (38 ∷ [])) (record req { headers = [] })

unfoldable pub set_headers : List (List ℕ) → HttpRequest → Bool × HttpRequest
set_headers [] req = (true, req)
set_headers (t ∷ ts) req = elim (find (58 ∷ []) t) [
  | none ↦ (false, req)
  | some (key, value) ↦ set_headers ts (record req { headers = set_field key value req.headers })
]

abbrev pub newline : List ℕ
newline = 13 ∷ 10 ∷ []

unfoldable pub parse_http_headers : HttpRequest → List ℕ → Bool × HttpRequest
parse_http_headers req headers = set_headers (split headers newline) (record req { values = [] })

abbrev pub get_word : List ℕ
get_word = 71 ∷ 69 ∷ 84 ∷ []

abbrev pub head_word : List ℕ
head_word = 72 ∷ 69 ∷ 65 ∷ 68 ∷ []

abbrev pub post_word : List ℕ
post_word = 80 ∷ 79 ∷ 83 ∷ 84 ∷ []

-- The address of a GET or HEAD request, with its attributes.
unfoldable pub parse_target : List ℕ → HttpRequest → Option (Bool × HttpRequest)
parse_target target req = elim (find (63 ∷ []) target) [
  | none ↦ some (true, req)
  | some (url, attrs) ↦ parse_http_attrs (record req { url = url }) attrs
]

-- The code, and the request.
unfoldable pub parse_http_first_line : HttpRequest → List ℕ → Option (ℕ × HttpRequest)
parse_http_first_line req line = words (split line (32 ∷ []))
  where
    versioned : List ℕ → Option (Bool × HttpRequest) → Option (ℕ × HttpRequest)
    versioned version none = none
    versioned version (some (true, r)) = some (http_ok, record r { version = version })
    versioned version (some (false, r)) = some (http_bad_request, r)

    words : List (List ℕ) → Option (ℕ × HttpRequest)
    words (verb ∷ target ∷ version ∷ more) =
        let req' : HttpRequest = record req { url = target } in
        if bytes_eq verb get_word
        then versioned version (parse_target target (record req' { method = some http_get }))
        else if bytes_eq verb head_word
        then versioned version (parse_target target (record req' { method = some http_head }))
        else if bytes_eq verb post_word
        then versioned version (some (true, record req' { method = some http_post }))
        else some (http_not_implemented, req')
    words other = some (http_bad_request, req)

abbrev pub is_post : Option HttpMethod → Bool
is_post (some http_post) = true
is_post other = false

abbrev pub code_of : Option (Bool × HttpRequest) → Option (ℕ × HttpRequest)
code_of none = none
code_of (some (true, r)) = some (http_ok, r)
code_of (some (false, r)) = some (http_bad_request, r)

-- What follows the headers, when these have been parsed.
unfoldable pub parse_data : List ℕ → Bool × HttpRequest → Option (ℕ × HttpRequest)
parse_data bytes (false, r) = some (http_bad_request, r)
parse_data bytes (true, r) =
    if is_post r.method
    then code_of (parse_http_attrs (record r { data_bytes = bytes }) bytes)
    else some (http_ok, record r { data_bytes = bytes })

-- The headers and the data, when the blank line is found; `rest` is what follows the first line.
unfoldable pub parse_rest : HttpRequest → List ℕ → Option (ℕ × HttpRequest)
parse_rest req rest = elim (find (newline ++ newline) rest) [
  | none ↦ some (http_ok, req)
  | some (headers, bytes) ↦ parse_data bytes (parse_http_headers req headers)
]

-- Any code of the first line but 200 becomes 400.
unfoldable pub parse_http_request : HttpRequest → List ℕ → Option (ℕ × HttpRequest)
parse_http_request req sbuffer = elim (find newline sbuffer) [
  | none ↦ some (http_bad_request, req)
  | some (line, rest) ↦ elim (parse_http_first_line req line) [
    | none ↦ none
    | some (code, r) ↦ if code == http_ok then parse_rest r rest else some (http_bad_request, r)
  ]
]

unfoldable pub header_lines : Fields → List ℕ
header_lines [] = []
header_lines ((k, v) ∷ m) = k ++ ((58 ∷ []) ++ (v ++ (newline ++ header_lines m)))

unfoldable pub create_response : HttpResponse → List ℕ
create_response resp =
    codes "HTTP/1.1 "
    ++ (decimal resp.code ++ (newline ++ (header_lines resp.headers ++ (newline ++ resp.buffer))))
