-- ===== src/Web/Status.antt =====
-- The code of the response, which no handler sets.
use sniffdogsniff.Shared.{
  ℕ, ◌≡◌, refl, sym, subst, ap, ◌∙◌, Option, some, List, [], ◌∷◌, ◌++◌, inl, inr, Bool-cases,
  Option-cases, ◌==◌, leb, length,
}
use sniffdogsniff.Shared.Bytes.{bytes_eq}
use sniffdogsniff.Shared.Codes.{codes}
use sniffdogsniff.Text.{c_str}
use sniffdogsniff.Text.Decimal.{decimal}
use sniffdogsniff.Run.{Run, Op, pure, finished, crashed, aborted, bind_inversion}
use sniffdogsniff.Http.{
  HttpRequest, HttpResponse, http_ok, newline, create_response, header_lines, parse_http_request,
}
use sniffdogsniff.Http.Serve.{
  Handler, Handlers, add_handler, find_handler, handle_request, handle_parsed, handle_error,
  response_bytes, respond, receive_request, serve_client, new_request, new_response,
}
use sniffdogsniff.Web.{
  Web, WebNode, web_page, index_body, results_body, insert_body, file_page, create_handlers,
  default_content_type,
}

-- A handler that leaves the code as it is.
abbrev KeepsCode : {S : Type 0} → Handler S → Type 0
KeepsCode {S} h =
    (req : HttpRequest) (resp : HttpResponse) (s s' : S) (r : ℕ × HttpResponse)
    → h req resp s ≡ finished r s'
    → r.1.code ≡ resp.code

-- All handlers of a table.
abbrev AllKeep : {S : Type 0} → Handlers S → Type 0
AllKeep [] = Unit
AllKeep ((k, h) ∷ hs) = KeepsCode h × AllKeep hs

finished_code :
    {S : Type 0} (resp : HttpResponse) (s s' : S) (a r : ℕ × HttpResponse)
    → a.1.code ≡ resp.code
    → ◌≡◌ {A = Run S (ℕ × HttpResponse)} (finished a s) (finished r s')
    → r.1.code ≡ resp.code
finished_code resp s s' a r h e = let e' : a ≡ r = cc in ap (λ x. x.1.code) (sym e') ∙ h

response_status :
    (req : HttpRequest) (r : ℕ × HttpResponse)
    → (rest : List ℕ) × (response_bytes req r
        ≡ codes "HTTP/1.1 " ++ (decimal r.1.code ++ (newline ++ rest)))
unfolding response_bytes create_response handle_error
response_status req r = elim (Bool-cases (r.0 == http_ok)) [
  | inl e ↦ (header_lines r.1.headers ++ (newline ++ r.1.buffer), rw (e, response_bytes) refl)
  | inr e ↦ (
    header_lines r.1.headers ++ (newline ++ (handle_error req r.1 r.0).buffer),
    rw (e, response_bytes) refl,
  )
]

module _ {S : Type 0} where
  add_handler-KeepsCode :
      (u : List ℕ) (h : Handler S) (hs : Handlers S)
      → KeepsCode h
      → AllKeep hs
      → AllKeep (add_handler u h hs)
  unfolding add_handler
  add_handler-KeepsCode u h [] k ks = (k, tt)
  add_handler-KeepsCode u h ((v, g) ∷ hs) k (j, js) = elim (Bool-cases (bytes_eq v u)) [
    | inl e ↦ rw e (k, js)
    | inr e ↦ rw e (j, add_handler-KeepsCode u h hs k js)
  ]

  find_handler-KeepsCode :
      (u : List ℕ) (hs : Handlers S) (h : Handler S)
      → AllKeep hs
      → find_handler u hs ≡ some h
      → KeepsCode h
  unfolding find_handler
  find_handler-KeepsCode u [] h ks e = cc
  find_handler-KeepsCode u ((v, g) ∷ hs) h (k, ks) e = elim (Bool-cases (bytes_eq v u)) [
    | inl f ↦ let e' : some g ≡ some h = rw f at e in let e'' : g ≡ h = cc in subst KeepsCode e'' k
    | inr f ↦ find_handler-KeepsCode u hs h ks (rw f at e)
  ]

  handle_request-KeepsCode :
      (content_type : List ℕ) (hs : Handlers S)
      → AllKeep hs
      → KeepsCode (handle_request content_type hs)
  unfolding handle_request
  handle_request-KeepsCode content_type hs ks req resp s s' r e =
      elim (Option-cases (find_handler req.url hs)) [
        | inl f ↦ finished_code resp s s' _ r refl (rw (f, handle_request) at e)
        | inr (h, f) ↦
            find_handler-KeepsCode req.url hs h ks f req _ s s' r (rw (f, handle_request) at e)
      ]

  handle_parsed-KeepsCode :
      (content_type : List ℕ) (hs : Handlers S) (code : ℕ)
      → AllKeep hs
      → KeepsCode (handle_parsed content_type hs code)
  unfolding handle_parsed
  handle_parsed-KeepsCode content_type hs code ks req resp s s' r e =
      elim (Bool-cases (code == http_ok)) [
        | inl f ↦
            handle_request-KeepsCode content_type hs ks req resp s s' r (rw (f, handle_parsed) at e)
        | inr f ↦ finished_code resp s s' _ r refl (rw (f, handle_parsed) at e)
      ]

  web_page-KeepsCode : (body : HttpRequest → Op (Web S) (List ℕ)) → KeepsCode (web_page body)
  unfolding web_page
  web_page-KeepsCode body req resp s s' r e =
      let (text, t, f, g) = bind_inversion (body req) _ s s' r e in
      finished_code resp t s' _ r refl g

  file_page-KeepsCode :
      (files : List ℕ → Option (List ℕ)) (resources_dir content_type : List ℕ)
      → KeepsCode (file_page {S = S} files resources_dir content_type)
  unfolding file_page
  file_page-KeepsCode files resources_dir content_type req resp s s' r e =
      let path = c_str resources_dir ++ (codes "/static/" ++ c_str req.url) in
      elim (Bool-cases (leb 1024 (length path))) [
        | inl f ↦
            let e' : ◌≡◌ {A = Run (Web S) (ℕ × HttpResponse)} crashed (finished r s') =
              rw (f, file_page) at e in
            cc
        | inr f ↦ elim (Option-cases (files path)) [
          | inl g ↦ finished_code resp s s' _ r refl (rw (f, g, file_page) at e)
          | inr (bytes, g) ↦ finished_code resp s s' _ r refl (rw (f, g, file_page) at e)
        ]
      ]

  respond_status :
      (content_type : List ℕ) (hs : Handlers S) (junk : ℕ) (sbuffer sent : List ℕ) (s s' : S)
      → AllKeep hs
      → respond content_type hs junk sbuffer s ≡ finished sent s'
      → (rest : List ℕ) × (sent ≡ codes "HTTP/1.1 " ++ (decimal junk ++ (newline ++ rest)))
  unfolding respond
  respond_status content_type hs junk sbuffer sent s s' ks e =
      elim (Option-cases (parse_http_request new_request sbuffer)) [
        | inl f ↦
            let e' : ◌≡◌ {A = Run S (List ℕ)} crashed (finished sent s') = rw (f, respond) at e in
            absurd (cc)
        | inr ((code, req), f) ↦
            let (r, t, g, h) =
              bind_inversion (handle_parsed content_type hs code req (new_response junk))
                (λ r. pure (response_bytes req r)) s s' sent (rw (f, respond) at e) in
            let k =
              handle_parsed-KeepsCode content_type hs code ks req (new_response junk) s t r g in
            let h' : response_bytes req r ≡ sent = cc in
            let (rest, q) = response_status req r in
            (rest, sym h' ∙ q ∙ ap (λ c. codes "HTTP/1.1 " ++ (decimal c ++ (newline ++ rest))) k)
      ]

create_handlers-KeepsCode :
    {S : Type 0} (sha256 : List ℕ → List ℕ) (node : WebNode S) (what : List ℕ)
    (files : List ℕ → Option (List ℕ)) (resources_dir : List ℕ)
    → AllKeep (create_handlers sha256 node what files resources_dir)
unfolding create_handlers
create_handlers-KeepsCode {S} sha256 node what files resources_dir =
    let image = codes "image/png" in
    let h1 = web_page {S = S} index_body in
    let h2 = web_page (results_body node) in
    let h3 = web_page (insert_body sha256 node what) in
    let h4 = file_page {S = S} files resources_dir image in
    let hs1 = add_handler (codes "/") h1 [] in
    let hs2 = add_handler (codes "/search") h2 hs1 in
    let hs3 = add_handler (codes "/insert_link") h3 hs2 in
    let k4 = file_page-KeepsCode files resources_dir image in
    let k1 = add_handler-KeepsCode (codes "/") h1 [] (web_page-KeepsCode index_body) tt in
    let k2 =
      add_handler-KeepsCode (codes "/search") h2 hs1 (web_page-KeepsCode (results_body node)) k1 in
    let k3 =
      add_handler-KeepsCode (codes "/insert_link") h3 hs2
        (web_page-KeepsCode (insert_body sha256 node what)) k2 in
    add_handler-KeepsCode (codes "/sds_header.png") h4 (add_handler (codes "/sds_logo.png") h4 hs3)
      k4 (add_handler-KeepsCode (codes "/sds_logo.png") h4 hs3 k4 k3)

-- Whatever a client of the web interface sends and however its request ends, the status line of the
-- answer carries the number that the memory of the response happened to hold.
pub serve_client_status :
    {S : Type 0} (sha256 : List ℕ → List ℕ) (node : WebNode S) (what : List ℕ)
    (files : List ℕ → Option (List ℕ)) (resources_dir : List ℕ) (junk : ℕ)
    (calls : List (Option (List ℕ))) (sent : List ℕ) (w w' : Web S)
    → serve_client default_content_type
        (create_handlers sha256 node what files resources_dir)
        junk
        calls
        w
      ≡ finished sent w'
    → (rest : List ℕ) × (sent ≡ codes "HTTP/1.1 " ++ (decimal junk ++ (newline ++ rest)))
unfolding serve_client
serve_client_status {S} sha256 node what files resources_dir junk calls sent w w' e =
    let hs = create_handlers sha256 node what files resources_dir in
    elim (Option-cases (receive_request calls)) [
      | inl f ↦
          let e' : ◌≡◌ {A = Run (Web S) (List ℕ)} aborted (finished sent w') =
            rw (f, serve_client) at e in
          absurd (cc)
      | inr (bytes, f) ↦
          respond_status default_content_type hs junk bytes sent w w'
            (create_handlers-KeepsCode sha256 node what files resources_dir)
            (rw (f, serve_client) at e)
    ]
