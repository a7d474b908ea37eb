-- ===== src/P2p/Receive.antt =====
-- The body of a message is received in whatever pieces it comes.
use sniffdogsniff.Shared.{
  ℕ, ◌+◌, ◌-◌, ◌%◌, ◌^◌, ◌≤◌, ◌<◌, ◌≡◌, refl, sym, ap, subst, ◌∙◌, inl, inr, true, Option, none,
  some, List, [], ◌∷◌, ◌++◌, map, append_assoc, append-nil, length, length-append, replicate,
  length-replicate, All, take, drop, take-length, drop-length, arith, ◌==◌, if◌then◌else◌,
  Bool-cases,
}
use sniffdogsniff.Wire.Outcome.{Outcome, ok, fault, hang}
use sniffdogsniff.Wire.Buf.{Buf, size_mod, new_buf, allocate, rewind, write_bytes, le_bytes}
use sniffdogsniff.Wire.Buf.Views.{
  Writing, Reading, new_buf-Writing, rewind-Reading, write_bytes-Writes,
}
use sniffdogsniff.Wire.Buf.Numbers.{length-le_bytes, le_value-le_bytes}
use sniffdogsniff.P2p.{
  MessageRequestHeader, MessageResponseHeader, request_bytes, request_of, response_bytes,
  response_of, request_size, response_size, receive_loop, receive,
}

-- A call of `recv` that returns a positive number.
abbrev pub IsPiece : List ℕ → Type 0
IsPiece p = 0 < length p

unfoldable pub joined : List (List ℕ) → List ℕ
joined [] = []
joined (p ∷ ps) = p ++ joined ps

allocate-Writing : (n : ℕ) → 0 < n → Writing (allocate n new_buf) []
unfolding allocate new_buf
allocate-Writing n pos = record {
  slack = replicate n none;
  at_end = refl;
  all = refl;
  holds = refl;
  room = inr (refl, pos, sym (length-replicate n none));
}

new_buf-Reading : Reading new_buf []
unfolding new_buf rewind
new_buf-Reading = rewind-Reading new_buf [] new_buf-Writing (omega arith)

nil_of_length : (xs : List ℕ) → length xs ≡ 0 → xs ≡ []
nil_of_length [] e = refl
nil_of_length (x ∷ xs) e = absurd (omega arith)

receive_piece :
    (left left' y : ℕ) (ys : List ℕ) (answers : List (Option (List ℕ))) (b b' : Buf)
    → write_bytes (y ∷ ys) b ≡ ok (tt, b')
    → (left + size_mod - length (y ∷ ys)) % size_mod ≡ left'
    → receive_loop left (some (y ∷ ys) ∷ answers) b
      ≡ (if left' == 0 then ok (left', b') else receive_loop left' answers b')
unfolding receive_loop
receive_piece left left' y ys answers b b' e f =
    ap
      (λ (o : Outcome (Unit {0} × Buf)). elim o [
        | ok (u, b') ↦
            let n = (left + size_mod - length (y ∷ ys)) % size_mod in
            if n == 0 then ok (n, b') else receive_loop n answers b'
        | fault ↦ fault
        | hang ↦ hang
      ])
      e
    ∙ ap (λ n. if n == 0 then ok (n, b') else receive_loop n answers b') f

receive_loop_lem :
    (ps : List (List ℕ)) (b : Buf) (xs : List ℕ)
    → All IsPiece ps
    → Writing b xs
    → 0 < length (joined ps)
    → length xs + length (joined ps) ≤ 2 ^ 63
    → (b' : Buf) × (receive_loop (length (joined ps)) (map some ps) b ≡ ok (0, b'))
      × Writing b' (xs ++ joined ps)
unfolding receive_loop joined
receive_loop_lem [] b xs h w pos le = absurd (omega arith)
receive_loop_lem ([] ∷ ps) b xs (h, hs) w pos le = absurd (omega arith)
receive_loop_lem ((y ∷ ys) ∷ ps) b xs (h, hs) w pos le =
    let (b', e, w') =
      write_bytes-Writes (y ∷ ys) h b xs w (omega (arith, length-append (y ∷ ys) (joined ps))) in
    let left : (length ((y ∷ ys) ++ joined ps) + size_mod - length (y ∷ ys)) % size_mod
        ≡ length (joined ps) =
      omega (arith, length-append (y ∷ ys) (joined ps)) in
    let step =
      receive_piece (length ((y ∷ ys) ++ joined ps)) (length (joined ps)) y ys (map some ps) b b' e
        left in
    elim (Bool-cases (length (joined ps) == 0)) [
      | inl last ↦
          let none_left : length (joined ps) ≡ 0 = ground arith in
          (
            b',
            step ∙ rw last (ap (λ n. ok (n, b')) none_left),
            subst (Writing b')
                (ap (λ zs. xs ++ zs)
                  (sym (append-nil (y ∷ ys))
                    ∙ ap (λ zs. (y ∷ ys) ++ zs) (sym (nil_of_length (joined ps) none_left))))
                w',
          )
      | inr more ↦
          let (b2, e2, w2) =
            receive_loop_lem ps b' (xs ++ (y ∷ ys)) hs w' (ground arith)
              (omega (arith, length-append xs (y ∷ ys), length-append (y ∷ ys) (joined ps))) in
          (b2, step ∙ rw more e2, subst (Writing b2) (append_assoc xs (y ∷ ys) (joined ps)) w2)
    ]

-- A body of 2 ^ 63 bytes at most, in whatever pieces it arrives, is received in full, and is what is
-- left to be read in the buffer.
pub receive_lem :
    (ps : List (List ℕ))
    → All IsPiece ps
    → length (joined ps) ≤ 2 ^ 63
    → (b : Buf) × (receive (length (joined ps)) (map some ps) ≡ ok (0, b)) × Reading b (joined ps)
unfolding receive
receive_lem ps h le = elim (Bool-cases (length (joined ps) == 0)) [
  | inl e ↦
      let no_bytes : joined ps ≡ [] = nil_of_length (joined ps) (ground arith) in
      (new_buf, rw (e, receive) refl, subst (Reading new_buf) (sym no_bytes) new_buf-Reading)
  | inr e ↦
      let (b, r, w) =
        receive_loop_lem ps (allocate (length (joined ps)) new_buf) [] h
          (allocate-Writing (length (joined ps)) (ground arith)) (ground arith) (omega arith) in
      (rewind b, rw (e, r, receive) refl, rewind-Reading b (joined ps) w (omega arith))
]

-- The header of a request, with an identifier of eight bytes and a size of 64 bits, is received as it
-- was sent.
pub request_of-request_bytes :
    (req : MessageRequestHeader)
    → length req.id ≡ 8
    → req.datasize < 2 ^ 64
    → request_of (request_bytes req) ≡ some req
unfolding request_of request_bytes
request_of-request_bytes req h lt =
    let size : (length (req.funcode ∷ (req.id ++ le_bytes 8 req.datasize)) == request_size) ≡ true =
      ground (
        arith,
        length-append req.id (le_bytes 8 req.datasize),
        length-le_bytes 8 req.datasize,
        h,
      ) in
    let front : take 8 (req.id ++ le_bytes 8 req.datasize) ≡ req.id =
      ap (λ n. take n (req.id ++ le_bytes 8 req.datasize)) (sym h)
      ∙ take-length req.id (le_bytes 8 req.datasize) in
    let back : drop 8 (req.id ++ le_bytes 8 req.datasize) ≡ le_bytes 8 req.datasize =
      ap (λ n. drop n (req.id ++ le_bytes 8 req.datasize)) (sym h)
      ∙ drop-length req.id (le_bytes 8 req.datasize) in
    rw (size, front, back, le_value-le_bytes 8 req.datasize lt) refl

pub response_of-response_bytes :
    (resp : MessageResponseHeader)
    → length resp.id ≡ 8
    → resp.datasize < 2 ^ 64
    → response_of (response_bytes resp) ≡ some resp
unfolding response_of response_bytes
response_of-response_bytes resp h lt =
    let size : (length (resp.funcode ∷ resp.errcode ∷ (resp.id ++ le_bytes 8 resp.datasize))
          == response_size)
        ≡ true =
      ground (
        arith,
        length-append resp.id (le_bytes 8 resp.datasize),
        length-le_bytes 8 resp.datasize,
        h,
      ) in
    let front : take 8 (resp.id ++ le_bytes 8 resp.datasize) ≡ resp.id =
      ap (λ n. take n (resp.id ++ le_bytes 8 resp.datasize)) (sym h)
      ∙ take-length resp.id (le_bytes 8 resp.datasize) in
    let back : drop 8 (resp.id ++ le_bytes 8 resp.datasize) ≡ le_bytes 8 resp.datasize =
      ap (λ n. drop n (resp.id ++ le_bytes 8 resp.datasize)) (sym h)
      ∙ drop-length resp.id (le_bytes 8 resp.datasize) in
    rw (size, front, back, le_value-le_bytes 8 resp.datasize lt) refl
