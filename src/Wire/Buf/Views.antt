-- ===== src/Wire/Buf/Views.antt =====
-- A buffer that is only written to is a growing byte string; rewound it is a string that is read from
-- the front.
use sniffdogsniff.Shared.{
  ℕ, zero, suc, ◌+◌, ◌-◌, ◌^◌, ◌≤◌, ◌<◌, ◌≡◌, refl, sym, ap, subst, ◌∙◌, ◌⊎◌, inl, inr, Option,
  some, none, arith,
}
use sniffdogsniff.Shared.{
  List, [], ◌∷◌, ◌++◌, map, append_assoc, length, length-append, length-replicate, take, drop,
  take-length, length-drop, replicate, ltb, leb, ◌==◌, Bool-cases, true, false,
}
use sniffdogsniff.Wire.Outcome.{ok}
use sniffdogsniff.Wire.Buf.{
  Buf, M, ◌>>=◌, ◌>>◌, pure, cells, size_mod, new_buf, allocate, resize, rewind, store, write_at,
  write, fetch, available, read, write_bytes, read_bytes,
}
use sniffdogsniff.Wire.Buf.Growth.{grow_lem}
use mathlib.Core.List.{map-append}

-- `xs` has been written, and nothing else.
pub record Writing (b : Buf) (xs : List ℕ) : Type 0 where
  pub slack : List (Option ℕ)
  pub at_end : b.pos ≡ length xs
  pub all : b.buffer_size ≡ length xs
  pub holds : cells b.buffer ≡ map some xs ++ slack
  pub room :
      (b.buffer ≡ none)
      ⊎ ((b.buffer ≡ some (map some xs ++ slack))
          × (0 < b.capacity)
          × (b.capacity ≡ length (map some xs ++ slack)))

-- `xs` is left to be read.
pub record Reading (b : Buf) (xs : List ℕ) : Type 0 where
  pub done : List ℕ
  pub slack : List (Option ℕ)
  pub at : b.pos ≡ length done
  pub end : b.buffer_size ≡ length done + length xs
  pub fits : length done + length xs < size_mod
  pub holds : cells b.buffer ≡ map some done ++ (map some xs ++ slack)

-- A step that appends `ys`, as long as the whole stays below 2 ^ 63 bytes.
abbrev pub Writes : M (Unit {0}) → List ℕ → Type 0
Writes m ys =
    (b : Buf) (xs : List ℕ)
    → Writing b xs
    → length xs + length ys ≤ 2 ^ 63
    → (b' : Buf) × (m b ≡ ok (tt, b')) × Writing b' (xs ++ ys)

-- A step that takes `ys` from the front and returns `a`.
abbrev pub Reads : {A : Type 0} → M A → List ℕ → A → Type 0
Reads m ys a =
    (b : Buf) (rest : List ℕ)
    → Reading b (ys ++ rest)
    → (b' : Buf) × (m b ≡ ok (a, b')) × Reading b' rest

pub length-cells : (xs : List ℕ) → length (map {B = Option ℕ} some xs) ≡ length xs
length-cells [] = refl
length-cells (x ∷ xs) = ap suc (length-cells xs)

pub new_buf-Writing : Writing new_buf []
unfolding new_buf
new_buf-Writing = record { slack = []; at_end = refl; all = refl; holds = refl; room = inl refl }

pub rewind-Reading :
    (b : Buf) (xs : List ℕ) → Writing b xs → length xs < size_mod → Reading (rewind b) xs
unfolding rewind
rewind-Reading b xs w lt = record {
  done = [];
  slack = w.slack;
  at = refl;
  end = w.all ∙ zero_add (length xs);
  fits = omega arith;
  holds = w.holds;
}
  where
    zero_add : (n : ℕ) → n ≡ 0 + n
    zero_add n = omega arith

-- What `resize` gives a buffer that is being written: room for `n` bytes in all.
pub record Roomy (b : Buf) (xs : List ℕ) (n : ℕ) : Type 0 where
  pub slack : List (Option ℕ)
  pub at_end : b.pos ≡ length xs
  pub all : b.buffer_size ≡ length xs
  pub buffer : b.buffer ≡ some (map some xs ++ slack)
  pub capacity : b.capacity ≡ length (map some xs ++ slack)
  pub room : n ≤ length (map some xs ++ slack)

cons_ne_nil {ℓ} : {A : Type ℓ} {x : A} {xs : List A} → x ∷ xs ≡ [] → ⊥
cons_ne_nil e = cc

extended :
    (front slack : List (Option ℕ)) (c : ℕ)
    → length (front ++ slack) ≤ c
    → length (front ++ (slack ++ replicate (c - length (front ++ slack)) none)) ≡ c
extended front slack c h = omega (
  arith,
  length-append front (slack ++ replicate (c - length (front ++ slack)) none),
  length-append slack (replicate (c - length (front ++ slack)) none),
  length-append front slack,
  length-replicate {A = Option ℕ} (c - length (front ++ slack)) none,
)

resize_fresh :
    (b : Buf) (xs : List ℕ) (n : ℕ)
    → Writing b xs
    → b.buffer ≡ none
    → length xs ≤ n
    → (r : Buf) × (resize n b ≡ ok r) × Roomy r xs n
unfolding resize allocate
resize_fresh b [] n w e le = (
  allocate n b,
  rw e,
  record {
    slack = replicate n none;
    at_end = w.at_end;
    all = w.all;
    buffer = refl;
    capacity = sym (length-replicate n none);
    room = omega (arith, length-replicate {A = Option ℕ} n none);
  },
)
resize_fresh b (x ∷ xs) n w e le = absurd (cons_ne_nil (sym w.holds ∙ ap cells e))

resize_more :
    (b : Buf) (xs : List ℕ) (n : ℕ) (slack : List (Option ℕ))
    → Writing b xs
    → 0 < n
    → n ≤ 2 ^ 63
    → b.buffer ≡ some (map some xs ++ slack)
    → 0 < b.capacity
    → b.capacity ≡ length (map some xs ++ slack)
    → (r : Buf) × (resize n b ≡ ok r) × Roomy r xs n
unfolding resize
resize_more b xs n slack w pos le e cap len = elim (Bool-cases (ltb b.capacity n)) [
  | inl l ↦
      let (c, g, ge, up, or) = grow_lem b.capacity n cap le in
      let more = slack ++ replicate (c - length (map some xs ++ slack)) none in
      (
        record b {
          capacity = c;
          buffer =
              some ((map some xs ++ slack) ++ replicate (c - length (map some xs ++ slack)) none);
        },
        rw (e, l, g, resize),
        record {
          slack = more;
          at_end = w.at_end;
          all = w.all;
          buffer = ap some (append_assoc (map some xs) slack _);
          capacity = sym (extended (map some xs) slack c (omega arith));
          room = omega (arith, extended (map some xs) slack c (omega arith));
        },
      )
  | inr l ↦ (
    b,
    rw (e, l),
    record {
      slack = slack;
      at_end = w.at_end;
      all = w.all;
      buffer = e;
      capacity = len;
      room = ground arith;
    },
  )
]

pub drop_past :
    {A : Type 0} (front slack : List A) (k n : ℕ)
    → n ≡ length front + k
    → drop n (front ++ slack) ≡ drop k slack
drop_past [] slack k n e = ap (λ i. drop i slack) (e ∙ zero_add k)
  where
    zero_add : (m : ℕ) → 0 + m ≡ m
    zero_add m = omega arith
drop_past (x ∷ xs) slack k zero e = absurd (omega arith)
drop_past (x ∷ xs) slack k (suc n) e = drop_past xs slack k n (omega arith)

store-append :
    (front slack : List (Option ℕ)) (bs : List ℕ) (at : ℕ)
    → at ≡ length front
    → length front + length bs ≤ length (front ++ slack)
    → store at bs (front ++ slack) ≡ some (front ++ (map some bs ++ drop (length bs) slack))
unfolding store
store-append front slack bs at e le =
    let fits : leb (at + length bs) (length (front ++ slack)) ≡ true = ground arith in
    rw (fits, drop_past front slack (length bs) (at + length bs) (omega arith), take_front)
  where
    take_front : take at (front ++ slack) ≡ front
    take_front = ap (λ n. take n (front ++ slack)) e ∙ take-length front slack

write_at-Roomy :
    (b : Buf) (xs ys : List ℕ)
    → 0 < length ys
    → Roomy b xs (length xs + length ys)
    → (b' : Buf) × (write_at ys b ≡ ok (tt, b')) × Writing b' (xs ++ ys)
unfolding write_at
write_at-Roomy b xs ys pos r =
    let enough : length (map {B = Option ℕ} some xs) + length ys ≤ length (map some xs ++ r.slack) =
      omega (arith, length-cells xs, r.room) in
    let stored =
      store-append (map some xs) r.slack ys b.pos (r.at_end ∙ sym (length-cells xs)) enough in
    (
      record b {
        pos = b.pos + length ys;
        buffer_size = b.buffer_size + length ys;
        buffer = some (map some xs ++ (map some ys ++ drop (length ys) r.slack));
      },
      rw (r.buffer, stored, write_at),
      record {
        slack = drop (length ys) r.slack;
        at_end = omega (arith, r.at_end, length-append xs ys);
        all = omega (arith, r.all, length-append xs ys);
        holds = joined;
        room = inr (
          ap some joined,
          omega (arith, r.capacity, r.room),
          omega (
            arith,
            r.capacity,
            r.room,
            length-append (map some xs) r.slack,
            length-append (map some (xs ++ ys)) (drop (length ys) r.slack),
            length-drop (length ys) r.slack,
            length-cells (xs ++ ys),
            length-cells xs,
            length-append xs ys,
          ),
        );
      },
    )
  where
    joined :
        map some xs ++ (map some ys ++ drop (length ys) r.slack)
        ≡ map some (xs ++ ys) ++ drop (length ys) r.slack
    joined = sym (
        ap (λ cs. cs ++ drop (length ys) r.slack) (map-append some xs ys)
        ∙ append_assoc (map some xs) (map some ys) _)

write_resized :
    (b r : Buf) (ys : List ℕ) (n : ℕ)
    → n ≡ b.buffer_size + length ys
    → resize n b ≡ ok r
    → write ys b ≡ write_at ys r
unfolding write
write_resized b r ys n e h = rw (← e, h, write)

-- Writing appends.
pub write-Writes : (ys : List ℕ) → 0 < length ys → Writes (write ys) ys
write-Writes ys pos b xs w le =
    let n = length xs + length ys in
    let (r, e, roomy) = roomed w.room in
    let (b', e', w') = write_at-Roomy r xs ys pos roomy in
    (b', write_resized b r ys n (omega (arith, w.all)) e ∙ e', w')
  where
    roomed :
        ((b.buffer ≡ none)
          ⊎ ((b.buffer ≡ some (map some xs ++ w.slack))
              × (0 < b.capacity)
              × (b.capacity ≡ length (map some xs ++ w.slack))))
        → (r : Buf) × (resize (length xs + length ys) b ≡ ok r) × Roomy r xs (length xs + length ys)
    roomed (inl e) = resize_fresh b xs (length xs + length ys) w e (omega arith)
    roomed (inr (e, cap, len)) =
        resize_more b xs (length xs + length ys) w.slack w (omega arith) le e cap len

write_bytes_positive : (ys : List ℕ) → 0 < length ys → write_bytes ys ≡ write ys
unfolding write_bytes
write_bytes_positive ys pos = let test : (0 == length ys) ≡ false = ground arith in rw test

pub write_bytes-Writes : (ys : List ℕ) → 0 < length ys → Writes (write_bytes ys) ys
write_bytes-Writes ys pos =
    subst (λ m. Writes m ys) (sym (write_bytes_positive ys pos)) (write-Writes ys pos)

-- Steps one after the other.
pub Writes-then :
    (m k : M (Unit {0})) (ys zs : List ℕ) → Writes m ys → Writes k zs → Writes (m >> k) (ys ++ zs)
Writes-then m k ys zs hm hk b xs w le =
    let (b', e, w') = hm b xs w (omega (arith, length-append ys zs)) in
    let (b2, e2, w2) =
      hk b' (xs ++ ys) w' (omega (arith, length-append ys zs, length-append xs ys)) in
    (b2, rw (e, ◌>>=◌) e2, subst (Writing b2) (append_assoc xs ys zs) w2)

pub Reads-then :
    {A B : Type 0} (m : M A) (f : A → M B) (ys zs : List ℕ) (a : A) (c : B)
    → Reads m ys a
    → Reads (f a) zs c
    → Reads (m >>= f) (ys ++ zs) c
Reads-then m f ys zs a c hm hf b rest r =
    let (b', e, r') = hm b (zs ++ rest) (subst (Reading b) (append_assoc ys zs rest) r) in
    let (b2, e2, r2) = hf b' rest r' in (b2, rw (e, ◌>>=◌) e2, r2)

pub Reads-pure : {A : Type 0} (a : A) → Reads (pure a) [] a
Reads-pure a b rest r = (b, refl, r)

pub Reads-map :
    {A B : Type 0} (m : M A) (f : A → B) (ys : List ℕ) (a : A)
    → Reads m ys a
    → Reads (m >>= λ x. pure (f x)) ys (f a)
Reads-map m f ys a h b rest r = let (b', e, r') = h b rest r in (b', rw (e, ◌>>=◌) refl, r')

pub fetch_lem :
    (ys : List ℕ) (tail : List (Option ℕ)) → fetch (length ys) (map some ys ++ tail) ≡ some ys
unfolding fetch
fetch_lem [] tail = refl
fetch_lem (y ∷ ys) tail = rw (fetch_lem ys tail, fetch)

pub available-Reading : (b : Buf) (xs : List ℕ) → Reading b xs → available b ≡ length xs
available-Reading b xs r = omega (arith, r.end, r.at, r.fits)

-- What is left after `ys` has been taken.
pub Reading-skip :
    (b : Buf) (ys rest : List ℕ) (n : ℕ)
    → n ≡ b.pos + length ys
    → Reading b (ys ++ rest)
    → Reading (record b { pos = n }) rest
Reading-skip b ys rest n e r = record {
  done = r.done ++ ys;
  slack = r.slack;
  at = omega (arith, r.at, length-append r.done ys);
  end = omega (arith, r.end, length-append r.done ys, length-append ys rest);
  fits = omega (arith, r.fits, length-append r.done ys, length-append ys rest);
  holds = r.holds ∙ regrouped r.done ys rest r.slack;
}
  where
    regrouped :
        (ds ys rest : List ℕ) (tail : List (Option ℕ))
        → map some ds ++ (map some (ys ++ rest) ++ tail)
          ≡ map some (ds ++ ys) ++ (map some rest ++ tail)
    regrouped ds ys rest tail =
        ap (λ cs. map some ds ++ (cs ++ tail)) (map-append some ys rest)
        ∙ ap (λ cs. map some ds ++ cs) (append_assoc (map some ys) (map some rest) tail)
        ∙ sym (append_assoc (map some ds) (map some ys) (map some rest ++ tail))
        ∙ sym (ap (λ cs. cs ++ (map some rest ++ tail)) (map-append some ds ys))

-- The cells from the position on.
pub Reading-cells :
    (b : Buf) (xs : List ℕ) (r : Reading b xs)
    → drop b.pos (cells b.buffer) ≡ map some xs ++ r.slack
Reading-cells b xs r =
    ap (drop b.pos) r.holds
    ∙ drop_past (map some r.done) (map some xs ++ r.slack) 0 b.pos
        (omega (arith, r.at, length-cells r.done))

-- Reading takes bytes from the front.
pub read-Reads : (n : ℕ) (ys : List ℕ) → length ys ≡ n → Reads (read n) ys (some ys)
unfolding read
read-Reads n ys e b rest r =
    let enough : leb n (available b) ≡ true =
      ground (arith, available-Reading b (ys ++ rest) r, length-append ys rest) in
    (
      record b { pos = b.pos + n },
      rw (enough, front, read),
      Reading-skip b ys rest (b.pos + n) (omega arith) r,
    )
  where
    front : fetch n (drop b.pos (cells b.buffer)) ≡ some ys
    front =
        ap (fetch n) (
          Reading-cells b (ys ++ rest) r
          ∙ ap (λ cs. cs ++ r.slack) (map-append some ys rest)
          ∙ append_assoc (map some ys) (map some rest) r.slack)
        ∙ ap (λ k. fetch k (map some ys ++ (map some rest ++ r.slack))) (sym e)
        ∙ fetch_lem ys (map some rest ++ r.slack)

-- With fewer bytes left than asked for, nothing is read.
pub read_short :
    (n : ℕ) (xs : List ℕ) (b : Buf) → Reading b xs → length xs < n → read n b ≡ ok (none, b)
unfolding read
read_short n xs b r lt =
    let short : leb n (available b) ≡ false = ground (arith, available-Reading b xs r) in rw short

read_bytes_positive : (n : ℕ) → 0 < n → read_bytes n ≡ read n
unfolding read_bytes
read_bytes_positive n pos = let test : (0 == n) ≡ false = ground arith in rw test

pub read_bytes-Reads :
    (n : ℕ) (ys : List ℕ) → 0 < n → length ys ≡ n → Reads (read_bytes n) ys (some ys)
read_bytes-Reads n ys pos e =
    subst (λ m. Reads m ys (some ys)) (sym (read_bytes_positive n pos)) (read-Reads n ys e)
