-- ===== src/Entries/SimHash/Init/Weights.antt =====
-- The hash of a text is the majority of the votes of its tokens, whatever their order.
use sniffdogsniff.Shared.{
  ℕ, zero, suc, ◌+◌, ◌*◌, ◌%◌, ◌^◌, ◌<◌, ◌≡◌, refl, sym, ap, ap₂, ◌∙◌, ◌&&◌, Option, none, some,
  List, [], ◌∷◌, arith, ltb, if◌then◌else◌, Bool-cases, Option-cases, inl, inr,
}
use sniffdogsniff.Shared.Optional.{◌>>=◌}
use sniffdogsniff.Shared.Bytes.{bytes_eq, bytes_eq_iff}
use sniffdogsniff.Kad.Id.{KadId}
use sniffdogsniff.Entries.SimHash.Init.{
  WordHash, fnv128_string, add_token, token_mults, hash_bit, sim_weight, weight_bit, id_byte,
  id_bytes, init, string_lt,
}

-- What the bit `k` of a hash adds to the weight, each time that its token occurs: 1, or -1 as a byte.
abbrev pub vote : ℕ → List ℕ → ℕ
vote k hash = if hash_bit k hash then 1 else 255

-- The entries of the map carry the hashes of their tokens.
abbrev IsHashed : List (List ℕ × WordHash) → Type 0
IsHashed [] = Unit {0}
IsHashed ((t, w) ∷ m) = (fnv128_string t ≡ some w.hash) × IsHashed m

total : ℕ → List (List ℕ × WordHash) → ℕ
total k [] = 0
total k ((t, w) ∷ m) = vote k w.hash * w.weight + total k m

sim_weight-total :
    (k : ℕ) (m : List (List ℕ × WordHash)) (acc : ℕ)
    → sim_weight k m acc % 256 ≡ (acc + total k m) % 256
unfolding sim_weight total
sim_weight-total k [] acc = omega arith
sim_weight-total k ((t, w) ∷ m) acc = elim (Bool-cases (hash_bit k w.hash)) [
  | inl e ↦ rw e (sim_weight-total k m _ ∙ omega arith)
  | inr e ↦ rw e (sim_weight-total k m _ ∙ omega arith)
]

some_injective {ℓ} : {A : Type ℓ} {a b : A} → some a ≡ some b → a ≡ b
some_injective e = cc

vote_more : (k : ℕ) (hash : List ℕ) (n : ℕ) → vote k hash * (n + 1) ≡ vote k hash * n + vote k hash
vote_more k hash n = elim (Bool-cases (hash_bit k hash)) [
  | inl e ↦ rw e (omega arith)
  | inr e ↦ rw e (omega arith)
]

-- A token adds its vote, and the map stays hashed.
total-add_token :
    (k : ℕ) (t hash : List ℕ) (m : List (List ℕ × WordHash))
    → fnv128_string t ≡ some hash
    → IsHashed m
    → (total k (add_token t hash m) ≡ total k m + vote k hash) × IsHashed (add_token t hash m)
unfolding add_token total
total-add_token k t hash [] e h = (omega arith, (e, tt))
total-add_token k t hash ((u, w) ∷ m) e (f, h) = elim (Bool-cases (bytes_eq u t)) [
  | inl same ↦
      let eq : u ≡ t = (bytes_eq_iff u t).0 same in
      let hashes : w.hash ≡ hash = some_injective (sym f ∙ ap fnv128_string eq ∙ e) in
      rw same (omega (arith, vote_more k w.hash w.weight, ap (vote k) hashes), (f, h))
  | inr other ↦ elim (Bool-cases (string_lt u t)) [
    | inl l ↦
        let (a, b) = total-add_token k t hash m e h in rw (other, l) (omega (arith, a), (f, b))
    | inr l ↦ rw (other, l) (omega arith, (e, (f, h)))
  ]
]

-- The hashes of the tokens, with no map.
unfoldable pub all_hashes : List (List ℕ) → Option (List (List ℕ))
all_hashes [] = some []
all_hashes (t ∷ ts) = do hash ← fnv128_string t; hashes ← all_hashes ts; some (hash ∷ hashes)

unfoldable pub votes : ℕ → List (List ℕ) → ℕ
votes k [] = 0
votes k (h ∷ hs) = vote k h + votes k hs

-- The sum of the votes, as a signed byte, is positive.
abbrev pub vote_bit : ℕ → List (List ℕ) → ℕ
vote_bit k hs = if ltb 0 (votes k hs % 256) && ltb (votes k hs % 256) 128 then 1 else 0

unfoldable pub vote_byte : ℕ → ℕ → List (List ℕ) → ℕ
vote_byte zero k hs = 0
vote_byte (suc n) k hs = vote_bit k hs * 2 ^ n + vote_byte n (suc k) hs

unfoldable pub vote_bytes : ℕ → ℕ → List (List ℕ) → List ℕ
vote_bytes zero i hs = []
vote_bytes (suc n) i hs = vote_byte 8 (8 * i) hs ∷ vote_bytes n (suc i) hs

sim_weight_lt :
    (k : ℕ) (m : List (List ℕ × WordHash)) (acc : ℕ) → acc < 256 → sim_weight k m acc < 256
unfolding sim_weight
sim_weight_lt k [] acc lt = lt
sim_weight_lt k ((t, w) ∷ m) acc lt = sim_weight_lt k m _ (omega arith)

-- What the map holds in the end, and the hashes of the tokens: the same votes.
abbrev Agree :
    List (List ℕ × WordHash) → Option (List (List ℕ × WordHash)) → Option (List (List ℕ)) → Type 0
Agree m none none = Unit {0}
Agree m (some m') (some hs) = (k : ℕ) → total k m' ≡ total k m + votes k hs
Agree m none (some hs) = ⊥
Agree m (some m') none = ⊥

Agree-more :
    (m m' : List (List ℕ × WordHash)) (hash : List ℕ) (o : Option (List (List ℕ × WordHash)))
    (p : Option (List (List ℕ)))
    → ((k : ℕ) → total k m' ≡ total k m + vote k hash)
    → Agree m' o p
    → Agree m o (p >>= λ hs. some (hash ∷ hs))
unfolding votes
Agree-more m m' hash none none f h = tt
Agree-more m m' hash none (some hs) f h = elim h [ ]
Agree-more m m' hash (some n) none f h = elim h [ ]
Agree-more m m' hash (some n) (some hs) f h = λ k. omega (arith, h k, f k)

token_mults-votes :
    (ts : List (List ℕ)) (m : List (List ℕ × WordHash))
    → IsHashed m
    → Agree m (token_mults ts m) (all_hashes ts)
unfolding token_mults all_hashes votes
token_mults-votes [] m h = λ k. omega arith
token_mults-votes (t ∷ ts) m h = elim (Option-cases (fnv128_string t)) [
  | inl e ↦ rw (e, token_mults, all_hashes) tt
  | inr (hash, e) ↦
      rw (e, token_mults, all_hashes)
        (Agree-more m (add_token t hash m) hash (token_mults ts (add_token t hash m))
          (all_hashes ts) (λ k. (total-add_token k t hash m e h).0)
          (token_mults-votes ts (add_token t hash m) (total-add_token 0 t hash m e h).1))
]

weight_bit-votes :
    (k : ℕ) (m : List (List ℕ × WordHash)) (hs : List (List ℕ))
    → total k m ≡ votes k hs
    → weight_bit k m ≡ vote_bit k hs
unfolding weight_bit
weight_bit-votes k m hs e =
    let same : sim_weight k m 0 ≡ votes k hs % 256 =
      omega (arith, sim_weight-total k m 0, sim_weight_lt k m 0 (omega arith), e) in
    rw same refl

id_byte-votes :
    (n k : ℕ) (m : List (List ℕ × WordHash)) (hs : List (List ℕ))
    → ((j : ℕ) → total j m ≡ votes j hs)
    → id_byte n k m ≡ vote_byte n k hs
unfolding id_byte vote_byte
id_byte-votes zero k m hs e = refl
id_byte-votes (suc n) k m hs e =
    rw (weight_bit-votes k m hs (e k), id_byte-votes n (suc k) m hs e) refl

id_bytes-votes :
    (n i : ℕ) (m : List (List ℕ × WordHash)) (hs : List (List ℕ))
    → ((j : ℕ) → total j m ≡ votes j hs)
    → id_bytes n i m ≡ vote_bytes n i hs
unfolding id_bytes vote_bytes
id_bytes-votes zero i m hs e = refl
id_bytes-votes (suc n) i m hs e =
    ap₂ ◌∷◌ (id_byte-votes 8 (8 * i) m hs e) (id_bytes-votes n (suc i) m hs e)

empty_total : (k : ℕ) (hs : List (List ℕ)) → total k [] + votes k hs ≡ votes k hs
unfolding total
empty_total k hs = omega arith

-- `init` fails exactly when the hash of a token reads past its end, and else gives the bits for which
-- the sum of the votes of all tokens, as a signed byte, is positive: the order of the tokens and the
-- map that counts them do not matter.
pub init_lem :
    (ts : List (List ℕ))
    → init ts ≡ (all_hashes ts >>= λ hs. some (record { id = vote_bytes 16 0 hs }))
unfolding init
init_lem ts = joined (token_mults ts []) (all_hashes ts) (token_mults-votes ts [] tt)
  where
    joined :
        (o : Option (List (List ℕ × WordHash))) (p : Option (List (List ℕ)))
        → Agree [] o p
        → ◌≡◌ {A = Option KadId}
            (o >>= λ m. some (record { id = id_bytes 16 0 m }))
            (p >>= λ hs. some (record { id = vote_bytes 16 0 hs }))
    joined none none h = refl
    joined none (some hs) h = elim h [ ]
    joined (some m) none h = elim h [ ]
    joined (some m) (some hs) h =
        ap (λ bs. some (record { id = bs }))
          (id_bytes-votes 16 0 m hs (λ k. h k ∙ empty_total k hs))
