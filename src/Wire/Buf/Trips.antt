-- ===== src/Wire/Buf/Trips.antt =====
-- Writing to a new buffer, rewinding it and reading: a round trip.
use sniffdogsniff.Shared.{
  ℕ, ◌^◌, ◌≤◌, ◌≡◌, refl, sym, ap, subst, ◌∙◌, some, map, List, [], ◌∷◌, ◌++◌, append-nil, length,
  arith,
}
use sniffdogsniff.Kad.Id.{KadId, IsKadId, kad_id_length}
use sniffdogsniff.Wire.Outcome.{ok}
use sniffdogsniff.Wire.Buf.{
  Buf, M, cells, fetch, pure, new_buf, rewind, write_bytes, read_bytes, read_string,
}
use sniffdogsniff.Wire.Buf.Views.{
  Writing, Reading, Writes, Reads, new_buf-Writing, rewind-Reading, fetch_lem, write_bytes-Writes,
  read_bytes-Reads,
}
use sniffdogsniff.Wire.Buf.Strings.{IsText, read_string-Reads}

-- What is written to a new buffer by `m` is read from its start by `r`, with the value `a`, and
-- nothing is left.
abbrev pub RoundTrip : {A : Type 0} → M (Unit {0}) → M A → A → Type 0
RoundTrip m r a =
    (b b' : Buf) × (m new_buf ≡ ok (tt, b)) × (r (rewind b) ≡ ok (a, b')) × Reading b' []

pub round_trip :
    {A : Type 0} (m : M (Unit {0})) (r : M A) (ys : List ℕ) (a : A)
    → Writes m ys
    → Reads r ys a
    → length ys ≤ 2 ^ 63
    → RoundTrip m r a
round_trip m r ys a w s le =
    let (b, e, wr) = w new_buf [] new_buf-Writing (omega arith) in
    let (b', e', rd) =
      s (rewind b) []
        (subst (Reading (rewind b)) (sym (append-nil ys)) (rewind-Reading b ys wr (omega arith))) in
    (b, b', e, e', rd)

-- A string that can be sent: not empty, and without a 0.
abbrev pub Sendable : List ℕ → Type 0
Sendable [] = ⊥
Sendable (c ∷ s) = IsText s

pub Sendable-Reads : (s : List ℕ) → Sendable s → Reads read_string (s ++ (0 ∷ [])) s
Sendable-Reads [] h = absurd h
Sendable-Reads (c ∷ s) h = read_string-Reads c s h

pub id-Writes : (x : KadId) → IsKadId x → Writes (write_bytes x.id) x.id
id-Writes x h = write_bytes-Writes x.id (omega (arith, h.size))

pub id-Reads : (x : KadId) → IsKadId x → Reads (read_bytes kad_id_length) x.id (some x.id)
id-Reads x h = read_bytes-Reads kad_id_length x.id (omega arith) h.size

pub Writes-pure : Writes (pure tt) []
Writes-pure b xs w le = (b, refl, subst (Writing b) (sym (append-nil xs)) w)

-- All that was written.
pub fetch-Writing :
    (b : Buf) (xs : List ℕ) → Writing b xs → fetch b.buffer_size (cells b.buffer) ≡ some xs
fetch-Writing b xs w =
    ap (λ cs. fetch b.buffer_size cs) w.holds
    ∙ ap (λ n. fetch n (map some xs ++ w.slack)) w.all
    ∙ fetch_lem xs w.slack
