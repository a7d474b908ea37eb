-- ===== src/Wire/Buf/Strings.antt =====
-- `writeString` and `readString`: a string and its 0.
use sniffdogsniff.Shared.{ℕ, zero, suc, ◌+◌, ◌<◌, ◌≡◌, refl, ap, ◌∙◌, Option, some, arith}
use sniffdogsniff.Shared.{List, [], ◌∷◌, ◌++◌, map, length, length-append, drop, ◌==◌, false, All}
use sniffdogsniff.Wire.Buf.{cells, write_string, scan, fetch, available, read_string}
use sniffdogsniff.Wire.Buf.Views.{
  drop_past, length-cells, Writes, Reads, Reading-skip, Reading-cells, available-Reading, fetch_lem,
  write-Writes,
}

-- No byte of the string is 0.
abbrev pub IsText : List ℕ → Type 0
IsText s = All (λ c. 0 < c) s

pub write_string-Writes : (s : List ℕ) → Writes (write_string s) (s ++ (0 ∷ []))
unfolding write_string
write_string-Writes s = write-Writes (s ++ (0 ∷ [])) (omega (arith, length-append s (0 ∷ [])))

scan_lem :
    (s : List ℕ) (tail : List (Option ℕ)) (left len : ℕ)
    → IsText s
    → length s < left
    → scan left len (map some s ++ (some 0 ∷ tail)) ≡ some (len + length s + 1)
unfolding scan
scan_lem s tail zero len text lt = absurd (omega arith)
scan_lem [] tail (suc left) len text lt = ap some (omega arith)
scan_lem (c ∷ s) tail (suc left) len (pos, text) lt =
    let test : (c == 0) ≡ false = ground arith in
    let next : suc len + length s + 1 ≡ len + suc (length s) + 1 = omega arith in
    rw test (scan_lem s tail left (suc len) text (omega arith) ∙ ap some next)

-- The cells of a string, its 0 and what comes behind.
behind :
    (s rest : List ℕ) (slack : List (Option ℕ))
    → map some ((s ++ (0 ∷ [])) ++ rest) ++ slack
      ≡ map some s ++ (some 0 ∷ (map some rest ++ slack))
behind [] rest slack = refl
behind (c ∷ s) rest slack = ap (λ cs. some c ∷ cs) (behind s rest slack)

-- A string that has a character and no 0 in it is read back.
pub read_string-Reads :
    (c : ℕ) (s : List ℕ) → IsText s → Reads read_string ((c ∷ s) ++ (0 ∷ [])) (c ∷ s)
unfolding read_string
read_string-Reads c s text b rest r = (
  record b { pos = b.pos + (length s + 1) + 1 },
  rw (scanned, fetched, read_string),
  Reading-skip b ((c ∷ s) ++ (0 ∷ [])) rest _ (omega (arith, length-append s (0 ∷ []))) r,
)
  where
    after : List (Option ℕ)
    after = map some s ++ (some 0 ∷ (map some rest ++ r.slack))

    front : drop b.pos (cells b.buffer) ≡ some c ∷ after
    front =
        Reading-cells b ((c ∷ (s ++ (0 ∷ []))) ++ rest) r
        ∙ ap (λ cs. some c ∷ cs) (behind s rest r.slack)

    cursor : drop (b.pos + 1) (cells b.buffer) ≡ after
    cursor =
        ap (drop (b.pos + 1)) r.holds
        ∙ drop_past (map some r.done) _ 1 (b.pos + 1) (omega (arith, r.at, length-cells r.done))
        ∙ behind s rest r.slack

    from_zero : 0 + length s + 1 ≡ length s + 1
    from_zero = omega arith

    scanned : scan (available b) 0 (drop (b.pos + 1) (cells b.buffer)) ≡ some (length s + 1)
    scanned =
        ap (scan (available b) 0) cursor
        ∙ scan_lem s _ (available b) 0 text (
            omega (
              arith,
              available-Reading b _ r,
              length-append (s ++ (0 ∷ [])) rest,
              length-append s (0 ∷ []),
            ))
        ∙ ap some from_zero

    one_more : length s + 1 ≡ suc (length s)
    one_more = omega arith

    fetched : fetch (length s + 1) (drop b.pos (cells b.buffer)) ≡ some (c ∷ s)
    fetched =
        ap (fetch (length s + 1)) front
        ∙ ap (λ n. fetch n (some c ∷ after)) one_more
        ∙ fetch_lem (c ∷ s) (some 0 ∷ (map some rest ++ r.slack))
