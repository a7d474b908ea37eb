-- ===== src/Text/Split.antt =====
-- `split` cuts a string at each occurrence of the delimiter.
use sniffdogsniff.Shared.{
  ℕ, zero, suc, ◌≤◌, ◌<◌, ◌≡◌, refl, sym, ap, ◌∙◌, Option, none, some, List, [], ◌∷◌, ◌++◌, length,
  length-append, All, arith, Option-cases, subst, inl, inr,
}
use sniffdogsniff.Text.{strip, find, split_from, split}

abbrev pub join : List ℕ → List (List ℕ) → List ℕ
join d [] = []
join d (s ∷ []) = s
join d (s ∷ t ∷ ts) = s ++ (d ++ join d (t ∷ ts))

strip-append : (d s : List ℕ) (a : List ℕ) → strip d s ≡ some a → s ≡ d ++ a
unfolding strip
strip-append [] s a e = cc
strip-append (x ∷ d) [] a e = cc
strip-append (x ∷ d) (c ∷ s) a e = grind (arith, strip-append d s a)

-- A prefix of a string is a prefix of every longer one.
strip_longer : (d s t a : List ℕ) → strip d s ≡ some a → strip d (s ++ t) ≡ some (a ++ t)
unfolding strip
strip_longer [] s t a e = cc
strip_longer (x ∷ d) [] t a e = cc
strip_longer (x ∷ d) (c ∷ s) t a e = grind (arith, strip_longer d s t a)

some_ne_none {ℓ} : {A : Type ℓ} {a : A} → some a ≡ none → ⊥
some_ne_none e = cc

-- The two ways of finding nothing, and of finding something.
find_here : (d s a : List ℕ) → strip d s ≡ some a → find d s ≡ some ([], a)
unfolding find
find_here d [] a e = rw (e, find)
find_here d (c ∷ s) a e = rw (e, find)

find_later :
    (d : List ℕ) (c : ℕ) (s : List ℕ)
    → strip d (c ∷ s) ≡ none
    → find d (c ∷ s) ≡ elim (find d s) [ none ↦ none | some (b, a) ↦ some (c ∷ b, a) ]
unfolding find
find_later d c s e = rw (e, find)

module _ (x : ℕ) (d : List ℕ) where
  -- What is found cuts the string in two around the delimiter, and the part before it has none of it.
  abbrev Cut : List ℕ → Option (List ℕ × List ℕ) → Type 0
  Cut s none = Unit {0}
  Cut s (some (b, a)) = (s ≡ b ++ ((x ∷ d) ++ a)) × (find (x ∷ d) b ≡ none)

  find_nothing : find (x ∷ d) [] ≡ none
  unfolding find strip
  find_nothing = refl

  -- The part before an occurrence, one character longer, still has none.
  none_before :
      (c : ℕ) (s b a : List ℕ)
      → strip (x ∷ d) (c ∷ s) ≡ none
      → s ≡ b ++ ((x ∷ d) ++ a)
      → find (x ∷ d) b ≡ none
      → find (x ∷ d) (c ∷ b) ≡ none
  none_before c s b a n e h = elim (Option-cases (strip (x ∷ d) (c ∷ b))) [
    | inl m ↦ find_later (x ∷ d) c b m ∙ rw h refl
    | inr (r, m) ↦
        let more = strip_longer (x ∷ d) (c ∷ b) ((x ∷ d) ++ a) r m in
        absurd (some_ne_none (sym more ∙ ap (λ t. strip (x ∷ d) (c ∷ t)) (sym e) ∙ n))
  ]

  found_later :
      (c : ℕ) (s : List ℕ) (o : Option (List ℕ × List ℕ))
      → strip (x ∷ d) (c ∷ s) ≡ none
      → Cut s o
      → Cut (c ∷ s) (elim o [ none ↦ none | some (b, a) ↦ some (c ∷ b, a) ])
  found_later c s none n h = tt
  found_later c s (some (b, a)) n (e, h) = (ap (λ t. c ∷ t) e, none_before c s b a n e h)

  found : (s : List ℕ) → Cut s (find (x ∷ d) s)
  found [] = rw find_nothing tt
  found (c ∷ s) = elim (Option-cases (strip (x ∷ d) (c ∷ s))) [
    | inl n ↦ rw (find_later (x ∷ d) c s n) (found_later c s (find (x ∷ d) s) n (found s))
    | inr (a, e) ↦
        rw (find_here (x ∷ d) (c ∷ s) a e) (strip-append (x ∷ d) (c ∷ s) a e, find_nothing)
  ]

  -- Each piece but the last ends before an occurrence, and no piece has one.
  Pieces : List ℕ → List (List ℕ) → Type 0
  Pieces s ps = (join (x ∷ d) ps ≡ s) × All (λ p. find (x ∷ d) p ≡ none) ps × (0 < length ps)

  one_more :
      (before behind s : List ℕ) (ps : List (List ℕ))
      → Cut s (some (before, behind))
      → Pieces behind ps
      → Pieces s (before ∷ ps)
  unfolding Pieces
  one_more before behind s [] h (e, a, p) = absurd (omega arith)
  one_more before behind s (p ∷ ps) (c, n) (e, a, q) =
      (ap (λ t. before ++ ((x ∷ d) ++ t)) e ∙ sym c, (n, a), omega arith)

  shorter :
      (fuel : ℕ) (before behind s : List ℕ)
      → Cut s (some (before, behind))
      → length s ≤ suc fuel
      → length behind ≤ fuel
  shorter fuel before behind s (e, n) le =
      omega
        (arith, ap length e, length-append before ((x ∷ d) ++ behind), length-append (x ∷ d) behind)

  split_from-Pieces :
      (fuel : ℕ) (s : List ℕ) → length s ≤ fuel → Pieces s (split_from fuel (x ∷ d) s)
  unfolding Pieces split_from
  split_from-Pieces zero [] le = (refl, (find_nothing, tt), omega arith)
  split_from-Pieces zero (c ∷ s) le = absurd (omega arith)
  split_from-Pieces (suc fuel) s le = elim (Option-cases (find (x ∷ d) s)) [
    | inl n ↦ rw (n, split_from) (refl, (n, tt), omega arith)
    | inr ((before, behind), e) ↦
        let cut = subst (Cut s) e (found s) in
        rw (e, split_from)
          (one_more before behind s _ cut
            (split_from-Pieces fuel behind (shorter fuel before behind s cut le)))
  ]

-- The pieces of a string, joined by the delimiter, are the string again, and no piece has the delimiter
-- in it, when the delimiter is not empty.
pub join-split :
    (s : List ℕ) (x : ℕ) (d : List ℕ)
    → (join (x ∷ d) (split s (x ∷ d)) ≡ s) × All (λ p. find (x ∷ d) p ≡ none) (split s (x ∷ d))
unfolding split Pieces
join-split s x d = let (e, a, p) = split_from-Pieces x d (length s) s (omega arith) in (e, a)
