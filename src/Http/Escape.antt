-- ===== src/Http/Escape.antt =====
-- The text of a value, unescaped.
use sniffdogsniff.Shared.{
  ℕ, ◌+◌, ◌/◌, ◌%◌, ◌<◌, ◌≡◌, refl, ap, ◌∙◌, Bool, true, false, ◌&&◌, ◌||◌, some, List, [], ◌∷◌,
  All, arith, ltb, ◌==◌, if◌then◌else◌, Bool-cases, inl, inr,
}
use sniffdogsniff.Kad.Id.{IsByte}
use sniffdogsniff.Http.{nibble, escaped, before, http_unescape}

-- The digit of a number below 16, in upper case.
abbrev pub digit : ℕ → ℕ
digit n = if ltb n 10 then 48 + n else 55 + n

-- Characters that stand for themselves.
abbrev pub is_plain : ℕ → Bool
is_plain c = if c == 43 then false else if c == 37 || c == 36 then false else true

-- A plain character as it is where `choose` says so, any other as a percent sign and two digits.
unfoldable pub escape_by : (ℕ → Bool) → List ℕ → List ℕ
escape_by choose [] = []
escape_by choose (c ∷ s) =
    if choose c && is_plain c
    then c ∷ escape_by choose s
    else 37 ∷ digit (c / 16) ∷ digit (c % 16) ∷ escape_by choose s

digit-nibble : (n : ℕ) → n < 16 → nibble (digit n) ≡ n
unfolding nibble
digit-nibble n lt = ground arith

escaped_digits : (c : ℕ) → c < 256 → escaped (digit (c / 16)) (digit (c % 16)) ≡ c
escaped_digits c lt =
    omega (arith, digit-nibble (c / 16) (omega arith), digit-nibble (c % 16) (omega arith))

unescape_plain :
    (c : ℕ) (s : List ℕ) → is_plain c ≡ true → http_unescape (c ∷ s) ≡ before c (http_unescape s)
unfolding http_unescape
unescape_plain c [] h = ground arith
unescape_plain c (d ∷ []) h = ground arith
unescape_plain c (d ∷ e ∷ s) h = ground arith

unescape_escaped :
    (hi lo : ℕ) (s : List ℕ)
    → http_unescape (37 ∷ hi ∷ lo ∷ s) ≡ before (escaped hi lo) (http_unescape s)
unfolding http_unescape
unescape_escaped hi lo s = refl

-- A text of bytes is unescaped to itself, whichever of its plain characters were escaped with the others.
pub http_unescape-escape_by :
    (choose : ℕ → Bool) (s : List ℕ) → All IsByte s → http_unescape (escape_by choose s) ≡ some s
unfolding escape_by http_unescape
http_unescape-escape_by choose [] h = refl
http_unescape-escape_by choose (c ∷ s) (b, h) = elim (Bool-cases (choose c && is_plain c)) [
  | inl e ↦ rw e (
      unescape_plain c (escape_by choose s) (ground arith)
      ∙ ap (before c) (http_unescape-escape_by choose s h))
  | inr e ↦ rw e (
      unescape_escaped (digit (c / 16)) (digit (c % 16)) (escape_by choose s)
      ∙ ap (before (escaped (digit (c / 16)) (digit (c % 16)))) (http_unescape-escape_by choose s h)
      ∙ ap (λ n. some (n ∷ s)) (escaped_digits c b))
]
