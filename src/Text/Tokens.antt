-- ===== src/Text/Tokens.antt =====
-- The tokens of a text are its runs of characters between the delimiters.
use sniffdogsniff.Shared.{
  ℕ, ◌<◌, ◌≡◌, refl, ap, ◌∙◌, false, Option, none, some, List, [], ◌∷◌, ◌++◌, append_assoc, length,
  length-append, All, All-append, arith, if◌then◌else◌, Bool-cases, inl, inr,
}
use sniffdogsniff.Text.{in_set, tokens_from, tokenize, trim_all, trim, to_lower}

-- The text without the delimiters.
unfoldable pub kept_chars : List ℕ → List ℕ → List ℕ
kept_chars set [] = []
kept_chars set (c ∷ s) = if in_set set c then kept_chars set s else c ∷ kept_chars set s

unfoldable pub concat : List (List ℕ) → List ℕ
concat [] = []
concat (t ∷ ts) = t ++ concat ts

abbrev pub pending : Option (List ℕ) → List ℕ
pending none = []
pending (some tok) = tok

-- A token has a character, and none of the delimiters.
abbrev pub IsToken : List ℕ → List ℕ → Type 0
IsToken set t = (0 < length t) × All (λ c. in_set set c ≡ false) t

abbrev Begun : List ℕ → Option (List ℕ) → Type 0
Begun set none = Unit {0}
Begun set (some tok) = IsToken set tok

tokens_from_lem :
    (set : List ℕ) (tok : Option (List ℕ)) (s : List ℕ)
    → Begun set tok
    → (concat (tokens_from set tok s) ≡ pending tok ++ kept_chars set s)
      × All (IsToken set) (tokens_from set tok s)
unfolding tokens_from concat kept_chars
tokens_from_lem set none [] h = (refl, tt)
tokens_from_lem set (some tok) [] h = (refl, (h, tt))
tokens_from_lem set none (c ∷ s) h = elim (Bool-cases (in_set set c)) [
  | inl e ↦ rw (e, tokens_from) (tokens_from_lem set none s tt)
  | inr e ↦ rw (e, tokens_from) (tokens_from_lem set (some (c ∷ [])) s (omega arith, (e, tt)))
]
tokens_from_lem set (some tok) (c ∷ s) h = elim (Bool-cases (in_set set c)) [
  | inl e ↦
      let (a, b) = tokens_from_lem set none s tt in
      rw (e, tokens_from, concat) (ap (λ t. tok ++ t) a, (h, b))
  | inr e ↦
      let (a, b) = tokens_from_lem set (some (tok ++ (c ∷ []))) s (
        omega (arith, length-append tok (c ∷ [])),
        All-append (λ d. in_set set d ≡ false) tok (c ∷ []) h.1 (e, tt),
      ) in
      rw (e, tokens_from) (a ∙ append_assoc tok (c ∷ []) (kept_chars set s), b)
]

trim_all_none : (ts : List (List ℕ)) → trim_all [] ts ≡ some ts
unfolding trim_all trim
trim_all_none [] = refl
trim_all_none (t ∷ ts) = rw (trim_all_none ts) refl

-- Without a set of characters to trim, `tokenize` gives tokens that are not empty, have no delimiter in
-- them, and make up the text in lower case less its delimiters.
pub tokenize_lem :
    (s set : List ℕ)
    → (ts : List (List ℕ)) × (tokenize s set [] ≡ some ts)
      × (concat ts ≡ kept_chars set (to_lower s))
      × All (IsToken set) ts
unfolding tokenize
tokenize_lem s set =
    let (a, b) = tokens_from_lem set none (to_lower s) tt in
    (tokens_from set none (to_lower s), trim_all_none _, a, b)
