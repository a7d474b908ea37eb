-- ===== src/Text.antt =====
-- common/stringutil.h and stringutil.cpp. Strings are lists of bytes; a set of characters is the C
-- string that lists them, for which `strchr` finds the terminating 0 as well. `none` is a read outside
-- a string.
pub mod Split
pub mod Trim
pub mod Tokens
pub mod Decimal
use sniffdogsniff.Shared.{
  ℕ, zero, suc, ◌+◌, Bool, true, false, ◌&&◌, ◌||◌, Option, none, some, List, [], ◌∷◌, ◌++◌, map,
  reverse, length,
}
use sniffdogsniff.Shared.{ltb, leb, ◌==◌, if◌then◌else◌}
use sniffdogsniff.Shared.Optional.{◌>>=◌}

-- What follows the prefix `d`.
unfoldable pub strip : List ℕ → List ℕ → Option (List ℕ)
strip [] s = some s
strip (x ∷ d) [] = none
strip (x ∷ d) (c ∷ s) = if x == c then strip d s else none

-- `std::string::find`: what stands before the first occurrence of `d`, and behind it.
unfoldable pub find : List ℕ → List ℕ → Option (List ℕ × List ℕ)
find d [] = elim (strip d []) [ none ↦ none | some a ↦ some ([], a) ]
find d (c ∷ s) = elim (strip d (c ∷ s)) [
  | some a ↦ some ([], a)
  | none ↦ elim (find d s) [ none ↦ none | some (b, a) ↦ some (c ∷ b, a) ]
]

-- A text as functions of C read it, up to its first 0.
unfoldable pub c_str : List ℕ → List ℕ
c_str [] = []
c_str (b ∷ bs) = let rest = c_str bs in if b == 0 then [] else b ∷ rest

abbrev pub contains : List ℕ → List ℕ → Bool
contains d s = elim (find d s) [ none ↦ false | some p ↦ true ]

-- The loop of `split` takes a delimiter of the string at least in each round, so that its length is
-- fuel enough; with an empty delimiter it never ends.
unfoldable pub split_from : ℕ → List ℕ → List ℕ → List (List ℕ)
split_from zero delim s = s ∷ []
split_from (suc fuel) delim s = elim (find delim s) [
  | none ↦ s ∷ []
  | some (before, behind) ↦ before ∷ split_from fuel delim behind
]

unfoldable pub split : List ℕ → List ℕ → List (List ℕ)
split s delim = split_from (length s) delim s

-- `strchr(set, c)` is not null.
unfoldable pub in_set : List ℕ → ℕ → Bool
in_set [] c = c == 0
in_set (d ∷ set) c = d == c || in_set set c

-- From the first character on that is not in the set.
unfoldable pub skip_set : List ℕ → List ℕ → List ℕ
skip_set set [] = []
skip_set set (c ∷ s) = let rest = skip_set set s in if in_set set c then rest else c ∷ s

-- The loop for `endpos` counts down past 0 when no character is outside the set: `none`.
unfoldable pub trim : List ℕ → List ℕ → Option (List ℕ)
trim target [] = some target
trim target (x ∷ cutset) = elim (skip_set (x ∷ cutset) target) [
  | [] ↦ none
  | c ∷ s ↦ some (reverse (skip_set (x ∷ cutset) (reverse (c ∷ s))))
]

unfoldable pub lower_char : ℕ → ℕ
lower_char c = if leb 65 c && leb c 90 then c + 32 else c

unfoldable pub to_lower : List ℕ → List ℕ
to_lower s = map lower_char s

-- The loops of `tokenize` on the lower-case string; `tok` is the token that is being read, none between
-- two tokens.
unfoldable pub tokens_from : List ℕ → Option (List ℕ) → List ℕ → List (List ℕ)
tokens_from set none [] = []
tokens_from set (some tok) [] = tok ∷ []
tokens_from set none (c ∷ s) =
    let skipped = tokens_from set none s in
    let begun = tokens_from set (some (c ∷ [])) s in if in_set set c then skipped else begun
tokens_from set (some tok) (c ∷ s) =
    let ended = tokens_from set none s in
    let longer = tokens_from set (some (tok ++ (c ∷ []))) s in
    if in_set set c then tok ∷ ended else longer

unfoldable pub trim_all : List ℕ → List (List ℕ) → Option (List (List ℕ))
trim_all cutset [] = some []
trim_all cutset (t ∷ ts) = do u ← trim t cutset; us ← trim_all cutset ts; some (u ∷ us)

unfoldable pub tokenize : List ℕ → List ℕ → List ℕ → Option (List (List ℕ))
tokenize str delimsset cutset = trim_all cutset (tokens_from delimsset none (to_lower str))
