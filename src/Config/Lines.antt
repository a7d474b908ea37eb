-- ===== src/Config/Lines.antt =====
-- The parser of the configuration file, on files of sections and values.
use sniffdogsniff.Shared.{
  ℕ, zero, suc, ◌+◌, ◌≤◌, ◌<◌, ◌≡◌, refl, ap, ◌∙◌, true, false, none, some, List, [], ◌∷◌, ◌++◌,
  length, length-append, All, All-append, arith, ◌==◌,
}
use sniffdogsniff.Config.{
  ConfigFile, parsed, push_value, push_section, is_blank, is_space, skip_blanks, clear_last,
  strlrtrim, split_at_char, up_to, section_name, parse_section, parse_pair, parse_trimmed,
  parse_uncommented, parse_line, fgets, parse_lines, parse,
}

-- A character that the parser gives no meaning: above `#`, and not `=`, `[` or `]`.
abbrev pub IsPlain : ℕ → Type 0
IsPlain c = (35 < c) × ((c == 61) ≡ false) × ((c == 91) ≡ false) × ((c == 93) ≡ false)

-- Not empty, and shorter than 250.
abbrev pub IsWord : List ℕ → Type 0
IsWord s = (0 < length s) × (length s < 250) × All IsPlain s

pub data Line : Type 0 where
  header : List ℕ → Line
  pair : List ℕ → List ℕ → Line

abbrev pub IsLine : Line → Type 0
IsLine (header name) = IsWord name
IsLine (pair k v) = IsWord k × IsWord v

-- The line without its newline.
abbrev pub body : Line → List ℕ
body (header name) = 91 ∷ (name ++ (93 ∷ []))
body (pair k v) = k ++ (61 ∷ v)

unfoldable pub print : List Line → List ℕ
print [] = []
print (l ∷ ls) = (body l ++ (10 ∷ [])) ++ print ls

abbrev pub apply : Line → ConfigFile → ConfigFile
apply (header name) c = push_section name c
apply (pair k v) c = push_value k v c

unfoldable pub apply_all : List Line → ConfigFile → ConfigFile
apply_all [] c = c
apply_all (l ∷ ls) c = apply_all ls (apply l c)

split_absent : (c : ℕ) (s : List ℕ) → All (λ d. (d == c) ≡ false) s → split_at_char c s ≡ none
unfolding split_at_char
split_absent c [] h = refl
split_absent c (d ∷ s) (e, h) = rw (e, split_absent c s h) refl

split_first :
    (c : ℕ) (l r : List ℕ)
    → All (λ d. (d == c) ≡ false) l
    → split_at_char c (l ++ (c ∷ r)) ≡ some (l, r)
unfolding split_at_char
split_first c [] r h = let same : (c == c) ≡ true = ground arith in rw same refl
split_first c (d ∷ l) r (e, h) = rw (e, split_first c l r h) refl

up_to_absent : (c : ℕ) (s : List ℕ) → All (λ d. (d == c) ≡ false) s → up_to c s ≡ s
unfolding up_to
up_to_absent c s h = rw (split_absent c s h, up_to) refl

clear_last_plain : (s : List ℕ) → All IsPlain s → clear_last s ≡ s
unfolding clear_last
clear_last_plain [] h = refl
clear_last_plain (c ∷ []) (p, h) = let solid : is_space c ≡ false = ground arith in rw solid refl
clear_last_plain (c ∷ d ∷ s) (p, h) = ap (λ t. c ∷ t) (clear_last_plain (d ∷ s) h)

clear_last_newline : (s : List ℕ) → clear_last (s ++ (10 ∷ [])) ≡ s
unfolding clear_last
clear_last_newline [] = refl
clear_last_newline (c ∷ []) = refl
clear_last_newline (c ∷ d ∷ s) = ap (λ t. c ∷ t) (clear_last_newline (d ∷ s))

strlrtrim_plain : (s : List ℕ) → All IsPlain s → strlrtrim s ≡ s
unfolding strlrtrim skip_blanks
strlrtrim_plain [] h = clear_last_plain [] h
strlrtrim_plain (c ∷ []) h = clear_last_plain (c ∷ []) h
strlrtrim_plain (c ∷ d ∷ s) (p, h) =
    let solid : is_blank c ≡ false = ground arith in rw solid (clear_last_plain (c ∷ d ∷ s) (p, h))

-- A plain string has no special character.
without :
    (c : ℕ)
    → ((d : ℕ) → IsPlain d → (d == c) ≡ false)
    → (s : List ℕ) → All IsPlain s
    → All (λ d. (d == c) ≡ false) s
without c f [] h = tt
without c f (d ∷ s) (p, h) = (f d p, without c f s h)

pub fgets_line :
    (room : ℕ) (s rest : List ℕ)
    → All (λ d. (d == 10) ≡ false) s
    → length s < room
    → fgets room ((s ++ (10 ∷ [])) ++ rest) ≡ (s ++ (10 ∷ []), rest)
unfolding fgets
fgets_line zero s rest h lt = absurd (omega arith)
fgets_line (suc room) [] rest h lt = refl
fgets_line (suc room) (c ∷ s) rest (e, h) lt = rw (e, fgets_line room s rest h (omega arith)) refl

-- What `body` writes has none of the characters below, nor `#`.
body_without :
    (c : ℕ)
    → ((d : ℕ) → IsPlain d → (d == c) ≡ false)
    → (61 == c) ≡ false
    → (91 == c) ≡ false
    → (93 == c) ≡ false
    → (l : Line) → IsLine l
    → All (λ d. (d == c) ≡ false) (body l)
body_without c f e g k (header name) h =
    (g, All-append (λ d. (d == c) ≡ false) name (93 ∷ []) (without c f name h.2) (k, tt))
body_without c f e g k (pair x v) h =
    All-append (λ d. (d == c) ≡ false) x (61 ∷ v) (without c f x h.0.2) (e, without c f v h.1.2)

parse_pair_words :
    (x : ℕ) (k : List ℕ) (y : ℕ) (v : List ℕ) (c : ConfigFile)
    → All IsPlain (x ∷ k)
    → All IsPlain (y ∷ v)
    → parse_pair (x ∷ k) (y ∷ v) c ≡ parsed (push_value (x ∷ k) (y ∷ v) c)
unfolding parse_pair
parse_pair_words x k y v c h g =
    rw (strlrtrim_plain (x ∷ k) h, strlrtrim_plain (y ∷ v) g, parse_pair) refl

parse_trimmed_pair :
    (k v : List ℕ) (c : ConfigFile)
    → IsWord k
    → IsWord v
    → parse_trimmed (k ++ (61 ∷ v)) c ≡ parsed (push_value k v c)
unfolding parse_trimmed
parse_trimmed_pair [] v c h g = absurd (omega arith)
parse_trimmed_pair (x ∷ k) [] c h g = absurd (omega arith)
parse_trimmed_pair (x ∷ k) (y ∷ v) c h g =
    rw (no_header, equals, parse_trimmed) (parse_pair_words x k y v c h.2 g.2)
  where
    no_header : split_at_char 91 ((x ∷ k) ++ (61 ∷ y ∷ v)) ≡ none
    no_header = split_absent 91 ((x ∷ k) ++ (61 ∷ y ∷ v)) (
        All-append (λ d. (d == 91) ≡ false) (x ∷ k) (61 ∷ y ∷ v)
          (without 91 (λ d p. p.2) (x ∷ k) h.2) (refl, without 91 (λ d p. p.2) (y ∷ v) g.2))

    equals : split_at_char 61 ((x ∷ k) ++ (61 ∷ y ∷ v)) ≡ some (x ∷ k, y ∷ v)
    equals = split_first 61 (x ∷ k) (y ∷ v) (without 61 (λ d p. p.1) (x ∷ k) h.2)

section_name_plain : (s : List ℕ) → All IsPlain s → section_name [] (s ++ (93 ∷ [])) ≡ s
unfolding section_name split_at_char up_to
section_name_plain s h = rw (split_first 93 s [] (without 93 (λ d p. p.3) s h), up_to) refl

parse_trimmed_header :
    (name : List ℕ) (c : ConfigFile)
    → IsWord name
    → parse_trimmed (91 ∷ (name ++ (93 ∷ []))) c ≡ parsed (push_section name c)
unfolding parse_trimmed parse_section section_name
parse_trimmed_header [] c h = absurd (omega arith)
parse_trimmed_header (x ∷ name) c h = rw (opened, closed, parse_trimmed, named, parse_section) refl
  where
    opened : split_at_char 91 (91 ∷ ((x ∷ name) ++ (93 ∷ []))) ≡ some ([], (x ∷ name) ++ (93 ∷ []))
    opened = split_first 91 [] ((x ∷ name) ++ (93 ∷ [])) tt

    closed : split_at_char 93 (91 ∷ ((x ∷ name) ++ (93 ∷ []))) ≡ some (91 ∷ x ∷ name, [])
    closed = split_first 93 (91 ∷ x ∷ name) [] (refl, without 93 (λ d p. p.3) (x ∷ name) h.2)

    named : section_name [] ((x ∷ name) ++ (93 ∷ [])) ≡ x ∷ name
    named = section_name_plain (x ∷ name) h.2

parse_trimmed-body :
    (l : Line) (c : ConfigFile) → IsLine l → parse_trimmed (body l) c ≡ parsed (apply l c)
parse_trimmed-body (header name) c h = parse_trimmed_header name c h
parse_trimmed-body (pair k v) c h = parse_trimmed_pair k v c h.0 h.1

parse_uncommented_newline :
    (s : List ℕ) (c : ConfigFile) → parse_uncommented (s ++ (10 ∷ [])) c ≡ parse_trimmed s c
unfolding parse_uncommented clear_last
parse_uncommented_newline [] c = refl
parse_uncommented_newline (x ∷ s) c = ap (λ t. parse_trimmed t c) (clear_last_newline (x ∷ s))

parse_line-body :
    (l : Line) (c : ConfigFile) → IsLine l → parse_line (body l ++ (10 ∷ [])) c ≡ parsed (apply l c)
unfolding parse_line
parse_line-body l c h =
    ap (λ t. parse_uncommented (up_to 35 t) c)
      (up_to_absent 0 (body l ++ (10 ∷ [])) (
        All-append (λ d. (d == 0) ≡ false) (body l) (10 ∷ [])
          (body_without 0 (λ d p. ground arith) refl refl refl l h) (refl, tt)))
    ∙ ap (λ t. parse_uncommented t c)
        (up_to_absent 35 (body l ++ (10 ∷ [])) (
          All-append (λ d. (d == 35) ≡ false) (body l) (10 ∷ [])
            (body_without 35 (λ d p. ground arith) refl refl refl l h) (refl, tt)))
    ∙ parse_uncommented_newline (body l) c
    ∙ parse_trimmed-body l c h

length-body : (l : Line) → IsLine l → length (body l) < 511
length-body (header name) h = omega (arith, length-append name (93 ∷ []))
length-body (pair k v) h = omega (arith, length-append k (61 ∷ v))

parse_step :
    (fuel : ℕ) (file line rest : List ℕ) (c c' : ConfigFile)
    → 0 < length file
    → fgets 511 file ≡ (line, rest)
    → parse_line line c ≡ parsed c'
    → parse_lines (suc fuel) file c ≡ parse_lines fuel rest c'
unfolding parse_lines
parse_step fuel [] line rest c c' pos e h = absurd (omega arith)
parse_step fuel (x ∷ file) line rest c c' pos e h =
    let read : parse_line (fgets 511 (x ∷ file)).0 c ≡ parsed c' =
      ap (λ r. parse_line r.0 c) e ∙ h in
    rw (read, parse_lines) (ap (λ r. parse_lines fuel r.1 c') e)

printed_length :
    (l : Line) (ls : List Line) → length (print (l ∷ ls)) ≡ length (body l) + 1 + length (print ls)
unfolding print
printed_length l ls =
    omega (arith, length-append (body l ++ (10 ∷ [])) (print ls), length-append (body l) (10 ∷ []))

parse_printed :
    (ls : List Line) (fuel : ℕ) (c : ConfigFile)
    → All IsLine ls
    → length (print ls) ≤ fuel
    → parse_lines fuel (print ls) c ≡ parsed (apply_all ls c)
unfolding print apply_all parse_lines
parse_printed [] zero c h le = refl
parse_printed [] (suc fuel) c h le = refl
parse_printed (l ∷ ls) zero c (h, hs) le = absurd (omega (arith, printed_length l ls))
parse_printed (l ∷ ls) (suc fuel) c (h, hs) le =
    parse_step fuel (print (l ∷ ls)) (body l ++ (10 ∷ [])) (print ls) c (apply l c)
      (omega (arith, printed_length l ls))
      (fgets_line 511 (body l) (print ls) (body_without 10 (λ d p. ground arith) refl refl refl l h)
        (length-body l h))
      (parse_line-body l c h)
    ∙ parse_printed ls fuel (apply l c) hs (omega (arith, printed_length l ls))

-- A file of headers and pairs, each on a line of its own and made of plain words shorter than 250
-- bytes, is parsed line by line.
pub parse-apply_all :
    (ls : List Line) (c : ConfigFile) → All IsLine ls → parse (print ls) c ≡ parsed (apply_all ls c)
unfolding parse
parse-apply_all ls c h = parse_printed ls (length (print ls)) c h (omega arith)
