-- ===== src/Config.antt =====
-- sds_core/sdsconfigfile.h and sdsconfigfile.cpp. Texts are lists of bytes; a file is the list of the
-- bytes that `fgets` reads, and opening it succeeds.
pub mod Lookup
pub mod Lines
pub mod Listed
pub mod Ends
use sniffdogsniff.Shared.{
  ℕ, zero, suc, ◌+◌, ◌-◌, Bool, true, false, ◌||◌, ◌&&◌, Option, none, some, List, [], ◌∷◌, ◌++◌,
  length, take, drop,
}
use sniffdogsniff.Shared.{ltb, ◌==◌, if◌then◌else◌}
use sniffdogsniff.Shared.Bytes.{bytes_eq}

pub record Section : Type 0 where
  pub name : List ℕ
  pub values_list : List (List ℕ × List ℕ)

pub record ConfigFile : Type 0 where
  pub default_section : Section
  pub sections : List Section

unfoldable pub new_section : List ℕ → Section
new_section name = record { name = name; values_list = [] }

-- The bytes of "default".
unfoldable pub new_config : ConfigFile
new_config = record {
  default_section = new_section (100 ∷ 101 ∷ 102 ∷ 97 ∷ 117 ∷ 108 ∷ 116 ∷ []);
  sections = [];
}

unfoldable pub first_value : List ℕ → List (List ℕ × List ℕ) → Option (List ℕ)
first_value key [] = none
first_value key ((k, v) ∷ vs) = if bytes_eq k key then some v else first_value key vs

-- `none` where `false` is returned.
unfoldable pub lookup_value : List ℕ → Section → Option (List ℕ)
lookup_value key s = first_value key s.values_list

unfoldable pub has_value : List ℕ → Section → Bool
has_value key s = elim (lookup_value key s) [ none ↦ false | some v ↦ true ]

unfoldable pub lookup_string : List ℕ → List ℕ → Section → List ℕ
lookup_string key default s = elim (lookup_value key s) [ none ↦ default | some v ↦ v ]

unfoldable pub all_values : List ℕ → List (List ℕ × List ℕ) → List (List ℕ)
all_values key [] = []
all_values key ((k, v) ∷ vs) = if bytes_eq k key then v ∷ all_values key vs else all_values key vs

-- What is appended to the list of the caller.
unfoldable pub lookup_strings : List ℕ → Section → List (List ℕ) → List (List ℕ)
lookup_strings key s list = list ++ all_values key s.values_list

-- The bytes of "true" and "yes".
unfoldable pub lookup_bool : List ℕ → Bool → Section → Bool
lookup_bool key default s = elim (lookup_value key s) [
  | none ↦ default
  | some v ↦ bytes_eq v (116 ∷ 114 ∷ 117 ∷ 101 ∷ []) || bytes_eq v (121 ∷ 101 ∷ 115 ∷ [])
]

unfoldable pub first_section : List ℕ → List Section → Option Section
first_section name [] = none
first_section name (s ∷ ss) = if bytes_eq s.name name then some s else first_section name ss

unfoldable pub lookup_section : List ℕ → ConfigFile → Option Section
lookup_section name c = first_section name c.sections

unfoldable pub has_section : List ℕ → ConfigFile → Bool
has_section name c = elim (lookup_section name c) [ none ↦ false | some s ↦ true ]

unfoldable pub all_sections : List ℕ → List Section → List Section
all_sections name [] = []
all_sections name (s ∷ ss) =
    if bytes_eq s.name name then s ∷ all_sections name ss else all_sections name ss

unfoldable pub lookup_sections : List ℕ → ConfigFile → List Section → List Section
lookup_sections name c list = list ++ all_sections name c.sections

-- `' '` and `'\t'`.
abbrev pub is_blank : ℕ → Bool
is_blank c = c == 32 || c == 9

-- `' '`, `'\n'` and `'\t'`.
abbrev pub is_space : ℕ → Bool
is_space c = c == 32 || (c == 10 || c == 9)

-- `for (; s < sep && (*s == ' ' || *s == '\t'); s++)`: the last character is never passed.
unfoldable pub skip_blanks : List ℕ → List ℕ
skip_blanks [] = []
skip_blanks (c ∷ []) = c ∷ []
skip_blanks (c ∷ d ∷ s) = if is_blank c then skip_blanks (d ∷ s) else c ∷ d ∷ s

-- `while (*sep ...) *sep = '\0'`: `sep` stays on the last character, so the loop clears one at most.
unfoldable pub clear_last : List ℕ → List ℕ
clear_last [] = []
clear_last (c ∷ []) = if is_space c then [] else c ∷ []
clear_last (c ∷ d ∷ s) = c ∷ clear_last (d ∷ s)

-- The string at the pointer that `strlrtrim` returns.
unfoldable pub strlrtrim : List ℕ → List ℕ
strlrtrim s = clear_last (skip_blanks s)

-- The bytes before the first `c`, and those behind it: `strchr`.
unfoldable pub split_at_char : ℕ → List ℕ → Option (List ℕ × List ℕ)
split_at_char c [] = none
split_at_char c (d ∷ s) =
    let rest = split_at_char c s in
    if d == c then some ([], s) else elim rest [ none ↦ none | some (l, r) ↦ some (d ∷ l, r) ]

-- The string up to the first `c`, which is overwritten with 0.
unfoldable pub up_to : ℕ → List ℕ → List ℕ
up_to c s = elim (split_at_char c s) [ none ↦ s | some (l, r) ↦ l ]

-- The exceptions that `parse` throws, without the line number of their text, and `fault`: an access
-- before the start of `buf`.
pub data Parsed : Type 0 where
  parsed : ConfigFile → Parsed
  invalid_section : Parsed
  invalid_syntax : Parsed
  empty_value : Parsed
  fault : Parsed
  out_of_fuel : Parsed

unfoldable pub append_last : List ℕ → List ℕ → Section → List Section → Section × List Section
append_last k v s [] = (record s { values_list = s.values_list ++ ((k, v) ∷ []) }, [])
append_last k v s (t ∷ ts) = let r = append_last k v t ts in (s, r.0 ∷ r.1)

-- `section->valuesList.push_back(...)`: `section` is the last one that was begun, or the default.
unfoldable pub push_value : List ℕ → List ℕ → ConfigFile → ConfigFile
push_value k v c =
    let r = append_last k v c.default_section c.sections in
    record { default_section = r.0; sections = r.1 }

unfoldable pub push_section : List ℕ → ConfigFile → ConfigFile
push_section name c = record c { sections = c.sections ++ (new_section name ∷ []) }

-- The string behind `keyp`, when the first `]`, at `valuep`, has been overwritten with 0; `before` is
-- what stands before the `[`.
unfoldable pub section_name : List ℕ → List ℕ → List ℕ
section_name before behind = elim (split_at_char 93 before) [
  | none ↦ up_to 93 behind
  | some p ↦ behind
]

unfoldable pub parse_section : List ℕ → List ℕ → ConfigFile → Parsed
parse_section before behind c = elim (section_name before behind) [
  | [] ↦ invalid_section
  | n ∷ ns ↦ parsed (push_section (n ∷ ns) c)
]

-- The key and the value around the first `=`. Of an empty key `strlrtrim` reads the byte before `buf`.
unfoldable pub parse_pair : List ℕ → List ℕ → ConfigFile → Parsed
parse_pair [] valuep c = fault
parse_pair (x ∷ keyp) valuep c = elim (strlrtrim (x ∷ keyp)) [
  | [] ↦ invalid_syntax
  | k ∷ ks ↦ elim (strlrtrim valuep) [
    | [] ↦ empty_value
    | v ∷ vs ↦ parsed (push_value (k ∷ ks) (v ∷ vs) c)
  ]
]

-- `buf` after its last character was trimmed.
unfoldable pub parse_trimmed : List ℕ → ConfigFile → Parsed
parse_trimmed [] c = parsed c
parse_trimmed (x ∷ buf) c = elim (split_at_char 91 (x ∷ buf)) [
  | some (before, behind) ↦ elim (split_at_char 93 (x ∷ buf)) [
    | some p ↦ parse_section before behind c
    | none ↦ elim (split_at_char 61 (x ∷ buf)) [
      | none ↦ invalid_syntax
      | some (k, v) ↦ parse_pair k v c
    ]
  ]
  | none ↦ elim (split_at_char 61 (x ∷ buf)) [
    | none ↦ invalid_syntax
    | some (k, v) ↦ parse_pair k v c
  ]
]

-- One round of the loop, on what `fgets` has read, without a comment. Of an empty string `strlrtrim`
-- reads the byte before `buf`.
unfoldable pub parse_uncommented : List ℕ → ConfigFile → Parsed
parse_uncommented [] c = fault
parse_uncommented (x ∷ buf) c = parse_trimmed (clear_last (x ∷ buf)) c

-- A 0 in the file ends the string in `buf`.
unfoldable pub parse_line : List ℕ → ConfigFile → Parsed
parse_line line c = parse_uncommented (up_to 35 (up_to 0 line)) c

-- `fgets`: up to `room` bytes, the last of them a newline if there is one among them.
unfoldable pub fgets : ℕ → List ℕ → List ℕ × List ℕ
fgets zero file = ([], file)
fgets (suc room) [] = ([], [])
fgets (suc room) (c ∷ file) =
    let r = fgets room file in if c == 10 then (c ∷ [], file) else (c ∷ r.0, r.1)

-- The loop; `buf` has 512 bytes.
unfoldable pub parse_lines : ℕ → List ℕ → ConfigFile → Parsed
parse_lines zero [] c = parsed c
parse_lines zero (x ∷ file) c = out_of_fuel
parse_lines (suc fuel) [] c = parsed c
parse_lines (suc fuel) (x ∷ file) c =
    let r = fgets 511 (x ∷ file) in
    elim (parse_line r.0 c) [
      | parsed c' ↦ parse_lines fuel r.1 c'
      | invalid_section ↦ invalid_section
      | invalid_syntax ↦ invalid_syntax
      | empty_value ↦ empty_value
      | fault ↦ fault
      | out_of_fuel ↦ out_of_fuel
    ]

unfoldable pub parse : List ℕ → ConfigFile → Parsed
parse file c = parse_lines (length file) file c
