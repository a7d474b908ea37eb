-- ===== src/Config/Listed.antt =====
-- What the parser of the configuration file makes of a list of headers and pairs.
use sniffdogsniff.Shared.{ℕ, List, [], ◌∷◌, ◌++◌}
use sniffdogsniff.Config.{Section, ConfigFile}
use sniffdogsniff.Config.Lines.{Line, header, pair}

-- The pairs before the first header.
unfoldable pub leading : List Line → List (List ℕ × List ℕ)
leading [] = []
leading (header name ∷ ls) = []
leading (pair k v ∷ ls) = (k, v) ∷ leading ls

-- A section for each header, with the pairs up to the next one.
unfoldable pub blocks : List Line → List Section
blocks [] = []
blocks (header name ∷ ls) = record { name = name; values_list = leading ls } ∷ blocks ls
blocks (pair k v ∷ ls) = blocks ls

abbrev pub with_values : Section → List (List ℕ × List ℕ) → Section
with_values s vs = record s { values_list = s.values_list ++ vs }

unfoldable pub extend_last : List (List ℕ × List ℕ) → Section → List Section → List Section
extend_last vs s [] = with_values s vs ∷ []
extend_last vs s (t ∷ ts) = s ∷ extend_last vs t ts

-- The pairs before the first header belong to the last section that was there, or to the default one if
-- there was none; the sections of the file stand behind the others.
unfoldable pub listed : Section → List Section → List Line → ConfigFile
listed d [] ls = record { default_section = with_values d (leading ls); sections = blocks ls }
listed d (s ∷ ss) ls = record {
  default_section = d;
  sections = extend_last (leading ls) s ss ++ blocks ls;
}
