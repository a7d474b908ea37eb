-- ===== src/Shared/Codes.antt =====
-- Texts of the source as lists of bytes.
use Prim.Native.Nat.{ℕ}
use Prim.Native.Char.{code}
use Prim.Native.String.{String}
use mathlib.Core.List.{List, [], ◌∷◌, ◌++◌}

-- The bytes of a text.
abbrev pub codes : String → List ℕ
codes String.[] = []
codes (String.◌∷◌ c s) = code c ∷ codes s

-- Texts that are written one after the other.
unfoldable pub page : List String → List ℕ
page [] = []
page (s ∷ ss) = codes s ++ page ss
