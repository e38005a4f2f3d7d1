-- ===== src/Base/Texts.antt =====
-- The characters of a text literal, as numbers.
use Prim.Native.Nat.{ℕ}
use Prim.Native.Char.{code}
use Prim.Native.String.{String}
use mathlib.Core.List.{List, [], ◌∷◌}

abbrev pub chars_of : String → List ℕ
chars_of String.[] = []
chars_of (String.◌∷◌ c s) = code c ∷ chars_of s
