-- ===== src/Base/Text.antt =====
-- Texts of the source as the bytes that C stores for them.
use Prim.Native.Nat.{ℕ}
use Prim.Native.Char.{code}
use Prim.Native.String.{String}
use mathlib.Core.List.{List, [], ◌∷◌}

-- The texts that the kernel writes are ASCII, so that a code point is a byte.
abbrev pub codes : String → List ℕ
codes String.[] = []
codes (String.◌∷◌ c s) = code c ∷ codes s
