-- ===== src/Base/Text.antt =====
-- Go's `range` over a text: its characters, by their code points.
use Prim.Native.Char.{code}
use Prim.Native.Nat.{ℕ}
use Prim.Native.String.{String}
use mathlib.Core.List.{List, [], ◌∷◌}

abbrev pub runes : String → List ℕ
runes String.[] = []
runes (String.◌∷◌ first rest) = code first ∷ runes rest
