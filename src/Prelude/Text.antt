-- ===== src/Prelude/Text.antt =====
-- A text of the source as its bytes: all of them are ASCII.
use Prim.Native.Char.{code}
use Prim.Native.String.{String}
use zenextras.Prelude.{ℕ, List, [], ◌∷◌}

abbrev pub codes : String → List ℕ
codes String.[] = []
codes (String.◌∷◌ first rest) = code first ∷ codes rest
