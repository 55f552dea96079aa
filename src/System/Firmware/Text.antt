-- ===== src/System/Firmware/Text.antt =====
-- Hex texts as the source writes them: adjacent string literals are one string.
use Prim.Native.String.{String}
use sys.Base.{ℕ, List, [], ◌∷◌, ◌++◌}
use sys.Base.Text.{codes}

abbrev pub Hex : Type 0
Hex = List ℕ

abbrev pub hex : List String → Hex
hex [] = []
hex (line ∷ lines) = codes line ++ hex lines
