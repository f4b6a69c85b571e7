-- ===== src/Examples/Text.antt =====
-- ASCII text as bytes.
use Prim.Native.Char.{code}
use Prim.Native.String.{String}
use inter_container_messagin.Base.{Bytes, [], ◌∷◌}

abbrev pub codes : String → Bytes
codes String.[] = []
codes (String.◌∷◌ c s) = code c ∷ codes s
