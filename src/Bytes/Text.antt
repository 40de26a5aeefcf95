-- ===== src/Bytes/Text.antt =====
-- Go strings: the bytes of a literal (ASCII here).
use Prim.Native.Char.{code}
use Prim.Native.String.{String}
use monetarium_stratum.Prelude.{[], ◌∷◌}
use monetarium_stratum.Bytes.Slice.{Bytes}

abbrev pub codes : String → Bytes
codes String.[] = []
codes (String.◌∷◌ c s) = code c ∷ codes s
