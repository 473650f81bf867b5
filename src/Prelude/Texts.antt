-- ===== src/Prelude/Texts.antt =====
-- Python's `str.endswith` on the native strings.
use Prim.Native.String.{String, [], ◌∷◌}
use mathlib.Core.Bool.{Bool, ◌||◌}
use newtaipei_appraisal_revi.Prelude.Keys.{◌==◌, string_eq}

unfoldable pub ends_with : String → String → Bool
ends_with [] t = [] == t
ends_with (c ∷ cs) t = c ∷ cs == t || ends_with cs t
