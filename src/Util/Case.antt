-- ===== src/Util/Case.antt =====
-- src/util.cpp: to_lower and to_upper, in the locale that the environment names.
use mod_gate.Base.{ℕ, Option, none, some, Bytes, map}

-- The facets of a locale on single characters.
pub record Locale : Type 0 where
  pub tolower : ℕ → ℕ
  pub toupper : ℕ → ℕ

-- The argument is `locale("")`, and `none` its exception if the environment names no locale.
unfoldable pub to_lower : Option Locale → Bytes → Option Bytes
to_lower none x = none
to_lower (some l) x = some (map l.tolower x)

unfoldable pub to_upper : Option Locale → Bytes → Option Bytes
to_upper none x = none
to_upper (some l) x = some (map l.toupper x)
