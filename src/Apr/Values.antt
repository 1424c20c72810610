-- ===== src/Apr/Values.antt =====
-- The value that a list of options gives to a key.
use mod_gate.Apr.{or_else, last_value}
use mod_gate.Base.{
  List, [], ◌∷◌, ◌++◌, Option, none, some, ◌≡◌, refl, ap, ◌∙◌, Bytes, same_key, if◌then◌else◌,
}

or_else-none : (o : Option Bytes) → o ≡ or_else o none
or_else-none none = refl
or_else-none (some v) = refl

pub or_else_assoc : (a b c : Option Bytes) → or_else (or_else a b) c ≡ or_else a (or_else b c)
or_else_assoc none b c = refl
or_else_assoc (some v) b c = refl

pub last_value-append :
    (k : Bytes) (es fs : List (Bytes × Bytes))
    → last_value k (es ++ fs) ≡ or_else (last_value k fs) (last_value k es)
last_value-append k [] fs = or_else-none (last_value k fs)
last_value-append k ((j, v) ∷ es) fs =
    ap (λ o. or_else o (if same_key j k then some v else none)) (last_value-append k es fs)
    ∙ or_else_assoc (last_value k fs) (last_value k es) _
