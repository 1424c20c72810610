-- ===== src/GateDb/Help.antt =====
-- The options of src/gatedb.cpp, and the help text.
use mod_gate.Base.{
  ℕ, zero, suc, ◌-◌, not, List, [], ◌∷◌, ◌++◌, map, Bytes, codes, ◌==◌, if◌then◌else◌, length,
}

pub record Opt : Type 0 where
  pub name : Bytes
  pub has_arg : ℕ
  pub val : ℕ
  pub description : Bytes

-- Up to the entry with no name.
abbrev pub opt_array : List Opt
opt_array =
    record { name = codes "create"; has_arg = 0; val = b'c'; description = codes "Create database" }
    ∷ record { name = codes "index"; has_arg = 0; val = b'i'; description = codes "Index database" }
    ∷ record { name = codes "lint"; has_arg = 0; val = b'l'; description = codes "Lint database" }
    ∷ record { name = codes "verbosity"; has_arg = 1; val = b'v'; description = codes "Verbosity" }
    ∷ record { name = codes "help"; has_arg = 0; val = b'h'; description = codes "Show help" }
    ∷ []

abbrev pub blanks : ℕ → Bytes
blanks zero = []
blanks (suc n) = b' ' ∷ blanks n

-- `%-…s`
abbrev pub pad : ℕ → Bytes → Bytes
pad width s = s ++ blanks (width - length s)

unfoldable pub long_opt : Opt → Bytes
long_opt i = codes "--" ++ (i.name ++ (codes "=<" ++ (i.name ++ codes ">")))

unfoldable pub help_line : Opt → Bytes
unfolding long_opt
help_line i =
    if not (i.has_arg == 0)
    then codes "   -" ++ (i.val ∷ (codes ", " ++ (pad 20 (long_opt i) ++ (b' ' ∷ i.description))))
    else codes "   -" ++ (i.val ∷ (codes ", --" ++ (pad 18 i.name ++ (b' ' ∷ i.description))))

-- The lines of `print_help`; the version and the architecture come from a generated header.
unfoldable pub print_help : Bytes → Bytes → List Bytes
unfolding help_line
print_help version arch =
    (codes "gatedb version " ++ (version ++ (codes " (" ++ (arch ++ codes ")"))))
    ∷ []
    ∷ codes "Usage: gatedb [options]"
    ∷ []
    ∷ codes "Available options:"
    ∷ []
    ∷ (map help_line opt_array ++ [] ∷ [])
