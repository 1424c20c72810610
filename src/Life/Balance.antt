-- ===== src/Life/Balance.antt =====
-- The global pool of src/apr.cpp while calls of `init` and `destroy` are balanced.
use mod_gate.Base.{ℕ, suc, ◌+◌, ◌^◌, ◌<◌, ◌≡◌, refl, ◌==◌, if◌then◌else◌, arith}
use mod_gate.Life.{Life, fresh, init, destroy}

-- The state is reached by calls of `init`, of which `n` have not been undone by a `destroy`; there are
-- never as many as 2^32 of them, and no `destroy` comes without its `init`.
pub data Reached : Life → ℕ → Type 0 where
  start : Reached fresh 0
  after_init : (s : Life) (n : ℕ) → Reached s n → n + 1 < 2 ^ 32 → Reached (init s) (suc n)
  after_destroy : (s : Life) (n : ℕ) → Reached s (suc n) → Reached (destroy s) n

-- The pool is there exactly while a reference is.
abbrev pub Pooled : Life → ℕ → Type 0
Pooled s n = (s.refcount ≡ n) × (n < 2 ^ 32) × (s.open_pools ≡ (if n == 0 then 0 else 1))

-- While calls of `init` and `destroy` are balanced and fewer than 2^32 are open, the count is the
-- number of those that are open, and there is one global pool if there is any and none otherwise.
pub Reached-Pooled : (s : Life) (n : ℕ) → Reached s n → Pooled s n
unfolding init destroy
Reached-Pooled _ _ start = (refl, omega arith, refl)
Reached-Pooled _ _ (after_init s n r lt) =
    let (c, b, p) = Reached-Pooled s n r in ground (arith, c, b, p)
Reached-Pooled _ _ (after_destroy s n r) =
    let (c, b, p) = Reached-Pooled s (suc n) r in ground (arith, c, b, p)
