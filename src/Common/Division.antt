-- ===== src/Common/Division.antt =====
-- Remainders by a product, as the remainders of its factors.
use Prim.Native.Nat.{ℕ, ◌+◌, ◌*◌, ◌/◌, ◌%◌, ◌<◌}
use mathlib.Core.Path.{◌≡◌, ap, sym, ◌∙◌}
use native.Mathlib.Nat.{mod-add-div', add-mul-mod_self_right, mod-eq_of_lt, mod-lt}
use native.Mathlib.Omega.{arith}

-- The number with quotient `q` and remainder `r`.
pub mod-eq_of_form : (q r d n : ℕ) → n ≡ r + q * d → r < d → n % d ≡ r
mod-eq_of_form q r d n e h = ap (λ (t : ℕ). t % d) e ∙ add-mul-mod_self_right r q d ∙ mod-eq_of_lt h

pub digit_lt : (a r p m : ℕ) → a < p → r < m → a * m + r < p * m
digit_lt a r p m h k = grind arith

pub mod-mul : (n p m : ℕ) → 0 < p → 0 < m → n % (p * m) ≡ n / m % p * m + n % m
mod-mul n p m hp hm =
    mod-eq_of_form (n / m / p) (n / m % p * m + n % m) (p * m) n
      (omega (arith, sym (mod-add-div' n m), ap (λ (t : ℕ). t * m) (mod-add-div' (n / m) p)))
      (digit_lt (n / m % p) (n % m) p m (mod-lt (n / m) hp) (mod-lt n hm))
