-- ===== src/SpscRing/Slots.antt =====
-- Which slot a counter has, and the values that the slots hold from a counter on.
use mathlib.Core.Logic.{◌≢◌}
use Prim.Native.Nat.{◌∣◌}
use native.Mathlib.Nat.{
  pow-suc, one-le-pow, mod-mod_of_dvd, dvd_refl, dvd-mul_right_of_dvd, mod-lt, mod-eq_of_lt,
  mod-eq-sub-mod, add-mod,
}
use gamegine.Common.{
  ℕ, zero, suc, ◌+◌, ◌-◌, ◌%◌, ◌^◌, ◌≤◌, ◌<◌, List, [], ◌∷◌, ◌++◌, ◌≡◌, refl, sym, ap, ap₂, ◌∙◌,
  arith, length, get_or, set, get_or-set_self, get_or-set_ne, add64, dec_lt,
}
use gamegine.Common.Bits.{bit_and_mask}
use gamegine.SpscRing.Value.{slot}

two-pow-dvd : (k n : ℕ) → k ≤ n → 2 ^ k ∣ 2 ^ n
two-pow-dvd k zero h = let e : k ≡ zero = omega arith in rw e (dvd_refl (2 ^ zero))
two-pow-dvd k (suc n) h = elim (dec_lt n k) [
  | yes p ↦ let e : k ≡ suc n = omega arith in rw e (dvd_refl (2 ^ suc n))
  | no p ↦ rw (pow-suc 2 n) (dvd-mul_right_of_dvd (2 ^ k) (two-pow-dvd k n (omega arith)) 2)
]

-- The slot for a counter some way on is the same whether the counter wraps or not.
pub slot-add64 : (k t i : ℕ) → k < 64 → slot k (add64 t i) ≡ (t + i) % 2 ^ k
slot-add64 k t i h =
    bit_and_mask k (add64 t i)
    ∙ mod-mod_of_dvd (2 ^ k) {b = 2 ^ 64} (t + i) (two-pow-dvd k 64 (omega arith))

mod-ne_small : (c r d : ℕ) → 0 < d → d < c → r < c → (r + d) % c ≢ r
mod-ne_small c r d p h hr e = elim (dec_lt (r + d) c) [
  | yes below ↦ omega (arith, mod-eq_of_lt below)
  | no past ↦ omega (
    arith,
    mod-eq-sub-mod {n = r + d} {m = c} (omega arith),
    mod-eq_of_lt {n = r + d - c} {m = c} (omega arith),
  )
]

-- Fewer than `c` steps round do not come back to the start.
mod-ne : (c a d : ℕ) → 0 < d → d < c → (a + d) % c ≢ a % c
mod-ne c a d p h e =
    let small : d % c ≡ d = mod-eq_of_lt h in
    mod-ne_small c (a % c) d p h (mod-lt a (omega arith))
      (ap (λ (x : ℕ). (a % c + x) % c) (sym small) ∙ sym (add-mod a d c) ∙ e)

-- Two counters less than a lap apart have different slots.
pub slot-ne :
    (k t x j : ℕ) → k < 64 → x < j → j < x + 2 ^ k → slot k (add64 t j) ≢ slot k (add64 t x)
slot-ne k t x j hk lo hi e =
    mod-ne (2 ^ k) (t + x) (j - x) (omega arith) (omega arith) (
      ap (λ (n : ℕ). n % 2 ^ k) (omega arith) ∙ sym (slot-add64 k t j hk) ∙ e ∙ slot-add64 k t x hk)

pub slot-lt : (k c : ℕ) → slot k c < 2 ^ k
slot-lt k c = rw (bit_and_mask k c) (mod-lt c (one-le-pow k 2 (omega arith)))

module _ {A : Type 0} (blank : A) (k : ℕ) where
  -- The `n` values in the slots from the `i`-th counter behind `t` on.
  abbrev pub items : List A → ℕ → ℕ → ℕ → List A
  items slots t i zero = []
  items slots t i (suc n) = get_or slots (slot k (add64 t i)) blank ∷ items slots t (i + 1) n

  pub length-items : (slots : List A) (t i n : ℕ) → length (items slots t i n) ≡ n
  length-items slots t i zero = refl
  length-items slots t i (suc n) = ap suc (length-items slots t (i + 1) n)

  -- A write less than a lap ahead is not seen.
  pub items-set_ahead :
      (slots : List A) (t i n j : ℕ) (v : A)
      → k < 64
      → i + n ≤ j
      → j < i + 2 ^ k
      → items (set slots (slot k (add64 t j)) v) t i n ≡ items slots t i n
  items-set_ahead slots t i zero j v hk lo hi = refl
  items-set_ahead slots t i (suc n) j v hk lo hi =
      ap₂ ◌∷◌
        (get_or-set_ne slots (slot k (add64 t j)) (slot k (add64 t i)) v blank
          (slot-ne k t i j hk (omega arith) hi))
        (items-set_ahead slots t (i + 1) n j v hk (omega arith) (omega arith))

  -- A write at the end is seen there.
  pub items-set_end :
      (slots : List A) (t i n j : ℕ) (v : A)
      → k < 64
      → length slots ≡ 2 ^ k
      → i + n ≡ j
      → n < 2 ^ k
      → items (set slots (slot k (add64 t j)) v) t i (suc n) ≡ items slots t i n ++ (v ∷ [])
  items-set_end slots t i zero j v hk hl e hn =
      let e' : i ≡ j = omega arith in
      rw e' (
        ap (λ x. x ∷ [])
          (get_or-set_self slots (slot k (add64 t j)) v blank
            (omega (arith, slot-lt k (add64 t j)))))
  items-set_end slots t i (suc n) j v hk hl e hn =
      ap₂ ◌∷◌
        (get_or-set_ne slots (slot k (add64 t j)) (slot k (add64 t i)) v blank
          (slot-ne k t i j hk (omega arith) (omega arith)))
        (items-set_end slots t (i + 1) n j v hk hl (omega arith) (omega arith))

  -- Values counted from the next counter.
  pub items-shift :
      (slots : List A) (t i n : ℕ) → items slots (add64 t 1) i n ≡ items slots t (i + 1) n
  items-shift slots t i zero = refl
  items-shift slots t i (suc n) =
      ap₂ ◌∷◌ (ap (λ (c : ℕ). get_or slots (slot k c) blank) (omega arith))
        (items-shift slots t (i + 1) n)
