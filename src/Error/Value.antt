-- ===== src/Error/Value.antt =====
-- The class `Error`: its packed value, its factories and its accessors.
use gamegine.Common.{ℕ, ◌%◌, bit_and, bit_or, shl64, shr, u32_mod}
use gamegine.Common.Int.{ℤ, to_bits32, of_bits32}
use gamegine.Domain
use gamegine.Domain.{Domain}
use gamegine.Error.Enums.{Kind, kind_to_underlying, kind_of_underlying, ReasonTraits}

pub record Error : Type 0 where
  pub raw : ℕ

module _ {R : Type 0} ⦃t : ReasonTraits R⦄ where
  unfoldable pub make : Kind → R → ℕ → Error
  make kind reason context =
      let low = bit_or (Domain.to_underlying t.k_domain) (shl64 (kind_to_underlying kind) 8) in
      let middle = bit_or low (shl64 (t.to_underlying reason) 16) in
      record { raw = bit_or middle (shl64 context 32) }

  unfoldable pub make_with_signed_context : Kind → R → ℤ → Error
  unfolding make
  make_with_signed_context kind reason context = make kind reason (to_bits32 context)

unfoldable pub from_raw : ℕ → Error
from_raw raw = record { raw = raw }

unfoldable pub domain : Error → Domain
domain e = Domain.of_underlying (bit_and e.raw 0xFF)

unfoldable pub kind : Error → Kind
kind e = kind_of_underlying (bit_and (shr e.raw 8) 0xFF)

unfoldable pub reason : Error → ℕ
reason e = bit_and (shr e.raw 16) 0xFFFF

-- Undefined in the source unless the domain is that of `R`.
unfoldable pub reason_as : {R : Type 0} ⦃t : ReasonTraits R⦄ → Error → R
unfolding reason
reason_as ⦃t⦄ e = t.of_underlying (reason e)

unfoldable pub context : Error → ℕ
context e = shr e.raw 32 % u32_mod

unfoldable pub signed_context : Error → ℤ
unfolding context
signed_context e = of_bits32 (context e)
