-- ===== src/Domain.antt =====
-- gamegine/include/engine/core/core_domain.h: the subsystems that raise errors and log messages.
-- An enumeration of the source can hold any value of its underlying type, so each has a constructor
-- for the values that no enumerator names.
use gamegine.Common.{ℕ, zero, suc, List, [], ◌∷◌, ◌≡◌, refl, Text, codes, length}

-- `unnamed n` is the value `n + 5`.
pub data Domain : Type 0 where
  unknown core vulkan metal count : Domain
  unnamed : ℕ → Domain

abbrev pub to_underlying : Domain → ℕ
to_underlying Domain.unknown = 0
to_underlying Domain.core = 1
to_underlying Domain.vulkan = 2
to_underlying Domain.metal = 3
to_underlying Domain.count = 4
to_underlying (Domain.unnamed n) = suc (suc (suc (suc (suc n))))

-- `static_cast<Domain>`
abbrev pub of_underlying : ℕ → Domain
of_underlying zero = Domain.unknown
of_underlying (suc zero) = Domain.core
of_underlying (suc (suc zero)) = Domain.vulkan
of_underlying (suc (suc (suc zero))) = Domain.metal
of_underlying (suc (suc (suc (suc zero)))) = Domain.count
of_underlying (suc (suc (suc (suc (suc n))))) = Domain.unnamed n

pub of_underlying-to_underlying : (d : Domain) → of_underlying (to_underlying d) ≡ d
of_underlying-to_underlying Domain.unknown = refl
of_underlying-to_underlying _ = refl

pub to_underlying-of_underlying : (n : ℕ) → to_underlying (of_underlying n) ≡ n
to_underlying-of_underlying zero = refl
to_underlying-of_underlying (suc zero) = refl
to_underlying-of_underlying (suc (suc zero)) = refl
to_underlying-of_underlying (suc (suc (suc zero))) = refl
to_underlying-of_underlying (suc (suc (suc (suc zero)))) = refl
to_underlying-of_underlying (suc (suc (suc (suc (suc n))))) = refl

abbrev pub k_domain_names : List Text
k_domain_names = codes "unknown" ∷ codes "core" ∷ codes "vulkan" ∷ codes "metal" ∷ []

-- The `static_assert` on the number of names.
one_name_per_domain : length k_domain_names ≡ to_underlying Domain.count
one_name_per_domain = refl
