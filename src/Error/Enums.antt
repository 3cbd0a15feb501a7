-- ===== src/Error/Enums.antt =====
-- `Error::Kind`, the reason enumerations and what `ErrorReasonTraits` and `ErrorReasonNames` say of
-- each: its domain and its names.
use gamegine.Common.{ℕ, zero, suc, List, [], ◌∷◌, ◌≡◌, refl, Text, codes}
use gamegine.Domain.{Domain}

-- `unnamed n` is the value `n + 3`.
pub data Kind : Type 0 where
  unknown exhausted count : Kind
  unnamed : ℕ → Kind

abbrev pub kind_to_underlying : Kind → ℕ
kind_to_underlying Kind.unknown = 0
kind_to_underlying Kind.exhausted = 1
kind_to_underlying Kind.count = 2
kind_to_underlying (Kind.unnamed n) = suc (suc (suc n))

abbrev pub kind_of_underlying : ℕ → Kind
kind_of_underlying zero = Kind.unknown
kind_of_underlying (suc zero) = Kind.exhausted
kind_of_underlying (suc (suc zero)) = Kind.count
kind_of_underlying (suc (suc (suc n))) = Kind.unnamed n

pub kind_of_underlying-to_underlying : (k : Kind) → kind_of_underlying (kind_to_underlying k) ≡ k
kind_of_underlying-to_underlying Kind.unknown = refl
kind_of_underlying-to_underlying _ = refl

-- `unnamed n` is the value `n + 3`.
pub data CoreReason : Type 0 where
  unknown log_too_many_threads count : CoreReason
  unnamed : ℕ → CoreReason

abbrev core_to : CoreReason → ℕ
core_to CoreReason.unknown = 0
core_to CoreReason.log_too_many_threads = 1
core_to CoreReason.count = 2
core_to (CoreReason.unnamed n) = suc (suc (suc n))

abbrev core_of : ℕ → CoreReason
core_of zero = CoreReason.unknown
core_of (suc zero) = CoreReason.log_too_many_threads
core_of (suc (suc zero)) = CoreReason.count
core_of (suc (suc (suc n))) = CoreReason.unnamed n

pub core_of-to : (r : CoreReason) → core_of (core_to r) ≡ r
core_of-to CoreReason.unknown = refl
core_of-to _ = refl

-- `unnamed n` is the value `n + 2`.
pub data VulkanReason : Type 0 where
  unknown count : VulkanReason
  unnamed : ℕ → VulkanReason

abbrev vulkan_to : VulkanReason → ℕ
vulkan_to VulkanReason.unknown = 0
vulkan_to VulkanReason.count = 1
vulkan_to (VulkanReason.unnamed n) = suc (suc n)

abbrev vulkan_of : ℕ → VulkanReason
vulkan_of zero = VulkanReason.unknown
vulkan_of (suc zero) = VulkanReason.count
vulkan_of (suc (suc n)) = VulkanReason.unnamed n

pub vulkan_of-to : (r : VulkanReason) → vulkan_of (vulkan_to r) ≡ r
vulkan_of-to VulkanReason.unknown = refl
vulkan_of-to _ = refl

-- `unnamed n` is the value `n + 2`.
pub data MetalReason : Type 0 where
  unknown count : MetalReason
  unnamed : ℕ → MetalReason

abbrev metal_to : MetalReason → ℕ
metal_to MetalReason.unknown = 0
metal_to MetalReason.count = 1
metal_to (MetalReason.unnamed n) = suc (suc n)

abbrev metal_of : ℕ → MetalReason
metal_of zero = MetalReason.unknown
metal_of (suc zero) = MetalReason.count
metal_of (suc (suc n)) = MetalReason.unnamed n

pub metal_of-to : (r : MetalReason) → metal_of (metal_to r) ≡ r
metal_of-to MetalReason.unknown = refl
metal_of-to _ = refl

-- What makes `R` a reason enumeration with names: `NamedErrorReason`.
pub record ReasonTraits (R : Type 0) : Type 0 where
  pub k_domain : Domain
  pub k_names : List Text
  pub to_underlying : R → ℕ
  pub of_underlying : ℕ → R
  pub of-to : (r : R) → of_underlying (to_underlying r) ≡ r

-- `ErrorReasonNames<...>::k_NAMES`
abbrev core_reason_names : List Text
core_reason_names = codes "unknown" ∷ codes "log_too_many_threads" ∷ []

abbrev vulkan_reason_names : List Text
vulkan_reason_names = codes "unknown" ∷ []

abbrev metal_reason_names : List Text
metal_reason_names = codes "unknown" ∷ []

instance abbrev pub core_traits : ReasonTraits CoreReason
core_traits = record {
  k_domain = Domain.core;
  k_names = core_reason_names;
  to_underlying = core_to;
  of_underlying = core_of;
  of-to = core_of-to;
}

instance abbrev pub vulkan_traits : ReasonTraits VulkanReason
vulkan_traits = record {
  k_domain = Domain.vulkan;
  k_names = vulkan_reason_names;
  to_underlying = vulkan_to;
  of_underlying = vulkan_of;
  of-to = vulkan_of-to;
}

instance abbrev pub metal_traits : ReasonTraits MetalReason
metal_traits = record {
  k_domain = Domain.metal;
  k_names = metal_reason_names;
  to_underlying = metal_to;
  of_underlying = metal_of;
  of-to = metal_of-to;
}
