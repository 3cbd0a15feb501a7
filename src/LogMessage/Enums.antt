-- ===== src/LogMessage/Enums.antt =====
-- `LogMessage::Argument`, the message enumerations and their `LogMessageIdTraits`.
use gamegine.Common.{ℕ, zero, suc, List, [], ◌∷◌, ◌≡◌, refl}
use gamegine.Domain.{Domain}

-- What the argument of a message holds; `unnamed n` is the value `n + 6`.
pub data Argument : Type 0 where
  none unsigned signed hex float count : Argument
  unnamed : ℕ → Argument

-- The three enumerations have one enumerator each; `unnamed n` is the value `n + 2`.
pub data CoreMessage : Type 0 where
  unknown count : CoreMessage
  unnamed : ℕ → CoreMessage

pub data VulkanMessage : Type 0 where
  unknown count : VulkanMessage
  unnamed : ℕ → VulkanMessage

pub data MetalMessage : Type 0 where
  unknown count : MetalMessage
  unnamed : ℕ → MetalMessage

abbrev core_to : CoreMessage → ℕ
core_to CoreMessage.unknown = 0
core_to CoreMessage.count = 1
core_to (CoreMessage.unnamed n) = suc (suc n)

abbrev core_of : ℕ → CoreMessage
core_of zero = CoreMessage.unknown
core_of (suc zero) = CoreMessage.count
core_of (suc (suc n)) = CoreMessage.unnamed n

pub core_of-to : (m : CoreMessage) → core_of (core_to m) ≡ m
core_of-to CoreMessage.unknown = refl
core_of-to _ = refl

abbrev vulkan_to : VulkanMessage → ℕ
vulkan_to VulkanMessage.unknown = 0
vulkan_to VulkanMessage.count = 1
vulkan_to (VulkanMessage.unnamed n) = suc (suc n)

abbrev vulkan_of : ℕ → VulkanMessage
vulkan_of zero = VulkanMessage.unknown
vulkan_of (suc zero) = VulkanMessage.count
vulkan_of (suc (suc n)) = VulkanMessage.unnamed n

pub vulkan_of-to : (m : VulkanMessage) → vulkan_of (vulkan_to m) ≡ m
vulkan_of-to VulkanMessage.unknown = refl
vulkan_of-to _ = refl

abbrev metal_to : MetalMessage → ℕ
metal_to MetalMessage.unknown = 0
metal_to MetalMessage.count = 1
metal_to (MetalMessage.unnamed n) = suc (suc n)

abbrev metal_of : ℕ → MetalMessage
metal_of zero = MetalMessage.unknown
metal_of (suc zero) = MetalMessage.count
metal_of (suc (suc n)) = MetalMessage.unnamed n

pub metal_of-to : (m : MetalMessage) → metal_of (metal_to m) ≡ m
metal_of-to MetalMessage.unknown = refl
metal_of-to _ = refl

-- What makes `M` a message enumeration: `LogMessageIdType`, with the arguments of its messages.
pub record MessageTraits (M : Type 0) : Type 0 where
  pub k_domain : Domain
  pub k_arguments : List Argument
  pub to_underlying : M → ℕ
  pub of_underlying : ℕ → M
  pub of-to : (m : M) → of_underlying (to_underlying m) ≡ m

instance abbrev pub core_message : MessageTraits CoreMessage
core_message = record {
  k_domain = Domain.core;
  k_arguments = Argument.none ∷ [];
  to_underlying = core_to;
  of_underlying = core_of;
  of-to = core_of-to;
}

instance abbrev pub vulkan_message : MessageTraits VulkanMessage
vulkan_message = record {
  k_domain = Domain.vulkan;
  k_arguments = Argument.none ∷ [];
  to_underlying = vulkan_to;
  of_underlying = vulkan_of;
  of-to = vulkan_of-to;
}

instance abbrev pub metal_message : MessageTraits MetalMessage
metal_message = record {
  k_domain = Domain.metal;
  k_arguments = Argument.none ∷ [];
  to_underlying = metal_to;
  of_underlying = metal_of;
  of-to = metal_of-to;
}
