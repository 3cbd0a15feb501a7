-- ===== src/Error.antt =====
-- gamegine/include/engine/core/core_error.h: an error in 64 bits, and results that may be one.
pub mod Enums
pub mod Value
pub mod Fields
pub mod Outcome
pub use Enums.{Kind, CoreReason, VulkanReason, MetalReason, ReasonTraits}
pub use Enums.{core_traits, vulkan_traits, metal_traits, kind_to_underlying}
pub use Value.{Error}
unfoldable pub use Value.{make, make_with_signed_context, from_raw}
unfoldable pub use Value.{domain, kind, reason, reason_as, context, signed_context}
