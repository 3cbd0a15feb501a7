-- ===== src/LogMessage.antt =====
-- gamegine/include/engine/core/core_log_message.h: a log message in 64 bits, checked against the
-- argument that its id declares.
pub mod Enums
pub mod Value
pub mod Fields
pub use Enums.{Argument, CoreMessage, VulkanMessage, MetalMessage, MessageTraits}
pub use Enums.{core_message, vulkan_message, metal_message}
pub use Value.{LogMessage, ArgumentType, LogMessageId}
unfoldable pub use Value.{accepts, message_id, make_plain, make_unsigned, make_signed, make_float}
unfoldable pub use Value.{from_raw, domain, id, id_as, argument, signed_argument}
