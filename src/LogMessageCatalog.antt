-- ===== src/LogMessageCatalog.antt =====
-- gamegine/include/engine/core/core_log_message_catalog.h: the texts of the messages.
pub mod Split
pub mod Parts
pub mod Texts
pub use Split.{LogMessageText}
unfoldable pub use Split.{is_valid}
pub use Texts.{MessageTexts}
unfoldable pub use Texts.{table, to_string_domain, text, text_of}
