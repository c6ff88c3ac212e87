-- ===== src/Protection.antt =====
-- Receipts of the data protection step: pii.py and data_protection_receipt.py.
mod Model
mod Pii
mod Receipts
mod Checks
mod Roundtrips
mod Soundness
mod Receipted
mod Samples
pub use Model.*
unfoldable pub use Pii.*
unfoldable pub use Receipts.*
unfoldable pub use Checks.*
unfoldable pub use Soundness.{IsCleared}
pub use Soundness.{data_protection_receipt_errors-IsCleared}
