-- ===== src/Bytes.antt =====
-- Byte buffers: big-endian fields, and the bounds-checked cursor by which the parsers read.
mod Reading
mod Endian
mod RoundTrip
mod Bounds
mod Nibbles
mod Steps
unfoldable pub use Reading.*
unfoldable pub use Endian.*
pub use RoundTrip.*
pub use Bounds.*
pub use Nibbles.*
pub use Steps.*
