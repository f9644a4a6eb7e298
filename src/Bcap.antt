-- ===== src/Bcap.antt =====
-- library/src/bcap_common.c: b-CAP packets.
pub mod Platform
pub mod Packet
pub mod Elements
pub mod Writer
pub mod Encode
pub mod Wire
pub mod Size
pub mod Crc
pub mod Reader
pub mod Decode
pub mod RoundTrip
pub mod Send
pub mod Receive
mod Tests
