-- ===== src/Encoding.antt =====
-- encoding/: the byte stream, the variable-length integer and the fixed header of a packet.
pub mod Stream
pub mod Varint
pub mod PType
pub mod Header
