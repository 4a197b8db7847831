-- ===== src/Packet.antt =====
-- encoding/message/: the packets, one module for each of its files.
pub mod Connect
pub mod Connack
pub mod Publish
pub mod Puback
pub mod Pubrec
pub mod Pubrel
pub mod Pubcomp
pub mod Subscribe
pub mod Suback
pub mod Unsubscribe
pub mod Unsuback
pub mod Pingreq
pub mod Pingresp
pub mod Disconnect
