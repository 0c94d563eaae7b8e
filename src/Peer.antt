-- ===== src/Peer.antt =====
-- The peer protocol: src/peer/message.rs, src/peer/writer.rs and the extended messages of
-- src/extensions/mod.rs.
pub mod Message
pub mod Writer
