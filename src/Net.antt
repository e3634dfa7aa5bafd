-- ===== src/Net.antt =====
-- The framing of messages: include/poker/net and src/poker/net.
pub mod Codec
