-- ===== src/Wire.antt =====
-- The structs of Common/Protocol.h as bytes, packed, and the packets that carry them.
pub mod Codec
pub mod Arrays
pub mod Requests
pub mod Reading
pub mod Bodies
pub mod Goods
pub mod Answers
pub mod Telling
