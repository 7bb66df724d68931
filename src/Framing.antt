-- ===== src/Framing.antt =====
-- The wire framing of lib/meshpigeon-core (framing.h, framing.cpp, frame_drain.h): the CRC-16, the
-- COBS codec, frames over both, and the stream reader.
mod Tests
pub mod Crc
pub mod Cobs
pub mod Frame
pub mod Reader
