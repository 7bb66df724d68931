-- ===== src/Settings.antt =====
-- Settings of lib/meshpigeon-core (settings.h, settings.cpp): the two records that are persisted,
-- their byte formats with a checksum, and the rules for what a client may write.
mod Tests
pub mod Record
pub mod Radio
pub mod Text
pub mod Device
pub mod Memory
