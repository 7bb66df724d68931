-- ===== src/Processor.antt =====
-- `CommandProcessor` of lib/meshpigeon-core (command_processor.h, command_processor.cpp): requests
-- from connected clients, their authorization, and what is sent to whom. The radio, the settings
-- store and the protobuf codec are parameters.
mod Tests
pub mod Message
pub mod State
pub mod Reply
pub mod Checks
pub mod Handle
pub mod Bystander
pub mod Gate
pub mod Radio
pub mod Tuning
pub mod Sinks
pub mod Auth
pub mod Fetch
pub mod Change
pub mod Secrecy
pub mod Life
