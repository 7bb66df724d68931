-- ===== src/Node.antt =====
-- The node: the command processor over each of the repository's two kinds of radio.
mod Tests
pub mod OnLora
pub mod OnSim
pub mod Loop
pub mod SimMain
pub mod Setup
pub mod BoardHooks
