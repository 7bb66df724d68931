-- ===== src/Transports.antt =====
-- The transports of src/transports.h and src/wifi_transport.cpp: byte pipes between the clients and
-- the command processor. The vendors' stacks are parameters.
mod Tests
pub mod NrfBle
pub mod RxFifo
pub mod EspBle
pub mod Wifi
