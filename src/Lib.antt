-- ===== src/Lib.antt =====
-- MeshPigeon firmware: a LoRa packet node that serves phones over BLE, USB and Wi-Fi. The code
-- that is modelled is the board-neutral core in lib/meshpigeon-core, the radios under it, the
-- transports above it (src/transports.h, src/wifi_transport.cpp), what the boards keep over a
-- restart and their radio loop (src/main.cpp), and the simulator's tick (src/sim_main.cpp).
--
-- The parts. Bytes from a transport go through `drain_frames`
-- (lib/meshpigeon-core/include/meshpigeon/frame_drain.h) into a `FrameReader`
-- (lib/meshpigeon-core/src/framing.cpp), which hands whole envelopes to the command processor
-- (lib/meshpigeon-core/src/command_processor.cpp). Packets from the air, and packets that are
-- sent, are kept in a `PacketStore` (lib/meshpigeon-core/src/packet_store.cpp), stamped by an
-- `UptimeClock` (lib/meshpigeon-core/include/meshpigeon/uptime_clock.h). Tunings are persisted as
-- `RadioSettings` records, the name, the PIN and the Wi-Fi configuration as `DeviceSettings`
-- records (lib/meshpigeon-core/src/settings.cpp).
--
-- The files.
--   Prelude: shared names, Boolean tests as in C, lists over the native numbers, bit lemmas, and
--     memory as a list of bytes with little-endian integers.
--   Framing: Crc is crc16_ccitt, frame_crc16 and frame_crc; Cobs is the class CobsEncoder and the
--     functions cobs_encode and cobs_decode; Frame is frame_build, frame_encode_wire and
--     frame_encode_envelope; Reader is FrameReader::feed and drain_frames.
--   Store: PacketStore on the bytes of its pool. Layout says where retained records lie, Pop, Room
--     and Write are the stages of append, Used is what it leaves free, Forced that it evicts no more
--     than it has to; Walk and Read are about get, Since about fetch_since and count_since.
--   Clock: UptimeClock, with the readings of its source as arguments.
--   Settings: Record is the checksum trailer, Radio is RadioSettings::serialize and deserialize, Text
--     the fixed character fields and the rules for them, Device is DeviceSettings with its record,
--     Memory is MemorySettingsStore.
--   Processor: Message has the decoded envelopes and the interfaces behind the processor, State its
--     state, the registry of connections and its questions, Reply the building and delivery of
--     responses, Checks the limits and checks of a request, Handle the dispatcher, each handler,
--     on_packet_received, poll and boot. Gate, Auth, Radio, Tuning, Sinks, Fetch and Change prove
--     what these do; Bystander is the part that their proofs share. Life has the processor over
--     time: everything that the board loop and the transports may do to it, in any order, with the
--     life of a transmission (Live, Flight) and of the packet store (Untouched, Stored, Retained,
--     Kept). Secrecy is about connections that are not authorized: what they are sent (Handlers,
--     Requests, Runs) and how they come to be authorized (Entry, Pin).
--   Lora: LoraRadioBase (src/radio_lora.h) over a chip driver as a parameter, and Listen about it.
--   Sim: SimRadio (include/meshpigeon/sim_radio.h), and Send about it.
--   Node: the command processor over each of the two radios, as src/main.cpp and src/sim_main.cpp
--     put them together (OnLora, OnSim); Loop is radio_loop of src/main.cpp with the USB console,
--     SimMain the hooks and the loop of src/sim_main.cpp, FakeWifi its scripted Wi-Fi; Setup is setup
--     of src/main.cpp on the nRF52, BoardHooks the board's hooks.
--   Transports: RxFifo is the receive ring of src/transports.h, EspBle its BleSink on the ESP32 with
--     the slots of the centrals, Notify the notifications of a frame, NrfBle its BleSink on the nRF52
--     with the ring of frames (Ring, Stream, Send, Backlog) and its turn in the board loop (Pump), Wifi
--     the link of src/wifi_transport.cpp with its back-off (Facts, Calls, Rules), and Wifi/Clients
--     its TCP clients: the bounded write of a frame (Sending), the four slots (Slots, Kept, Turns),
--     and what lasts from setup on (Lasting, Startup).
--   Board: BoardSettingsStore of src/main.cpp on littlefs and on NVS, and the boot count; Crash and
--     Kept are about a cut of the power, Disk is a small file system for the examples.
--
-- Numbers are native naturals; a value of an unsigned type of w bits carries its wrap-around as %
-- 2 ^ w where the source can wrap. An int8_t is its bit pattern. Byte arrays are lists of numbers,
-- a read beyond one gives 0. An output buffer that the source fills is the list of what is
-- written.
--
-- Loops are structural recursion, but for five that run on fuel: the decoder of COBS runs on the
-- length of its input, of which each round takes at least the code byte, and the eviction loop of
-- the store runs on the number of its entries, of which each round takes one; flush of the nRF52
-- transport runs on the bytes that wait and the milliseconds that are left, of which each round
-- takes one; the notifications of a frame run on its length, of which each takes a byte; and the
-- write of a frame to a TCP client runs on its length and the 250 ms of its budget, of which each
-- round takes a byte or a millisecond. Draining a socket is recursion on the byte budget of a turn.
--
-- The processor's `Ports` record stands for the radio (ILoRaRadio), the settings store
-- (SettingsStore) and the codec (pb_encode, pb_decode), which no theorem assumes anything of;
-- `Hooks` for the board (IBoardHooks). A connection is a number, its flag a value of a function on
-- numbers. Frames that are sent and hooks that act are events of a log, in the order of the calls.
--
-- The vendors' stacks are records of calls: Uart for Bluefruit, Host for NimBLE's notifications,
-- Stack for Wi-Fi, Tcp for its sockets, FileSystem for littlefs, Nvs for the ESP32's key-value
-- store, Chip for RadioLib. What is documented of them and used is a record of laws beside them
-- (IsUart, IsHost, IsTcp, IsFileSystem). The two tasks of the ESP32 are steps that may follow
-- each other in any order: a callback of the Bluetooth host, or the board loop's turn at one
-- slot.
--
-- Not modelled: the bring-up and naming of the Bluetooth and Wi-Fi stacks and the write of the USB
-- sink, which pass calls on; the bring-up of the two radio chips; the sockets and the command line
-- of the simulator; the pins, the reading of the battery and the restart of a board; nanopb and the
-- code generated from the protobuf files, which are a third party's; the failure of the store's
-- allocation.
pub mod Prelude
pub mod Framing
pub mod Store
pub mod Clock
pub mod Settings
pub mod Processor
pub mod Lora
pub mod Sim
pub mod Transports
pub mod Board
pub mod Node
