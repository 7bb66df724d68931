-- ===== src/Processor/State.antt =====
-- The processor's state, its registry of connections, and the questions that it asks of itself.
use meshpigeon_firmware.Prelude.{
  ℕ, zero, suc, ◌+◌, ◌-◌, ◌*◌, ◌%◌, ◌^◌, List, [], ◌∷◌, ◌++◌, Bool, true, false, ◌&&◌, ◌||◌, not,
  Option, none, some, ltb, leb, ◌==◌, if◌then◌else◌, length, set, get_or,
}
use meshpigeon_firmware.Store.{PacketStore}
use meshpigeon_firmware.Clock.{UptimeClock, uptime_ms64}
use meshpigeon_firmware.Settings.Radio.{RadioSettings}
use meshpigeon_firmware.Settings.Radio
use meshpigeon_firmware.Settings.Text.{name_max, pin_max, copy_str}
use meshpigeon_firmware.Settings.Device.{DeviceSettings, defaults, pin_is_default}
use meshpigeon_firmware.Processor.Message.{Hooks, Event}

-- A connection is a number. `authenticated` is the flag that each connection carries, registered
-- or not; `sinks` are the first `num_sinks_` items of the array. `out` is what was sent and which
-- hooks were called, oldest first.
pub record Processor (R S : Type 0) : Type 0 where
  pub store : PacketStore
  pub clock : UptimeClock
  pub settings_store : S
  pub radio : R
  pub hooks : Option Hooks
  pub board_name : List ℕ
  pub fw_version : List ℕ
  pub settings : RadioSettings
  pub set_count_since_boot : ℕ
  pub device : DeviceSettings
  pub radio_ok : Bool
  pub noise_floor_dbm : ℕ
  pub auth_fails : ℕ
  pub auth_backoff_until : ℕ
  pub tx_pending : Bool
  pub tx_pending_seq : ℕ
  pub sinks : List ℕ
  pub authenticated : ℕ → Bool
  pub out : List Event

-- kFirstOwnerGraceMs, kAuthFailsBeforeDelay, kAuthFailDelayMs, kMaxFetchPerRequest, kMaxSinks
abbrev pub first_owner_grace_ms : ℕ
first_owner_grace_ms = 5 * 60 * 1000

abbrev pub auth_fails_before_delay : ℕ
auth_fails_before_delay = 3

abbrev pub auth_fail_delay_ms : ℕ
auth_fail_delay_ms = 1000

abbrev pub max_fetch_per_request : ℕ
max_fetch_per_request = 64

abbrev pub max_sinks : ℕ
max_sinks = 8

-- "MeshPigeon-"
abbrev pub default_name_prefix : List ℕ
default_name_prefix = 77 ∷ 101 ∷ 115 ∷ 104 ∷ 80 ∷ 105 ∷ 103 ∷ 101 ∷ 111 ∷ 110 ∷ 45 ∷ []

unfoldable pub remove_first : ℕ → List ℕ → List ℕ
remove_first x [] = []
remove_first x (y ∷ ys) = if y == x then ys else y ∷ remove_first x ys

module _ {R S : Type 0} where
  unfoldable pub create_processor :
      PacketStore → UptimeClock → S → R → List ℕ → List ℕ → Processor R S
  create_processor store clock settings_store radio board_name fw_version = record {
    store = store;
    clock = clock;
    settings_store = settings_store;
    radio = radio;
    hooks = none;
    board_name = copy_str 17 board_name;
    fw_version = copy_str 16 fw_version;
    settings = Radio.unset;
    set_count_since_boot = 0;
    device = defaults;
    radio_ok = false;
    noise_floor_dbm = 0;
    auth_fails = 0;
    auth_backoff_until = 0;
    tx_pending = false;
    tx_pending_seq = 0;
    sinks = [];
    authenticated = λ s. false;
    out = [];
  }

  unfoldable pub set_hooks : Processor R S → Option Hooks → Processor R S
  set_hooks p hooks = record p { hooks = hooks }

  unfoldable pub add_sink : Processor R S → ℕ → Bool × Processor R S
  add_sink p sink =
      if leb max_sinks (length p.sinks)
      then (false, p)
      else (true, record p { sinks = p.sinks ++ sink ∷ [] })

  unfoldable pub remove_sink : Processor R S → ℕ → Processor R S
  remove_sink p sink = record p { sinks = remove_first sink p.sinks }

  -- The name in use: the stored one, or one made of the prefix and the board's MAC suffix.
  unfoldable pub effective_name : Processor R S → List ℕ
  effective_name p =
      let zeros = 48 ∷ 48 ∷ 48 ∷ 48 ∷ 0 ∷ [] in
      let suffix : List ℕ = elim p.hooks [ none ↦ zeros | some h ↦ set (h.mac_suffix zeros) 4 0 ] in
      if get_or p.device.name 0 0 == 0
      then copy_str (name_max + 1) (default_name_prefix ++ suffix)
      else copy_str (name_max + 1) p.device.name

  unfoldable pub first_owner_lock_active : Processor R S → Bool
  first_owner_lock_active p =
      leb 1 p.set_count_since_boot && ltb (uptime_ms64 p.clock) first_owner_grace_ms

  unfoldable pub is_authorized : Processor R S → ℕ → Bool
  is_authorized p from = p.authenticated from || pin_is_default p.device

  -- `memcmp` with the first `len` bytes of the field, and a NUL behind them.
  unfoldable pub pin_matches : Processor R S → List ℕ → ℕ → Bool
  pin_matches p pin len =
      if len == 0 || ltb pin_max len then false else same_bytes len pin p.device.pin
    where
      same_bytes : ℕ → List ℕ → List ℕ → Bool
      same_bytes zero xs [] = false
      same_bytes zero xs (y ∷ ys) = y == 0
      same_bytes (suc n) [] ys = false
      same_bytes (suc n) (x ∷ xs) [] = false
      same_bytes (suc n) (x ∷ xs) (y ∷ ys) = (x == y) && same_bytes n xs ys

  -- The difference is read as an `int64_t`.
  unfoldable pub auth_backoff_active : Processor R S → Bool
  auth_backoff_active p =
      let difference = (uptime_ms64 p.clock + 2 ^ 64 - p.auth_backoff_until) % 2 ^ 64 in
      not (p.auth_backoff_until == 0) && leb (2 ^ 63) difference

  unfoldable pub note_auth_failure : Processor R S → Processor R S
  note_auth_failure p =
      let fails = if ltb p.auth_fails 0xFF then p.auth_fails + 1 else p.auth_fails in
      record p {
        auth_fails = fails;
        auth_backoff_until =
            if ltb auth_fails_before_delay fails
            then (uptime_ms64 p.clock + auth_fail_delay_ms) % 2 ^ 64
            else p.auth_backoff_until;
      }
