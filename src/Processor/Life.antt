-- ===== src/Processor/Life.antt =====
-- The processor over time: what the board loop and the transports may do to it, in any order. The
-- radio is one that keeps its own account of whether it is transmitting.
mod Tests
pub mod Live
pub mod Flight
pub mod Untouched
pub mod Stored
pub mod Retained
pub mod Kept
use meshpigeon_firmware.Prelude.{
  ℕ, ◌+◌, ◌≤◌, ◌<◌, ◌≡◌, refl, ap, sym, subst, ◌∙◌, ◌-◌, ◌%◌, ◌^◌, lt→leb, le→leb, dec_lt, List, [],
  ◌∷◌, ◌++◌, Bool, true, false, ◌||◌, not, Option, none, some, arith, ltb, leb, ◌==◌, if◌then◌else◌,
  length, length-append, Bool-cases, ==_refl, ◌⊎◌, inl, inr,
}
use mathlib.Core.Bool.{false≢true}
use meshpigeon_firmware.Store.{append, u32}
use meshpigeon_firmware.Clock
use meshpigeon_firmware.Clock.{uptime_ms64}
use meshpigeon_firmware.Settings.Radio.{RadioSettings}
use meshpigeon_firmware.Processor.Message.{
  Ports, Op, ErrorCode, Answer, RadioSettingsMessage, sign_extend,
}
use meshpigeon_firmware.Processor.State.{
  Processor, max_sinks, is_authorized, first_owner_lock_active, add_sink, remove_sink, remove_first,
}
use meshpigeon_firmware.Processor.Reply.{
  reply, send_error, emit_tx_result, notify_radio_changed, on_wifi_state_changed,
}
use meshpigeon_firmware.Processor.Checks.{
  bad_tuning, tuning_of, max_raw_packet, flag_sent, flag_received, or_else,
}
use meshpigeon_firmware.Processor.Handle.{
  guarded, accept_tuning, handle_set_radio_settings, start_transmission, handle_send_packet,
  handle_request, on_envelope, on_packet_received, on_tx_result, poll,
}
use meshpigeon_firmware.Processor.Radio.{
  Air, air, Op-cases, request-air, guarded-air, reply-air, error-air, broadcast-air,
  send_packet-air,
}

-- Bytes of an envelope from a connection; a packet off the air; a tick of the loop at a time; a
-- connection that comes or goes; a change of the Wi-Fi; and a look at the receiver.
pub data Action : Type 0 where
  envelope : List ℕ → ℕ → Action
  heard : ℕ → ℕ → List ℕ → Action
  tick : ℕ → Action
  join : ℕ → Action
  leave : ℕ → Action
  wifi_changed : Action
  listened : Action

module _ {R S : Type 0} (ports : Ports R S) (listen : R → R) where
  unfoldable pub act : Processor R S → Action → Processor R S
  act p (Action.envelope bytes from) = on_envelope ports p bytes from
  act p (Action.heard rssi snr raw) = (on_packet_received ports p rssi snr raw).1
  act p (Action.tick now) = poll ports p now
  act p (Action.join sink) = (add_sink p sink).1
  act p (Action.leave sink) = remove_sink p sink
  act p Action.wifi_changed = on_wifi_state_changed ports p
  act p Action.listened = record p { radio = listen p.radio }

  unfoldable pub run : Processor R S → List Action → Processor R S
  run p [] = p
  run p (a ∷ actions) = run (act p a) actions

-- What the processor relies on of its radio.
pub record IsTransmitter (R S : Type 0) (ports : Ports R S) (listen : R → R) (busy : R → Bool)
    : Type 0 where
  pub apply_keeps : (r : R) (s : RadioSettings) → busy (ports.apply r s).0 ≡ busy r
  pub transmit_starts :
      (r : R) (raw : List ℕ)
      → busy r ≡ false
      → busy (ports.transmit r raw).0 ≡ (ports.transmit r raw).1
  pub tx_done_ends : (r : R) → busy r ≡ true → busy (ports.tx_done r).0 ≡ not (ports.tx_done r).1
  pub listen_keeps : (r : R) → busy (listen r) ≡ busy r

pub record IsLiveAir (R : Type 0) (busy : R → Bool) (a : Air R) : Type 0 where
  pub in_step : a.2 ≡ busy a.0
  pub fits : length a.4 ≤ max_sinks
