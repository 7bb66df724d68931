-- ===== src/Processor/Secrecy/Tests.antt =====
-- A connection without the PIN among others, on the node of the processor's tests.
use meshpigeon_firmware.Prelude.{ℕ, ◌≡◌, refl, ◌⊎◌, List, [], ◌∷◌, true, some}
use meshpigeon_firmware.Settings.Text.{str_of, strlen, strcmp_eq}
use meshpigeon_firmware.Settings.Device.{pin_is_default}
use meshpigeon_firmware.Processor.Message.{Ports, Op}
use meshpigeon_firmware.Processor.State.{
  add_sink, remove_sink, is_authorized, pin_matches, auth_backoff_active,
}
use meshpigeon_firmware.Processor.Reply.{reply, send_error, deliver, emit}
use meshpigeon_firmware.Processor.Handle.{handle_auth, handle_request, on_envelope}
use meshpigeon_firmware.Processor.Life.{Action, act, run}
use meshpigeon_firmware.Processor.Secrecy.{Quiet}
use meshpigeon_firmware.Processor.Secrecy.Runs.{run-Quiet}
use meshpigeon_firmware.Processor.Secrecy.Pin.{Attempt, act-is_authorized}
use meshpigeon_firmware.Processor.Tests.{counting, node}

-- Every envelope is an attempt with the PIN "4321".
abbrev guessing : Ports ℕ ℕ
guessing = record counting {
  decode = λ bytes. some (record { id = 9; op = Op.auth (52 ∷ 51 ∷ 50 ∷ 49 ∷ []) });
}

-- Every envelope asks for the device settings.
abbrev asking : Ports ℕ ℕ
asking = record counting { decode = λ bytes. some (record { id = 9; op = Op.get_device_settings }) }

-- Connection 2 asks, a third one joins and asks, and 1, which is authenticated, does.
abbrev questions : List Action
questions =
    Action.envelope (7 ∷ []) 2
    ∷ Action.join 3
    ∷ Action.envelope (7 ∷ []) 3
    ∷ Action.envelope (7 ∷ []) 1
    ∷ Action.leave 3
    ∷ []

run-Quiet_example : Quiet asking 2 node (run asking (λ r. r) node questions)
unfolding act on_envelope handle_request add_sink remove_sink is_authorized pin_is_default strcmp_eq
    reply send_error deliver emit
run-Quiet_example =
    run-Quiet asking (λ r. r) 2 node questions (refl, (refl, (refl, (refl, (refl, refl)))))

act-is_authorized_example :
    ((bytes : List ℕ) × (Action.envelope (7 ∷ []) 2 ≡ Action.envelope bytes 2)
      × Attempt guessing 2 node bytes)
    ⊎ (pin_is_default (act guessing (λ r. r) node (Action.envelope (7 ∷ []) 2)).device ≡ true)
unfolding act on_envelope handle_request handle_auth is_authorized auth_backoff_active
    pin_is_default strcmp_eq reply deliver emit pin_matches strlen str_of
act-is_authorized_example =
    act-is_authorized guessing 2 (λ r. r) node (Action.envelope (7 ∷ []) 2) refl refl
