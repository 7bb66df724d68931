-- ===== src/Processor/Fetch.antt =====
-- `handle_fetch_packets` against the list of retained packets.
use meshpigeon_firmware.Prelude.{ℕ, List, [], ◌∷◌, ◌++◌, min, ◌==◌, if◌then◌else◌, is_empty}
use meshpigeon_firmware.Store.{StoredPacket}
use meshpigeon_firmware.Processor.Message.{Ports, Response, Answer, Event}
use meshpigeon_firmware.Processor.State.{Processor}
use meshpigeon_firmware.Processor.Reply.{packet_entry_message}

-- How many packets a request with this `max_count` may have: 0 stands for as many as there may be.
abbrev pub wanted : ℕ → ℕ
wanted max_count = if max_count == 0 then 64 else min max_count 64

-- The responses to a fetch that finds the packets `found`.
abbrev pub fetch_answers : ℕ → List StoredPacket → ℕ → List Response
fetch_answers id [] n = record { id = id; answer = Answer.fetch_end n } ∷ []
fetch_answers id (e ∷ es) n =
    record { id = id; answer = Answer.packet_entry (packet_entry_message e) }
    ∷ fetch_answers id es n

module _ {R S : Type 0} (ports : Ports R S) where
  -- Responses as frames to one connection; one that cannot be encoded is left out.
  abbrev pub frames_to : ℕ → List Response → List Event
  frames_to to [] = []
  frames_to to (r ∷ rs) =
      (if is_empty (ports.encode r) then [] else Event.frame to (ports.encode r) ∷ [])
      ++ frames_to to rs

  -- The processor behind some more frames.
  abbrev pub sent_to : Processor R S → ℕ → List Response → Processor R S
  sent_to p to rs = record p { out = p.out ++ frames_to to rs }
