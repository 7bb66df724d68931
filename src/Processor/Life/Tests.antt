-- ===== src/Processor/Life/Tests.antt =====
-- A run that fills the store of the node of the processor's tests.
use meshpigeon_firmware.Prelude.{ℕ, List, [], ◌∷◌, some, arith}
use meshpigeon_firmware.Store.{StoredPacket, create}
use meshpigeon_firmware.Store.Append.{create-Retains}
use meshpigeon_firmware.Processor.Message.{Ports, Op}
use meshpigeon_firmware.Processor.Life.{Action, run}
use meshpigeon_firmware.Processor.Life.Retained.{Keeps}
use meshpigeon_firmware.Processor.Life.Kept.{History, run-History}
use meshpigeon_firmware.Processor.Tests.{counting, node}

-- Every envelope asks to send two bytes.
abbrev sending : Ports ℕ ℕ
sending = record counting {
  decode = λ bytes. some (record { id = 9; op = Op.send_packet (8 ∷ 9 ∷ []) });
}

-- Two packets are heard, and connections 1 and 2 ask to send; the pool has room for one packet.
abbrev busy_day : List Action
busy_day =
    Action.heard 200 5 (1 ∷ 2 ∷ 3 ∷ [])
    ∷ Action.tick 400007
    ∷ Action.heard 200 5 (4 ∷ [])
    ∷ Action.envelope (7 ∷ []) 1
    ∷ Action.envelope (7 ∷ []) 2
    ∷ []

run-History_example :
    let q = run sending (λ r. r) node busy_day in
    (fs : List StoredPacket) × Keeps (q.store, q.clock) 90 fs
    × History sending (λ r. r) node busy_day [] fs
run-History_example =
    run-History sending (λ r. r) node busy_day 90 []
      (omega arith, (omega arith, (omega arith, (tt, (tt, tt)))))
      (record {
        retains = (create-Retains 40 (omega arith)).0;
        reading = omega arith;
        numbers = unfold create in omega arith;
      })
