-- ===== src/Transports/Wifi/Clients/Turns.antt =====
-- The slots under every sequence of settings changes, turns of the board loop and pushes.
use meshpigeon_firmware.Prelude.{ℕ, ◌+◌, sym, ap, ◌∙◌, inl, length-set}
use meshpigeon_firmware.Processor.Message.{Ports}
use meshpigeon_firmware.Transports.Wifi.{Stack, Wifi}
use meshpigeon_firmware.Transports.Wifi.Clients.{Tcp}
use meshpigeon_firmware.Transports.Wifi.Clients.Slots.{
  count-set_taken, count-set_same, IsBook, book, drop_client-IsBook,
}
use meshpigeon_firmware.Transports.Wifi.Clients.Kept.{apply-IsKept, drive_link-IsKept}
use meshpigeon_firmware.Transports.Wifi.Clients.Lasting.{Turns, IsLasting, Turns_last}

module _ {R S W : Type 0} (ports : Ports R S) (stack : Stack W) (first_sink : ℕ) (tcp : Tcp W) where
  IsBook-IsLasting :
      IsLasting ports stack first_sink tcp (λ w. IsBook (book ports stack first_sink w))
  IsBook-IsLasting = record {
    applied = apply-IsKept ports stack first_sink;
    driven = drive_link-IsKept ports stack first_sink;
    dropped = drop_client-IsBook ports stack first_sink;
    moved = λ w proc v h. h;
    slot_kept = λ w proc v i c same h. record {
      slots = length-set w.clients i c ∙ h.slots;
      counted = h.counted ∙ sym (count-set_same w.clients i c same);
      closed = h.closed;
    };
    admitted = λ w proc v i c inside free taken up h. record {
      slots = length-set w.clients i c ∙ h.slots;
      counted =
          ap (λ (n : ℕ). n + 1) h.counted ∙ sym (count-set_taken w.clients i c inside free taken);
      closed = inl up;
    };
  }

  -- Whatever the clients send, whenever they come and go, and also where their requests change
  -- the Wi-Fi settings in the middle of a drain: there are four slots, `num_clients` is the
  -- number of those in use, and while the server is down no slot is in use.
  pub Turns-IsBook :
      (w v : Wifi R S W)
      → IsBook (book ports stack first_sink w)
      → Turns ports stack first_sink tcp w v
      → IsBook (book ports stack first_sink v)
  Turns-IsBook w v h turns =
      Turns_last ports stack first_sink tcp (λ u. IsBook (book ports stack first_sink u))
        IsBook-IsLasting w v h turns
