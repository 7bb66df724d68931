-- ===== src/Node/Setup.antt =====
-- `setup` of src/main.cpp on the nRF52: the settings of the file system, the processor over the LoRa
-- driver, the USB console and the Bluetooth sink in its registry, and the name that is advertised.
use meshpigeon_firmware.Prelude.{
  none, ℕ, ◌-◌, ◌^◌, ◌≤◌, ◌≡◌, ◌≢◌, refl, sym, ap, ◌∙◌, subst, List, [], Option, All, ◌∷◌, Bool,
  true, false, some, arith, if◌then◌else◌, ◌==◌, if_holds, inl, inr, ◌⊎◌,
}
use mathlib.Core.Bool.{false≢true}
use meshpigeon_firmware.Store.{create}
use meshpigeon_firmware.Store.Append.{create-Retains}
use meshpigeon_firmware.Clock
use meshpigeon_firmware.Clock.{set_boot_count}
use meshpigeon_firmware.Settings.Device.{
  DeviceSettings, IsDevice, pin_is_default, wifi_port_default, serialize_device, device_size,
}
use meshpigeon_firmware.Board.{
  FilePath, FileSystem, whole, device_from, save_radio, load_radio, save_device_file,
  load_device_file, clear_device_file, count_boot, save_boot_count,
}
use meshpigeon_firmware.Board.Crash.{IsFileSystem, stages, write_record_other}
use meshpigeon_firmware.Board.Kept.{All-imp, not_tmp, save_device_survives}
use meshpigeon_firmware.Lora.{Chip, LoraRadio}
use meshpigeon_firmware.Processor.Message.{Ports, Hooks}
use meshpigeon_firmware.Processor.State.{
  Processor, create_processor, set_hooks, add_sink, effective_name, is_authorized,
}
use meshpigeon_firmware.Processor.Handle.{boot}
use meshpigeon_firmware.Processor.Life.Retained.{Keeps}
use meshpigeon_firmware.Node.OnLora.{over_lora}

-- What a board is built with: kStoreBytes, kBoardName, kFwVersion, its hooks, and the numbers that
-- stand for the USB console and the Bluetooth sink.
pub record Build : Type 0 where
  pub store_bytes : ℕ
  pub board_name : List ℕ
  pub fw_version : List ℕ
  pub hooks : Hooks
  pub usb : ℕ
  pub ble : ℕ

distinct : FilePath.boots_bin ≢ FilePath.dev_bin
distinct e = absurd (false≢true (sym (ap is_boots e)))
  where
    is_boots : FilePath → Bool
    is_boots FilePath.boots_bin = true
    is_boots FilePath.tmp_bin = false
    is_boots FilePath.radio_bin = false
    is_boots FilePath.dev_bin = false

module _ {C F : Type 0} (chip : Chip C) (codec : Ports (LoraRadio C) F) (fs : FileSystem F) where
  -- The processor's settings store is the file system.
  abbrev pub flash_ports : Ports (LoraRadio C) F
  flash_ports = record (over_lora chip codec) {
    save = λ f s. (save_radio fs f s).0;
    load = load_radio fs;
    save_device = λ f d. (save_device_file fs f d).0;
    load_device = λ f. (load_device_file fs f).1;
    clear_device = clear_device_file fs;
  }

  -- The node behind `setup`, and its advertised name.
  unfoldable pub setup : Build → LoraRadio C → F → Processor (LoraRadio C) F × List ℕ
  setup b radio f =
      let (kept, n) = count_boot fs f in
      let store = create b.store_bytes in
      let clock = set_boot_count Clock.start n in
      let made = create_processor store clock kept radio b.board_name b.fw_version in
      let booted = (boot flash_ports (set_hooks made (some b.hooks))).1 in
      let node = (add_sink (add_sink booted b.usb).1 b.ble).1 in (node, effective_name node)

  -- The settings in use behind `setup`, of those that are stored.
  abbrev pub in_use : DeviceSettings → DeviceSettings
  in_use d = record d { wifi_port = if d.wifi_port == 0 then wifi_port_default else d.wifi_port }

  -- A node that came up with the device settings `d`.
  abbrev pub CameUp : Build → DeviceSettings → Processor (LoraRadio C) F → ℕ → Type 0
  CameUp b d p c =
      (p.device ≡ in_use d)
      × (is_authorized p c ≡ pin_is_default d)
      × Keeps (p.store, p.clock) (2 ^ 32 - 2) []
      × (p.sinks ≡ b.usb ∷ b.ble ∷ [])
      × (p.tx_pending ≡ false)
      × (p.out ≡ [])

  setup-CameUp :
      (b : Build) (radio : LoraRadio C) (f : F) (c : ℕ)
      → b.store_bytes ≤ 2 ^ 31
      → CameUp b (load_device_file fs (count_boot fs f).0).1 (setup b radio f).0 c
  unfolding setup boot add_sink is_authorized pin_is_default create_processor set_hooks
      set_boot_count create
  setup-CameUp b radio f c small =
      let Up : Bool × Processor (LoraRadio C) F → Type 0 = λ r.
        CameUp b (load_device_file fs (count_boot fs f).0).1
          (add_sink (add_sink r.1 b.usb).1 b.ble).1 c in
      let kept : Keeps (create b.store_bytes, set_boot_count Clock.start (count_boot fs f).1)
          (2 ^ 32 - 2) [] =
        record {
          retains = (create-Retains b.store_bytes small).0;
          reading = omega arith;
          numbers = omega arith;
        } in
      if_holds Up (codec.begin radio).1 _ _ (refl, refl, kept, refl, refl, refl)
        (refl, refl, kept, refl, refl, refl)

  module _ (law : IsFileSystem F fs) where
    -- The count of the boots is another file.
    load_device-count_boot :
        (g : F) → load_device_file fs (count_boot fs g).0 ≡ load_device_file fs g
    unfolding load_device_file count_boot save_boot_count
    load_device-count_boot g =
        ap (λ (o : Option (List ℕ)). device_from (whole device_size o))
          (write_record_other fs law g FilePath.boots_bin FilePath.dev_bin _
            (not_tmp FilePath.dev_bin refl) distinct)

    CameUp-with :
        (b : Build) (radio : LoraRadio C) (g : F) (c : ℕ) (loaded : Bool × DeviceSettings)
        → b.store_bytes ≤ 2 ^ 31
        → load_device_file fs g ≡ loaded
        → CameUp b loaded.1 (setup b radio g).0 c
    CameUp-with b radio g c loaded small e =
        subst (λ (d : Bool × DeviceSettings). CameUp b d.1 (setup b radio g).0 c)
          (load_device-count_boot g ∙ e) (setup-CameUp b radio g c small)

    -- A restart of the node while device settings `d` are saved, or behind it, where no old temporary
    -- file is left in the way of the save. After a save that was done `setup` comes up with `d`, after
    -- one that failed with the old settings, and where the power goes in the middle with the one or
    -- the other: the PIN in force is the one of these settings, so that a connection `c` is authorized
    -- only if that PIN is the factory default; the store is empty and has 2 ^ 32 - 2 sequence numbers
    -- left; the console and the Bluetooth sink are registered; no transmission is waited for; and
    -- nothing was sent to a client.
    pub setup_restores :
        (b : Build) (radio : LoraRadio C) (f : F) (d : DeviceSettings) (c : ℕ)
        → b.store_bytes ≤ 2 ^ 31
        → IsDevice d
        → fs.read_file (fs.remove f FilePath.tmp_bin).0 FilePath.tmp_bin ≡ none
        → let old = (load_device_file fs f).1 in
          let (g, done) = save_device_file fs f d in
          (((done ≡ true) × CameUp b d (setup b radio g).0 c)
            ⊎ ((done ≡ false) × CameUp b old (setup b radio g).0 c))
          × All
              (λ g. CameUp b old (setup b radio g).0 c ⊎ CameUp b d (setup b radio g).0 c)
              (stages fs f FilePath.dev_bin (serialize_device d))
    setup_restores b radio f d c small valid no_tmp =
        let old = (load_device_file fs f).1 in
        let (end, kept) = save_device_survives fs law f d valid no_tmp in
        (
          elim end [
            | inl (done, new) ↦ inl (done, CameUp-with b radio _ c (true, d) small new)
            | inr (failed, same) ↦
                inr (failed, CameUp-with b radio _ c (load_device_file fs f) small same)
          ],
          All-imp
              (λ (g : F).
                (load_device_file fs g ≡ load_device_file fs f)
                ⊎ (load_device_file fs g ≡ (true, d)))
              (λ (g : F). CameUp b old (setup b radio g).0 c ⊎ CameUp b d (setup b radio g).0 c)
              (stages fs f FilePath.dev_bin (serialize_device d))
              (λ g how. elim how [
                | inl same ↦ inl (CameUp-with b radio g c (load_device_file fs f) small same)
                | inr new ↦ inr (CameUp-with b radio g c (true, d) small new)
              ])
              kept,
        )
