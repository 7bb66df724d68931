-- ===== src/Board/Kept.antt =====
-- What the records give back: the settings and the boot count after a save, a cut of the power, or
-- a reset of the device.
use meshpigeon_firmware.Prelude.{
  ℕ, ◌+◌, ◌/◌, ◌%◌, ◌^◌, ◌≡◌, ◌≢◌, refl, sym, ap, ◌∙◌, ◌⊎◌, inl, inr, List, [], ◌∷◌, Bool, true,
  false, Option, none, some, arith, ◌==◌, length, take, take-length, All, ==_refl,
}
use mathlib.Core.Bool.{false≢true}
use meshpigeon_firmware.Settings.Record.{join_u32-split}
use meshpigeon_firmware.Settings.Device.{
  DeviceSettings, IsDevice, defaults, serialize_device, device_size,
  deserialize_device-serialize_device, length-serialize_device,
}
use meshpigeon_firmware.Board.{
  FilePath, FileSystem, whole, device_from, boots_from, save_device_file, load_device_file,
  clear_device_file, load_boot_count, save_boot_count, count_boot,
}
use meshpigeon_firmware.Board.Crash.{IsFileSystem, stages, OldOrNew, write_record_survives}

pub All-imp {ℓ κ κ'} :
    {A : Type ℓ} (P : A → Type κ) (Q : A → Type κ') (xs : List A)
    → ((x : A) → P x → Q x)
    → All P xs
    → All Q xs
All-imp P Q [] h a = tt
All-imp P Q (x ∷ xs) h a = (h x a.0, All-imp P Q xs h a.1)

whole_all : (size : ℕ) (bytes : List ℕ) → length bytes ≡ size → whole size (some bytes) ≡ some bytes
whole_all size bytes h =
    let all : take size bytes ≡ bytes = ap (λ (n : ℕ). take n bytes) (sym h) ∙ take-length bytes in
    let fits : (length bytes == size) ≡ true =
      ap (λ (n : ℕ). length bytes == n) (sym h) ∙ ==_refl (length bytes) in
    rw (all, fits) refl

abbrev is_tmp : FilePath → Bool
is_tmp FilePath.tmp_bin = true
is_tmp FilePath.radio_bin = false
is_tmp FilePath.boots_bin = false
is_tmp FilePath.dev_bin = false

pub not_tmp : (path : FilePath) → is_tmp path ≡ false → FilePath.tmp_bin ≢ path
not_tmp path h e = absurd (false≢true (sym h ∙ ap is_tmp (sym e)))

module _ {F : Type 0} (fs : FileSystem F) (law : IsFileSystem F fs) where
  -- Device settings over a cut of the power, where no old temporary file is left in the way: a save that says that it was done gives them back on
  -- the next boot, field for field, and any other changes nothing; and wherever the power goes while
  -- they are saved, the next boot loads the old settings or the new.
  pub save_device_survives :
      (f : F) (d : DeviceSettings)
      → IsDevice d
      → fs.read_file (fs.remove f FilePath.tmp_bin).0 FilePath.tmp_bin ≡ none
      → let (g, done) = save_device_file fs f d in
        (((done ≡ true) × (load_device_file fs g ≡ (true, d)))
          ⊎ ((done ≡ false) × (load_device_file fs g ≡ load_device_file fs f)))
        × All
            (λ g.
              (load_device_file fs g ≡ load_device_file fs f) ⊎ (load_device_file fs g ≡ (true, d)))
            (stages fs f FilePath.dev_bin (serialize_device d))
  unfolding save_device_file load_device_file
  save_device_survives f d valid no_tmp =
      let load : Option (List ℕ) → Bool × DeviceSettings = λ o. device_from (whole device_size o) in
      let buf = serialize_device d in
      let back : load (some buf) ≡ (true, d) =
        ap device_from (whole_all device_size buf (length-serialize_device d valid))
        ∙ deserialize_device-serialize_device d valid in
      let (end, kept) =
        write_record_survives fs law f FilePath.dev_bin buf (not_tmp FilePath.dev_bin refl)
          no_tmp in
      (
        elim end [
          | inl (done, new) ↦ inl (done, ap load new ∙ back)
          | inr (failed, old) ↦ inr (failed, ap load old)
        ],
        All-imp (OldOrNew fs f FilePath.dev_bin buf)
            (λ (g : F).
              (load_device_file fs g ≡ load_device_file fs f) ⊎ (load_device_file fs g ≡ (true, d)))
            (stages fs f FilePath.dev_bin buf)
            (λ g how. elim how [ inl old ↦ inl (ap load old) | inr new ↦ inr (ap load new ∙ back) ])
            kept,
      )

  -- A factory reset of the settings, where the file could be removed: what the next boot loads is
  -- the defaults.
  pub load_device_file-clear_device_file :
      (f : F)
      → (fs.remove f FilePath.dev_bin).1 ≡ true
      → load_device_file fs (clear_device_file fs f) ≡ (false, defaults)
  unfolding load_device_file clear_device_file
  load_device_file-clear_device_file f done = elim (law.removes f FilePath.dev_bin) [
    | inl (yes_done, gone) ↦ ap (λ o. device_from (whole device_size o)) gone
    | inr (failed, kept) ↦ absurd (false≢true (sym failed ∙ done))
  ]

  -- Where no old temporary file is left in the way, the boot count goes up by one at each boot, from 0 where none was kept: where the write was done
  -- the next boot reads the new count, and wherever the power goes in between, the old one or the
  -- new.
  pub count_boot_lem :
      (f : F)
      → fs.read_file (fs.remove f FilePath.tmp_bin).0 FilePath.tmp_bin ≡ none
      → let (g, n) = count_boot fs f in
        (n ≡ (load_boot_count fs f + 1) % 2 ^ 32)
        × ((load_boot_count fs g ≡ n) ⊎ (load_boot_count fs g ≡ load_boot_count fs f))
        × All
            (λ h. (load_boot_count fs h ≡ load_boot_count fs f) ⊎ (load_boot_count fs h ≡ n))
            (stages fs f FilePath.boots_bin
              (n % 256 ∷ n / 2 ^ 8 % 256 ∷ n / 2 ^ 16 % 256 ∷ n / 2 ^ 24 % 256 ∷ []))
  unfolding count_boot save_boot_count
  count_boot_lem f no_tmp =
      let load : Option (List ℕ) → ℕ = λ o. boots_from (whole 4 o) in
      let n = (load_boot_count fs f + 1) % 2 ^ 32 in
      let buf = n % 256 ∷ n / 2 ^ 8 % 256 ∷ n / 2 ^ 16 % 256 ∷ n / 2 ^ 24 % 256 ∷ [] in
      let back : load (some buf) ≡ n = join_u32-split n (omega arith) in
      let (end, kept) =
        write_record_survives fs law f FilePath.boots_bin buf (not_tmp FilePath.boots_bin refl)
          no_tmp in
      let loads : (h : F) → load_boot_count fs h ≡ load (fs.read_file h FilePath.boots_bin) =
        λ h. unfold load_boot_count in refl in
      (
        refl,
        elim end [
          | inl (done, new) ↦ inl (loads _ ∙ ap load new ∙ back)
          | inr (failed, old) ↦ inr (loads _ ∙ ap load old ∙ sym (loads f))
        ],
        All-imp (OldOrNew fs f FilePath.boots_bin buf)
            (λ (h : F). (load_boot_count fs h ≡ load_boot_count fs f) ⊎ (load_boot_count fs h ≡ n))
            (stages fs f FilePath.boots_bin buf)
            (λ h how. elim how [
              | inl old ↦ inl (loads h ∙ ap load old ∙ sym (loads f))
              | inr new ↦ inr (loads h ∙ ap load new ∙ back)
            ])
            kept,
      )
