-- ===== src/Board.antt =====
-- The board's side of src/main.cpp: what is kept over a restart. The file system of the nRF52
-- (littlefs) and the key-value store of the ESP32 (NVS) are parameters.
pub mod Disk
pub mod Crash
pub mod Kept
use meshpigeon_firmware.Prelude.{
  ℕ, ◌+◌, ◌*◌, ◌/◌, ◌%◌, ◌^◌, ◌≤◌, ◌≡◌, ◌≢◌, List, [], ◌∷◌, Bool, true, false, ◌&&◌, not, Option,
  none, some, ◌==◌, if◌then◌else◌, length, take, get_or,
}
use meshpigeon_firmware.Settings.Record.{join_u32}
use meshpigeon_firmware.Settings.Radio.{RadioSettings, serialize, deserialize, serialized_size}
use meshpigeon_firmware.Settings.Device.{
  DeviceSettings, defaults, serialize_device, deserialize_device, device_size,
}

-- "/tmp.bin", "/radio.bin", "/boots.bin", "/dev.bin"
pub data FilePath : Type 0 where
  tmp_bin : FilePath
  radio_bin : FilePath
  boots_bin : FilePath
  dev_bin : FilePath

-- The file system, with states in `F`. `read_file` gives the content of a file that exists.
-- `remove`, `open_write` and `rename` say whether they were done, `write` how many bytes it wrote behind what
-- the file had.
pub record FileSystem (F : Type 0) : Type 0 where
  pub read_file : F → FilePath → Option (List ℕ)
  pub remove : F → FilePath → F × Bool
  pub open_write : F → FilePath → F × Bool
  pub write : F → FilePath → List ℕ → F × ℕ
  pub close : F → FilePath → F
  pub rename : F → FilePath → FilePath → F × Bool

-- The key-value store, with states in `N`: the keys "radio", "dev" and "boots".
pub data NvsKey : Type 0 where
  radio_key : NvsKey
  dev_key : NvsKey
  boots_key : NvsKey

pub record Nvs (N : Type 0) : Type 0 where
  pub get_bytes : N → NvsKey → Option (List ℕ)
  pub put_bytes : N → NvsKey → List ℕ → N × ℕ
  pub remove_key : N → NvsKey → N
  pub get_ulong : N → NvsKey → Option ℕ
  pub put_ulong : N → NvsKey → ℕ → N

-- The first `size` bytes of a file, where it has them.
abbrev pub whole : ℕ → Option (List ℕ) → Option (List ℕ)
whole size none = none
whole size (some bytes) = if length (take size bytes) == size then some (take size bytes) else none

abbrev pub radio_from : Option (List ℕ) → Option RadioSettings
radio_from none = none
radio_from (some bytes) = let (ok, s) = deserialize bytes in if ok then some s else none

abbrev pub device_from : Option (List ℕ) → Bool × DeviceSettings
device_from none = (false, defaults)
device_from (some bytes) = deserialize_device bytes

abbrev pub boots_from : Option (List ℕ) → ℕ
boots_from none = 0
boots_from (some bytes) =
    join_u32 (get_or bytes 0 0) (get_or bytes 1 0) (get_or bytes 2 0) (get_or bytes 3 0)

module _ {F : Type 0} (fs : FileSystem F) where
  -- A temporary file, then the rename over the target. Whether an old temporary file could be
  -- removed is not asked.
  unfoldable pub write_record : F → FilePath → List ℕ → F × Bool
  write_record f path buf =
      let (opened, is_open) = fs.open_write (fs.remove f FilePath.tmp_bin).0 FilePath.tmp_bin in
      let (written, n) = fs.write opened FilePath.tmp_bin buf in
      let closed = fs.close written FilePath.tmp_bin in
      let renamed = fs.rename closed FilePath.tmp_bin path in
      if not is_open then (opened, false) else if n == length buf then renamed else (closed, false)

  unfoldable pub save_radio : F → RadioSettings → F × Bool
  save_radio f s = write_record f FilePath.radio_bin (serialize s)

  unfoldable pub load_radio : F → Option RadioSettings
  load_radio f = radio_from (whole serialized_size (fs.read_file f FilePath.radio_bin))

  unfoldable pub save_device_file : F → DeviceSettings → F × Bool
  save_device_file f d = write_record f FilePath.dev_bin (serialize_device d)

  unfoldable pub load_device_file : F → Bool × DeviceSettings
  load_device_file f = device_from (whole device_size (fs.read_file f FilePath.dev_bin))

  unfoldable pub clear_device_file : F → F
  clear_device_file f = (fs.remove f FilePath.dev_bin).0

  -- "/boots.bin": four bytes, lowest first.
  unfoldable pub load_boot_count : F → ℕ
  load_boot_count f = boots_from (whole 4 (fs.read_file f FilePath.boots_bin))

  unfoldable pub save_boot_count : F → ℕ → F
  save_boot_count f n =
      (write_record f FilePath.boots_bin
        (n % 256 ∷ n / 2 ^ 8 % 256 ∷ n / 2 ^ 16 % 256 ∷ n / 2 ^ 24 % 256 ∷ [])).0

  -- The count of this boot, as `setup` takes and keeps it.
  unfoldable pub count_boot : F → F × ℕ
  count_boot f = let n = (load_boot_count f + 1) % 2 ^ 32 in (save_boot_count f n, n)

module _ {N : Type 0} (nvs : Nvs N) where
  unfoldable pub save_radio_nvs : N → RadioSettings → N × Bool
  save_radio_nvs s t =
      let buf = serialize t in
      let (next, n) = nvs.put_bytes s NvsKey.radio_key buf in (next, n == length buf)

  -- Only a blob of the record's size is read.
  abbrev exactly : ℕ → Option (List ℕ) → Option (List ℕ)
  exactly size none = none
  exactly size (some bytes) = if length bytes == size then some bytes else none

  unfoldable pub load_radio_nvs : N → Option RadioSettings
  load_radio_nvs s = radio_from (exactly serialized_size (nvs.get_bytes s NvsKey.radio_key))

  unfoldable pub save_device_nvs : N → DeviceSettings → N × Bool
  save_device_nvs s d =
      let buf = serialize_device d in
      let (next, n) = nvs.put_bytes s NvsKey.dev_key buf in (next, n == length buf)

  unfoldable pub load_device_nvs : N → Bool × DeviceSettings
  load_device_nvs s = device_from (exactly device_size (nvs.get_bytes s NvsKey.dev_key))

  unfoldable pub clear_device_nvs : N → N
  clear_device_nvs s = nvs.remove_key s NvsKey.dev_key

  abbrev or_zero : Option ℕ → ℕ
  or_zero none = 0
  or_zero (some n) = n

  unfoldable pub load_boot_count_nvs : N → ℕ
  load_boot_count_nvs s = or_zero (nvs.get_ulong s NvsKey.boots_key)

  unfoldable pub save_boot_count_nvs : N → ℕ → N
  save_boot_count_nvs s n = nvs.put_ulong s NvsKey.boots_key n
