-- ===== src/Settings/Memory.antt =====
-- `MemorySettingsStore` of lib/meshpigeon-core (settings.h): the settings of the simulator.
use meshpigeon_firmware.Prelude.{Bool, true, false, Option, none, some, if◌then◌else◌}
use meshpigeon_firmware.Settings.Radio.{RadioSettings, unset}
use meshpigeon_firmware.Settings.Device.{DeviceSettings, defaults}

pub record MemorySettings : Type 0 where
  pub saved : RadioSettings
  pub have : Bool
  pub saved_device : DeviceSettings
  pub have_device : Bool

abbrev pub nothing_saved : MemorySettings
nothing_saved = record { saved = unset; have = false; saved_device = defaults; have_device = false }

unfoldable pub save : MemorySettings → RadioSettings → MemorySettings
save m s = record m { saved = s; have = true }

unfoldable pub load : MemorySettings → Option RadioSettings
load m = if m.have then some m.saved else none

unfoldable pub save_device : MemorySettings → DeviceSettings → MemorySettings
save_device m s = record m { saved_device = s; have_device = true }

unfoldable pub load_device : MemorySettings → DeviceSettings
load_device m = if m.have_device then m.saved_device else defaults

unfoldable pub clear_device : MemorySettings → MemorySettings
clear_device m = record m { have_device = false }
