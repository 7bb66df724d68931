-- ===== src/Settings/Tests.antt =====
-- The records of the settings on concrete values.
use meshpigeon_firmware.Prelude.{ℕ, ◌≡◌, ◌≢◌, ◌⊎◌, false, length, get_or, refl, List, true, arith}
use meshpigeon_firmware.Framing.Crc.{crc16_ccitt, join_bytes}
use meshpigeon_firmware.Settings.Record.{append_crc, check_crc}
use meshpigeon_firmware.Settings.Radio.{
  RadioSettings, unset, serialize, deserialize, IsValid, deserialize_accepts, deserialize_refuses,
  serialized_size, serialized_version,
}
use meshpigeon_firmware.Settings.Device.{
  defaults, serialize_device, deserialize_device, deserialize_device-serialize_device,
}

abbrev tuned : RadioSettings
tuned = record unset { freq_hz = 868100000; bw_x100khz = 25000; sf = 12; config_epoch = 70000 }

deserialize_accepts_example :
    let s = (deserialize (serialize tuned)).1 in (serialize s ≡ serialize tuned) × IsValid s
unfolding deserialize serialize append_crc check_crc crc16_ccitt join_bytes
deserialize_accepts_example = deserialize_accepts (serialize tuned) (omega arith) refl

-- A sound record of version 7.
abbrev foreign : List ℕ
foreign = serialize (record tuned { version = 7 })

deserialize_refuses_example :
    (((length foreign ≢ serialized_size) ⊎ (check_crc foreign ≡ false))
      × ((deserialize foreign).1 ≡ unset))
    ⊎ ((length foreign ≡ serialized_size)
        × (check_crc foreign ≡ true)
        × (get_or foreign 0 0 ≢ serialized_version)
        × ((deserialize foreign).1 ≡ record unset { version = get_or foreign 0 0 }))
unfolding deserialize serialize append_crc check_crc crc16_ccitt join_bytes
deserialize_refuses_example = deserialize_refuses foreign refl

deserialize_device-serialize_device_example :
    deserialize_device (serialize_device defaults) ≡ (true, defaults)
deserialize_device-serialize_device_example = deserialize_device-serialize_device defaults (record {
  name_size = refl;
  pin_size = refl;
  ssid_size = refl;
  password_size = refl;
  name_ends = refl;
  pin_ends = refl;
  ssid_ends = refl;
  password_ends = refl;
  port_fits = omega arith;
})
