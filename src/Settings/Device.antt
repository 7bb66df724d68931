-- ===== src/Settings/Device.antt =====
-- `DeviceSettings`: the name, the PIN and the Wi-Fi settings, and their 133-byte record.
use meshpigeon_firmware.Prelude.{
  ℕ, zero, suc, ◌+◌, ◌^◌, ◌≤◌, ◌<◌, ◌≡◌, refl, ap, ◌∙◌, sym, List, [], ◌∷◌, ◌++◌, Bool, true, false,
  ◌&&◌, not, arith, ◌==◌, if◌then◌else◌, length, take, drop, set, replicate, get_or, length-append,
  append_assoc, take-append, drop-append, IsBytes, Bool-cases, ◌⊎◌, inl, inr, ==_iff, length-set,
  length-take, length-drop,
}
use meshpigeon_firmware.Framing.Crc.{low_byte, high_byte, join_bytes, join_bytes-split}
use meshpigeon_firmware.Settings.Record.{append_crc, check_crc, check_crc-append_crc}
use meshpigeon_firmware.Settings.Text.{name_max, ssid_max, pass_max, strcmp_eq, default_pin}

pub record DeviceSettings : Type 0 where
  pub name : List ℕ
  pub pin : List ℕ
  pub wifi_enabled : Bool
  pub wifi_ssid : List ℕ
  pub wifi_password : List ℕ
  pub wifi_port : ℕ

-- MESHPIGEON_WIFI_PORT_DEFAULT
abbrev pub wifi_port_default : ℕ
wifi_port_default = 5000

abbrev pub defaults : DeviceSettings
defaults = record {
  name = replicate (name_max + 1) 0;
  pin = default_pin ++ replicate 5 0;
  wifi_enabled = false;
  wifi_ssid = replicate (ssid_max + 1) 0;
  wifi_password = replicate (pass_max + 1) 0;
  wifi_port = wifi_port_default;
}

unfoldable pub pin_is_default : DeviceSettings → Bool
pin_is_default d = strcmp_eq d.pin default_pin

abbrev pub bool_eq : Bool → Bool → Bool
bool_eq true b = b
bool_eq false b = not b

-- `operator==`
unfoldable pub device_eq : DeviceSettings → DeviceSettings → Bool
device_eq d o =
    strcmp_eq d.name o.name
    && (strcmp_eq d.pin o.pin
        && (bool_eq d.wifi_enabled o.wifi_enabled
            && (strcmp_eq d.wifi_ssid o.wifi_ssid
                && (strcmp_eq d.wifi_password o.wifi_password && d.wifi_port == o.wifi_port))))

abbrev pub device_version : ℕ
device_version = 1

abbrev pub device_size : ℕ
device_size = 133

unfoldable pub device_body : DeviceSettings → List ℕ
device_body d =
    device_version ∷ d.name
    ++ (d.pin
        ++ (if d.wifi_enabled then 1 else 0) ∷ d.wifi_ssid
        ++ (d.wifi_password ++ low_byte d.wifi_port ∷ high_byte d.wifi_port ∷ []))

unfoldable pub serialize_device : DeviceSettings → List ℕ
serialize_device d = append_crc (device_body d)

-- What `deserialize` assigns once the version has been accepted; the last byte of each field is
-- overwritten with a NUL.
unfoldable pub device_of : List ℕ → DeviceSettings
device_of bytes =
    let at_pin = drop 22 bytes in
    let at_wifi = drop 9 at_pin in
    let at_ssid = drop 1 at_wifi in
    let at_password = drop 33 at_ssid in
    let at_port = drop 64 at_password in
    record {
      name = set (take 21 (drop 1 bytes)) 20 0;
      pin = set (take 9 at_pin) 8 0;
      wifi_enabled = not (get_or at_wifi 0 0 == 0);
      wifi_ssid = set (take 33 at_ssid) 32 0;
      wifi_password = set (take 64 at_password) 63 0;
      wifi_port = join_bytes (get_or at_port 0 0) (get_or at_port 1 0);
    }

unfoldable pub deserialize_device : List ℕ → Bool × DeviceSettings
deserialize_device bytes =
    if not (length bytes == device_size)
    then (false, defaults)
    else if not (check_crc bytes)
    then (false, defaults)
    else if not (get_or bytes 0 0 == device_version)
    then (false, defaults)
    else (true, device_of bytes)

-- Fields of the right sizes, each ended by a NUL in its last byte.
pub record IsDevice (d : DeviceSettings) : Type 0 where
  pub name_size : length d.name ≡ 21
  pub pin_size : length d.pin ≡ 9
  pub ssid_size : length d.wifi_ssid ≡ 33
  pub password_size : length d.wifi_password ≡ 64
  pub name_ends : get_or d.name 20 1 ≡ 0
  pub pin_ends : get_or d.pin 8 1 ≡ 0
  pub ssid_ends : get_or d.wifi_ssid 32 1 ≡ 0
  pub password_ends : get_or d.wifi_password 63 1 ≡ 0
  pub port_fits : d.wifi_port < 2 ^ 16

take_field : (n : ℕ) (xs ys : List ℕ) → length xs ≡ n → take n (xs ++ ys) ≡ xs
take_field n xs ys h = ap (λ (k : ℕ). take k (xs ++ ys)) (sym h) ∙ take-append xs ys

drop_field : (n : ℕ) (xs ys : List ℕ) → length xs ≡ n → drop n (xs ++ ys) ≡ ys
drop_field n xs ys h = ap (λ (k : ℕ). drop k (xs ++ ys)) (sym h) ∙ drop-append xs ys

set_same : (xs : List ℕ) (i v : ℕ) → get_or xs i (v + 1) ≡ v → set xs i v ≡ xs
set_same [] i v h = refl
set_same (x ∷ xs) zero v h = ap (λ (t : ℕ). t ∷ xs) (sym h)
set_same (x ∷ xs) (suc i) v h = ap (λ (t : List ℕ). x ∷ t) (set_same xs i v h)

device_of-device_body :
    (d : DeviceSettings) (rest : List ℕ) → IsDevice d → device_of (device_body d ++ rest) ≡ d
device_of-device_body d rest v =
    let at_port = low_byte d.wifi_port ∷ high_byte d.wifi_port ∷ rest in
    let at_password = d.wifi_password ++ at_port in
    let at_ssid = d.wifi_ssid ++ at_password in
    let at_wifi = (if d.wifi_enabled then 1 else 0) ∷ at_ssid in
    let at_pin = d.pin ++ at_wifi in
    let whole : device_body d ++ rest ≡ device_version ∷ d.name ++ at_pin =
      unfold device_body in simp append_assoc in
    let flag : not ((if d.wifi_enabled then 1 else 0) == 0) ≡ d.wifi_enabled =
      elim (Bool-cases d.wifi_enabled) [ inl e ↦ rw e | inr e ↦ rw e ] in
    ap device_of whole
    ∙ unfold device_of in
      rw (
        take_field 21 d.name at_pin v.name_size,
        drop_field 21 d.name at_pin v.name_size,
        take_field 9 d.pin at_wifi v.pin_size,
        drop_field 9 d.pin at_wifi v.pin_size,
        take_field 33 d.wifi_ssid at_password v.ssid_size,
        drop_field 33 d.wifi_ssid at_password v.ssid_size,
        take_field 64 d.wifi_password at_port v.password_size,
        drop_field 64 d.wifi_password at_port v.password_size,
        set_same d.name 20 0 v.name_ends,
        set_same d.pin 8 0 v.pin_ends,
        set_same d.wifi_ssid 32 0 v.ssid_ends,
        set_same d.wifi_password 63 0 v.password_ends,
        flag,
        join_bytes-split d.wifi_port v.port_fits,
      )

length-append_crc : (bs : List ℕ) → length (append_crc bs) ≡ length bs + 2
unfolding append_crc
length-append_crc bs = length-append bs _

length-device_body : (d : DeviceSettings) → IsDevice d → length (device_body d) ≡ 131
unfolding device_body
length-device_body d v = simp (length-append, v.name_size, v.pin_size, v.ssid_size, v.password_size)

pub length-serialize_device :
    (d : DeviceSettings) → IsDevice d → length (serialize_device d) ≡ device_size
unfolding serialize_device
length-serialize_device d v =
    omega (arith, length-append_crc (device_body d), length-device_body d v)

-- What was serialized is read back, field for field.
pub deserialize_device-serialize_device :
    (d : DeviceSettings) → IsDevice d → deserialize_device (serialize_device d) ≡ (true, d)
unfolding deserialize_device serialize_device
deserialize_device-serialize_device d v =
    let size : length (append_crc (device_body d)) ≡ 133 =
      omega (arith, length-append_crc (device_body d), length-device_body d v) in
    let version : get_or (append_crc (device_body d)) 0 0 ≡ 1 =
      unfold append_crc device_body in refl in
    let back : device_of (append_crc (device_body d)) ≡ d =
      unfold append_crc in device_of-device_body d _ v in
    rw (size, check_crc-append_crc (device_body d), version)
      (ap (λ (t : DeviceSettings). (true, t)) back)

set_ends :
    (n at : ℕ) (b : List ℕ)
    → at + suc n ≤ length b
    → get_or (set (take (suc n) (drop at b)) n 0) n 1 ≡ 0
set_ends n at b h =
    get_or_set (take (suc n) (drop at b)) n
      (omega (arith, length-take {0} (suc n) (drop at b), length-drop {0} at b))
  where
    get_or_set : (xs : List ℕ) (i : ℕ) → i < length xs → get_or (set xs i 0) i 1 ≡ 0
    get_or_set [] i h = absurd (omega arith)
    get_or_set (x ∷ xs) zero h = refl
    get_or_set (x ∷ xs) (suc i) h = get_or_set xs i (omega arith)

set_size :
    (n at : ℕ) (b : List ℕ)
    → at + suc n ≤ length b
    → length (set (take (suc n) (drop at b)) n 0) ≡ suc n
set_size n at b h = omega (
  arith,
  length-set {0} (take (suc n) (drop at b)) n 0,
  length-take {0} (suc n) (drop at b),
  length-drop {0} at b,
)

device_of-IsDevice : (b : List ℕ) → IsBytes b → length b ≡ 133 → IsDevice (device_of b)
unfolding device_of
device_of-IsDevice b h size =
    let pin_at = drop 22 b in
    let ssid_at = drop 1 (drop 9 pin_at) in
    let password_at = drop 33 ssid_at in
    let pin_left : length pin_at ≡ 111 = omega (arith, length-drop {0} 22 b) in
    let ssid_left : length ssid_at ≡ 101 =
      omega (arith, length-drop {0} 9 pin_at, length-drop {0} 1 (drop 9 pin_at)) in
    let password_left : length password_at ≡ 68 = omega (arith, length-drop {0} 33 ssid_at) in
    record {
      name_size = set_size 20 1 b (omega arith);
      pin_size = set_size 8 0 pin_at (omega arith);
      ssid_size = set_size 32 0 ssid_at (omega arith);
      password_size = set_size 63 0 password_at (omega arith);
      name_ends = set_ends 20 1 b (omega arith);
      pin_ends = set_ends 8 0 pin_at (omega arith);
      ssid_ends = set_ends 32 0 ssid_at (omega arith);
      password_ends = set_ends 63 0 password_at (omega arith);
      port_fits = unfold join_bytes in omega arith;
    }

-- A record that is refused leaves the defaults behind, and one that is accepted has its fields
-- ended, whatever bytes it held.
pub deserialize_device_ends :
    (b : List ℕ)
    → IsBytes b
    → (((deserialize_device b).0 ≡ true) × IsDevice (deserialize_device b).1)
      ⊎ (((deserialize_device b).0 ≡ false) × ((deserialize_device b).1 ≡ defaults))
unfolding deserialize_device
deserialize_device_ends b h = elim (Bool-cases (length b == 133)) [
  | inr e ↦ rw e (inr (refl, refl))
  | inl size ↦ elim (Bool-cases (check_crc b)) [
    | inr e ↦ rw (size, e) (inr (refl, refl))
    | inl sound ↦ elim (Bool-cases (get_or b 0 0 == 1)) [
      | inr e ↦ rw (size, sound, e) (inr (refl, refl))
      | inl version ↦
          rw (size, sound, version) (inl (refl, device_of-IsDevice b h ((==_iff _ _).0 size)))
    ]
  ]
]
