-- ===== src/Node/BoardHooks.antt =====
-- `BoardHooks` of src/main.cpp, of which the battery's and the port's readings are parameters.
use meshpigeon_firmware.Prelude.{
  ℕ, ◌+◌, ◌/◌, ◌%◌, ◌^◌, ◌<◌, ◌≡◌, refl, sym, ap, ◌∙◌, List, [], ◌∷◌, ◌++◌, Bool, true, false, ◌&&◌,
  Option, none, some, arith, ltb, ◌==◌, get_or, if◌then◌else◌, length, replicate,
}
use meshpigeon_firmware.Settings.Text.{copy_str, strlen, str_of}
use meshpigeon_firmware.Processor.Message.{Hooks, Status}
use meshpigeon_firmware.Processor.State.{Processor, effective_name, default_name_prefix}

-- "%02X"
unfoldable pub hex_digit : ℕ → ℕ
hex_digit n = if ltb n 10 then 48 + n else 55 + n

abbrev pub hex_byte : ℕ → List ℕ
hex_byte a = hex_digit (a / 16) ∷ hex_digit (a % 16) ∷ []

-- The last two bytes of the Bluetooth address, the higher one first, where the stack is up.
unfoldable pub mac_suffix : Option (ℕ × ℕ) → List ℕ
mac_suffix none = 0 ∷ 0 ∷ 0 ∷ 0 ∷ 0 ∷ []
mac_suffix (some (high, low)) = hex_byte high ++ hex_byte low ++ 0 ∷ []

-- "meshpigeon-%s"
abbrev pub wifi_hostname : Option (ℕ × ℕ) → List ℕ
wifi_hostname address =
    copy_str 24
      (109 ∷ 101 ∷ 115 ∷ 104 ∷ 112 ∷ 105 ∷ 103 ∷ 101 ∷ 111 ∷ 110 ∷ 45 ∷ mac_suffix address)

-- A value that does not fit is neither written nor counted.
unfoldable pub add_capability : ℕ → Bool → ℕ → List ℕ → List ℕ
add_capability max wanted c out = if wanted && ltb (length out) max then out ++ c ∷ [] else out

unfoldable pub fill_capabilities : Bool → Bool → ℕ → List ℕ
fill_capabilities has_wifi has_battery max = add_capability max true 4 (
    add_capability max true 3 (add_capability max has_battery 2 (add_capability max has_wifi 1 [])))

-- What the build and the hardware say at the moment: `wifi` are the client count and `fill_status`
-- of the Wi-Fi transport, where the build has one.
pub record Facts : Type 0 where
  pub address : Option (ℕ × ℕ)
  pub battery_mv : ℕ
  pub has_battery : Bool
  pub ble_clients : ℕ
  pub usb_open : Bool
  pub wifi : Option (ℕ × (Status → Status))

unfoldable pub board_hooks : Facts → Hooks
board_hooks b = record {
  battery_mv = b.battery_mv;
  mac_suffix = λ out. mac_suffix b.address;
  ble_clients = b.ble_clients;
  usb_cdc_clients = if b.usb_open then 1 else 0;
  wifi_tcp_clients = elim b.wifi [ none ↦ 0 | some (clients, status) ↦ clients % 2 ^ 8 ];
  fill_status = elim b.wifi [
    | none ↦ λ s. record s { wifi_state = 1 }
    | some (clients, status) ↦ status
  ];
  wifi_supported = elim b.wifi [ none ↦ false | some (clients, status) ↦ true ];
  capabilities = λ max.
      fill_capabilities (elim b.wifi [ none ↦ false | some (clients, status) ↦ true ]) b.has_battery
        max;
}

digit_not_nul : (n : ℕ) → (hex_digit n == 0) ≡ false
unfolding hex_digit
digit_not_nul n = ground arith

digit_injective : (m n : ℕ) → m < 16 → n < 16 → hex_digit m ≡ hex_digit n → m ≡ n
unfolding hex_digit
digit_injective m n h k e = ground arith

byte_of_digits :
    (a b : ℕ)
    → a < 256
    → b < 256
    → hex_digit (a / 16) ≡ hex_digit (b / 16)
    → hex_digit (a % 16) ≡ hex_digit (b % 16)
    → a ≡ b
byte_of_digits a b small small' high low =
    let upper = digit_injective (a / 16) (b / 16) (omega arith) (omega arith) high in
    let lower = digit_injective (a % 16) (b % 16) (omega arith) (omega arith) low in
    omega (arith, upper, lower)

unfoldable derived_name : ℕ → ℕ → List ℕ
derived_name high low = default_name_prefix ++ hex_byte high ++ hex_byte low ++ replicate 6 0

derived_name_lem :
    {R S : Type 0} (p : Processor R S) (b : Facts) (high low : ℕ)
    → p.hooks ≡ some (board_hooks b)
    → b.address ≡ some (high, low)
    → get_or p.device.name 0 0 ≡ 0
    → effective_name p ≡ derived_name high low
unfolding effective_name board_hooks mac_suffix copy_str strlen str_of derived_name
derived_name_lem p b high low hooks address unnamed =
    rw (hooks, address, unnamed)
      (rw
        (
          digit_not_nul (high / 16),
          digit_not_nul (high % 16),
          digit_not_nul (low / 16),
          digit_not_nul (low % 16),
        )
        refl)

-- The names of two boards that have none of their own and whose Bluetooth stacks are up: they are
-- the same only where the last two bytes of the addresses are the same, whatever else the boards
-- are and have.
pub effective_name-board_hooks :
    {R S : Type 0} (p q : Processor R S) (b c : Facts) (high low high' low' : ℕ)
    → p.hooks ≡ some (board_hooks b)
    → q.hooks ≡ some (board_hooks c)
    → b.address ≡ some (high, low)
    → c.address ≡ some (high', low')
    → (high < 256) × (low < 256) × (high' < 256) × (low' < 256)
    → get_or p.device.name 0 0 ≡ 0
    → get_or q.device.name 0 0 ≡ 0
    → effective_name p ≡ effective_name q
    → (high ≡ high') × (low ≡ low')
unfolding derived_name
effective_name-board_hooks p q b c high low high' low' hp hq ab ac (s, t, s', t') np nq same =
    let e : derived_name high low ≡ derived_name high' low' =
      sym (derived_name_lem p b high low hp ab np)
      ∙ same
      ∙ derived_name_lem q c high' low' hq ac nq in
    let at = λ (i : ℕ). ap (λ (l : List ℕ). get_or l i 0) e in
    (byte_of_digits high high' s s' (at 11) (at 12), byte_of_digits low low' t t' (at 13) (at 14))
