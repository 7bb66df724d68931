-- ===== src/Processor/Tuning.antt =====
-- What `handle_set_radio_settings` does with a tuning, on every branch.
use meshpigeon_firmware.Prelude.{
  ℕ, ◌+◌, ◌*◌, ◌^◌, ◌≤◌, ◌<◌, ◌≡◌, refl, ap, ap₂, subst, is_empty, ◌∙◌, sym, Bool, true, false,
  ◌||◌, Option, some, arith, Bool-cases, inl, inr,
}
use meshpigeon_firmware.Settings.Radio.{RadioSettings}
use meshpigeon_firmware.Processor.Message.{Ports, Response, RadioSettingsMessage}
use meshpigeon_firmware.Store.{u32}
use meshpigeon_firmware.Processor.State.{Processor, is_authorized, first_owner_lock_active}
use meshpigeon_firmware.Processor.Reply.{
  emit, deliver, broadcast_response, reply, notify_radio_changed,
}
use meshpigeon_firmware.Processor.Checks.{bad_tuning, tuning_of, tx_power_max}
use meshpigeon_firmware.Processor.Handle.{accept_tuning, handle_set_radio_settings}

-- The tuning that a request asks for, in the units of the settings, and within what the silicon
-- takes: no field was cut by its cast.
pub record IsTuning (m : RadioSettingsMessage) (s : RadioSettings) : Type 0 where
  pub freq_hz : s.freq_hz ≡ m.freq_hz
  pub bandwidth : s.bw_x100khz * 10 ≡ m.bandwidth_hz
  pub sf : s.sf ≡ m.sf
  pub cr : s.cr ≡ m.cr
  pub power : s.power_dbm ≡ m.power_dbm
  pub some_freq : 0 < s.freq_hz
  pub some_bandwidth : (0 < s.bw_x100khz) × (s.bw_x100khz < 2 ^ 16)
  pub sf_range : (5 ≤ s.sf) × (s.sf ≤ 12)
  pub cr_range : (5 ≤ s.cr) × (s.cr ≤ 8)
  pub power_range : s.power_dbm ≤ tx_power_max

-- A request that passes the checks is cast without loss, and its values are in range: the checks
-- are made on the wire values, in front of the narrowing.
pub tuning_of-IsTuning :
    (m : RadioSettingsMessage) → bad_tuning m ≡ false → IsTuning m (tuning_of m)
unfolding bad_tuning tuning_of
tuning_of-IsTuning m h = record {
  freq_hz = refl;
  bandwidth = ground (arith, h);
  sf = ground (arith, h);
  cr = ground (arith, h);
  power = ground (arith, h);
  some_freq = ground (arith, h);
  some_bandwidth = ground (arith, h);
  sf_range = ground (arith, h);
  cr_range = ground (arith, h);
  power_range = ground (arith, h);
}

module _ {R S : Type 0} (ports : Ports R S) where
  -- What a tuning sets, with the answer and the push to the others still to come.
  abbrev pub tuned : Processor R S → RadioSettings × S × Bool × R
  tuned p = (p.settings, p.settings_store, p.radio_ok, p.radio)

  deliver-tuned :
      (p : Processor R S) (to : ℕ) (r : Response) → tuned (deliver ports p to r) ≡ tuned p
  unfolding deliver emit
  deliver-tuned p to r = elim (Bool-cases (is_empty (ports.encode r))) [
    | inl e ↦ rw e
    | inr e ↦ rw e
  ]

  broadcast-tuned :
      (p : Processor R S) (x : Option ℕ) (only : Bool) (r : Response)
      → tuned (broadcast_response ports p x only r) ≡ tuned p
  unfolding broadcast_response emit
  broadcast-tuned p x only r = elim (Bool-cases (is_empty (ports.encode r))) [
    | inl e ↦ rw e
    | inr e ↦ rw e
  ]

  accept_tuning-tuned :
      (p : Processor R S) (id : ℕ) (s : RadioSettings) (from : ℕ)
      → let t = record s { config_epoch = u32 (p.settings.config_epoch + 1) } in
        tuned (accept_tuning ports p id s from) ≡ (t, ports.save p.settings_store t, true, p.radio)
  unfolding accept_tuning notify_radio_changed reply
  accept_tuning-tuned p id s from = deliver-tuned _ from _ ∙ broadcast-tuned _ (some from) true _

  -- A tuning that is in range, sent with authorization, outside the first owner's time and with no
  -- packet out, and that the radio takes, is in force exactly as it was asked for, with the epoch
  -- counted up, is stored as it is in force, and the radio counts as usable.
  pub handle_set_radio_settings-IsTuning :
      (p : Processor R S) (id : ℕ) (m : RadioSettingsMessage) (from : ℕ)
      → is_authorized p from ≡ true
      → bad_tuning m ≡ false
      → first_owner_lock_active p ≡ false
      → p.tx_pending ≡ false
      → (ports.apply p.radio (tuning_of m)).1 ≡ true
      → let q = handle_set_radio_settings ports p id (some m) from in
        IsTuning m q.settings
        × (q.settings.config_epoch ≡ u32 (p.settings.config_epoch + 1))
        × (q.settings_store ≡ ports.save p.settings_store q.settings)
        × (q.radio_ok ≡ true)
        × (q.radio ≡ (ports.apply p.radio (tuning_of m)).0)
  handle_set_radio_settings-IsTuning p id m from a good free idle takes =
      let applied = record p { radio = (ports.apply p.radio (tuning_of m)).0 } in
      let test : (first_owner_lock_active p || p.tx_pending) ≡ false =
        ap₂ (λ (b c : Bool). b || c) free idle in
      let done : handle_set_radio_settings ports p id (some m) from
          ≡ accept_tuning ports applied id (tuning_of m) from =
        unfold handle_set_radio_settings in rw (a, good, test, takes) in
      let l = ap tuned done ∙ accept_tuning-tuned applied id (tuning_of m) from in
      let settings = ap (λ (k : RadioSettings × S × Bool × R). k.0) l in
      let t = tuning_of-IsTuning m good in
      (
        subst (IsTuning m) (sym settings) (record {
          freq_hz = t.freq_hz;
          bandwidth = t.bandwidth;
          sf = t.sf;
          cr = t.cr;
          power = t.power;
          some_freq = t.some_freq;
          some_bandwidth = t.some_bandwidth;
          sf_range = t.sf_range;
          cr_range = t.cr_range;
          power_range = t.power_range;
        }),
        ap (λ (k : RadioSettings × S × Bool × R). k.0.config_epoch) l,
        ap (λ (k : RadioSettings × S × Bool × R). k.1) l
            ∙ ap (ports.save p.settings_store) (sym settings),
        ap (λ (k : RadioSettings × S × Bool × R). k.2) l,
        ap (λ (k : RadioSettings × S × Bool × R). k.3) l,
      )
