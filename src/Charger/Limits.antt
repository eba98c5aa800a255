-- ===== src/Charger/Limits.antt =====
-- The current limit of a charger of modules/EvseManager, its expiry, and the over-current check.
use everest_core_dev.Common.{
  ℕ, ◌+◌, ◌-◌, ◌<◌, ◌≡◌, refl, Bool, true, false, arith, leb, if◌then◌else◌, Bool-cases, inl, inr,
}
use everest_core_dev.Floats.{Floats, IsOrdered}
use everest_core_dev.Charger.Data.{
  charging, waiting_for_energy, error, iec62196_type2_socket, ChargeMode, Fault, Charger,
}
use everest_core_dev.Charger.Current.{
  charger_absolute_max_current, set_max_current_until, refresh_limit, has_power, over_limit,
  note_over_current, check_soft_over_current,
}
use everest_core_dev.Charger.Machine.{pause_charging_wait_for_power}
use everest_core_dev.Charger.Cycle.{
  supply, run_charging, run_in, note_state, run_switch, run_state_machine, main_loop_pass,
}

module _ {F : Type 0} (fl : Floats F) where
  open fl use {lit, lt, le, narrow}

  -- The limit is at most 80 A, and at most what the cable of a socket takes.
  pub record IsLimited (c : Charger F) : Type 0 where
    pub absolute : le c.max_current (charger_absolute_max_current fl) ≡ true
    pub cable :
        c.connector_type ≡ iec62196_type2_socket → le c.max_current c.max_current_cable ≡ true

module _ {F : Type 0} (fl : Floats F) (ordered : IsOrdered fl) where
  open fl use {lit, lt, le, narrow}

  -- A call of `setMaxCurrent` with a time that returns true has been given a current of 0 to 80 A
  -- and a time that has not come, and leaves a limit of at most 80 A, at most the current, and at
  -- most the cable's ampacity at a socket. One that returns false changes nothing.
  pub set_max_current_until-IsLimited :
      (a : F) (t : ℕ) (c : Charger F)
      → let r = set_max_current_until fl a t c in
        (r.1 ≡ true
          → IsLimited fl r.0
            × (le r.0.max_current a ≡ true)
            × (r.0.max_current_valid_until ≡ t)
            × (c.clock < t))
        × (r.1 ≡ false → r.0 ≡ c)
  unfolding set_max_current_until
  set_max_current_until-IsLimited a t c = ground (
    arith,
    ordered.le_refl a,
    ordered.le_refl c.max_current_cable,
    ordered.le_of_not_lt c.max_current_cable a,
    ordered.lt→le c.max_current_cable a,
    ordered.le_trans c.max_current_cable a (charger_absolute_max_current fl),
  )

module _ {F : Type 0} (fl : Floats F) where
  open fl use {lit, lt, le, narrow}

  first_check :
      (c : Charger F)
      → c.is_over_current ≡ false
      → over_limit fl c ≡ true
      → check_soft_over_current fl c
        ≡ record c { is_over_current = true; last_over_current_event = c.clock }
  unfolding check_soft_over_current note_over_current
  first_check c fresh over =
      let none_passed : c.clock - c.clock ≡ 0 = omega arith in rw (over, fresh, none_passed)

  next_check :
      (c : Charger F)
      → c.is_over_current ≡ true
      → over_limit fl c ≡ true
      → check_soft_over_current fl c ≡ (
          if leb 7000 (c.clock - c.last_over_current_event)
          then record c { current_state = error; error_state = Fault.over_current }
          else c)
  unfolding check_soft_over_current note_over_current
  next_check c seen over = rw (over, seen)

  -- A car that has not drawn too much up to now and does so in a check, and again in a check after
  -- some time: the second check makes an over-current error exactly if at least 7000 ms have
  -- passed, and otherwise leaves the state.
  over_current_trips :
      (ms : ℕ) (c : Charger F)
      → c.is_over_current ≡ false
      → over_limit fl c ≡ true
      → let first = check_soft_over_current fl c in
        let second = check_soft_over_current fl (record first { clock = first.clock + ms }) in
        (second.current_state ≡ (if leb 7000 ms then error else c.current_state))
        × (second.error_state ≡ (if leb 7000 ms then Fault.over_current else c.error_state))
  over_current_trips ms c fresh over =
      let later = record c {
        is_over_current = true;
        last_over_current_event = c.clock;
        clock = c.clock + ms;
      } in
      let passed : c.clock + ms - c.clock ≡ ms = omega arith in
      rw (first_check c fresh over, next_check later refl over, passed)
        (elim (Bool-cases (leb 7000 ms)) [ inl y ↦ rw y (refl, refl) | inr n ↦ rw n (refl, refl) ])

  -- A check in which no phase exceeds the limit forgets an earlier over-current and changes no
  -- state.
  pub over_current_clears :
      (c : Charger F)
      → over_limit fl c ≡ false
      → check_soft_over_current fl c ≡ record c { is_over_current = false }
  unfolding check_soft_over_current note_over_current
  over_current_clears c under = rw under

  quiet_check :
      (c : Charger F)
      → c.is_over_current ≡ false
      → let d = check_soft_over_current fl c in
        (d.current_state ≡ c.current_state)
        × (d.max_current ≡ c.max_current)
        × (d.max_current_valid_until ≡ c.max_current_valid_until)
        × (d.clock ≡ c.clock)
  unfolding check_soft_over_current note_over_current
  quiet_check c fresh = ground arith

  expired_refresh :
      (c : Charger F)
      → c.max_current_valid_until < c.clock
      → ((refresh_limit fl c).max_current ≡ narrow (lit 0 0))
        × ((refresh_limit fl c).current_state ≡ c.current_state)
  unfolding refresh_limit
  expired_refresh c late = ground arith

  expired_charging :
      (new : Bool) (c : Charger F)
      → lt (lit 59 1) (narrow (lit 0 0)) ≡ false
      → c.current_state ≡ charging
      → c.charge_mode ≡ ChargeMode.ac
      → c.is_over_current ≡ false
      → c.max_current_valid_until < c.clock
      → (run_charging fl new c).current_state ≡ waiting_for_energy
  unfolding run_charging supply pause_charging_wait_for_power has_power
  expired_charging new c low at m fresh late =
      ground (arith, quiet_check c fresh, expired_refresh (check_soft_over_current fl c))

  expired_switch :
      (new : Bool) (c : Charger F)
      → lt (lit 59 1) (narrow (lit 0 0)) ≡ false
      → c.current_state ≡ charging
      → c.charge_mode ≡ ChargeMode.ac
      → c.is_over_current ≡ false
      → c.max_current_valid_until < c.clock
      → (run_switch fl new c).current_state ≡ waiting_for_energy
  unfolding run_switch note_state run_in
  expired_switch true c low at m fresh late = rw at (expired_charging true _ low refl m fresh late)
  expired_switch false c low at m fresh late =
      rw at (expired_charging false _ low refl m fresh late)

  -- What a round needs to pause a charging charger.
  record IsExpired (c : Charger F) : Type 0 where
    at : c.current_state ≡ charging
    ac_mode : c.charge_mode ≡ ChargeMode.ac
    fresh : c.is_over_current ≡ false
    no_soc : c.ac_with_soc_timeout ≡ false
    late : c.max_current_valid_until < c.clock

  refresh_limit-IsExpired : (c : Charger F) → IsExpired c → IsExpired (refresh_limit fl c)
  unfolding refresh_limit
  refresh_limit-IsExpired c e = ground arith

  expired_machine :
      (c : Charger F)
      → lt (lit 59 1) (narrow (lit 0 0)) ≡ false
      → IsExpired c
      → (run_state_machine fl c).current_state ≡ waiting_for_energy
  unfolding run_state_machine
  expired_machine c low e = rw e.no_soc (expired_switch _ _ low e.at e.ac_mode e.fresh e.late)

  -- In AC mode and with no over-current up to now, a charging charger whose limit is no longer
  -- valid waits for energy after the next round of its thread. The timer of `ac_with_soc_timeout`
  -- is off, and 0 A is no more than 5.9 A.
  pub expired_limit_pauses :
      (c : Charger F)
      → lt (lit 59 1) (narrow (lit 0 0)) ≡ false
      → c.current_state ≡ charging
      → c.charge_mode ≡ ChargeMode.ac
      → c.is_over_current ≡ false
      → c.ac_with_soc_timeout ≡ false
      → c.max_current_valid_until < c.clock
      → (main_loop_pass fl c).current_state ≡ waiting_for_energy
  unfolding main_loop_pass
  expired_limit_pauses c low at m fresh soc late =
      let e : IsExpired c = record {
        at = at;
        ac_mode = m;
        fresh = fresh;
        no_soc = soc;
        late = late;
      } in
      expired_machine _ low (refresh_limit-IsExpired c e)
