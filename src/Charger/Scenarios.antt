-- ===== src/Charger/Scenarios.antt =====
-- One AC session of a charger of modules/EvseManager, with currents in thousandths, and the
-- charger's theorems at its states.
use everest_core_dev.Common.{
  ◌-◌, ℕ, ◌+◌, ◌*◌, ◌/◌, ◌^◌, ◌<◌, ◌≡◌, refl, true, false, List, [], ◌∷◌, arith, ltb, leb, ◌==◌,
}
use everest_core_dev.Floats.{Floats, IsOrdered}
use everest_core_dev.Charger.Data.{
  idle, waiting_for_authentication, charging, stopping_charging, t_step_ef, disabled, BoardEvent,
  ChargeMode, ConnectorType, Fault, StopReason, StartReason, Charger,
}
use everest_core_dev.Charger.Signals.{
  update_pwm_now, update_pwm_now_if_changed, update_pwm_max_every_5seconds,
}
use everest_core_dev.Charger.Current.{
  ampere_to_duty_cycle, set_max_current_until, refresh_limit, has_power, note_over_current,
  check_soft_over_current,
}
use everest_core_dev.Charger.Machine.{
  run_idle, run_waiting_for_authentication, enter_waiting, await_authorization, proceed_eim,
  run_prepare_charging, run_disabled, lacks_dc_power, run_stopping_charging,
}
use everest_core_dev.Charger.Cycle.{
  follow_limit, start_pwm, power_on, main_loop_pass, run_state_machine, run_switch, run_in,
  note_state, run_charging, supply,
}
use everest_core_dev.Charger.Events.{
  process_event, process_cp_events_independent, process_cp_events_state, dispatch_cp, enable,
  string_to_control_pilot_event, start_charging,
}
use everest_core_dev.Charger.Session.{authorize, do_part, grant}
use everest_core_dev.Charger.History.{
  Call, wait, mainloop, setup, set_limit_until, board_event, enable_call, part, error_sequence,
  set_up, construct, start_thread, step, run, after,
}
use everest_core_dev.Charger.Safety.{is_powered, IsSafe}
use everest_core_dev.Charger.Calls.{after-IsSafe}
use everest_core_dev.Charger.Outputs.{starts, power_ons, replugs_finished}
use everest_core_dev.Charger.Guards.{
  is_mainloop, start-needs-authorization, power-needs-transaction, replug_never_finishes,
}
use everest_core_dev.Charger.Progress.{
  unplug_rounds, rounds, unplug-reaches_idle, unplug_stuck, error_sequence_lasts,
}
use everest_core_dev.Charger.Limits.{IsLimited, set_max_current_until-IsLimited}

-- Numbers of thousandths.
abbrev thousandths : Floats ℕ
thousandths = record {
  lit = λ m k. m * 1000 / 10 ^ k;
  lt = ltb;
  le = leb;
  eq = ◌==◌;
  add = λ a b. a + b;
  neg = λ a. 0 - a;
  mul = λ a b. a * b / 1000;
  div = λ a b. a * 1000 / b;
  narrow = λ a. a;
}

thousandths-IsOrdered : IsOrdered thousandths
thousandths-IsOrdered = record {
  le_refl = λ a. ground arith;
  le_trans = λ a b c h k. ground arith;
  lt→le = λ a b h. ground arith;
  le_of_not_lt = λ a b h. ground arith;
}

abbrev raw : Charger ℕ
raw = record {
  current_state = disabled;
  last_state = disabled;
  error_state = Fault.internal;
  clock = 100;
  current_state_started = 0;
  authorized = false;
  authorized_pnc = false;
  auth_tag = "";
  transaction_active = false;
  session_active = false;
  stop_transaction_id_tag = "";
  last_stop_transaction_reason = StopReason.local;
  last_start_session_reason = StartReason.ev_connected;
  connector_type = ConnectorType.iec62196_type2_socket;
  max_current = 0;
  max_current_valid_until = 0;
  max_current_cable = 0;
  drawn_l1 = 0;
  drawn_l2 = 0;
  drawn_l3 = 0;
  is_over_current = false;
  last_over_current_event = 0;
  charge_mode = ChargeMode.ac;
  ac_hlc_enabled = false;
  ac_hlc_enabled_current_session = false;
  ac_hlc_use_5percent = false;
  hlc_use_5percent_current_session = false;
  ac_enforce_hlc = false;
  ac_with_soc_timeout = false;
  ac_with_soc_timer = 0;
  matching_started = false;
  t_step_ef_return_state = disabled;
  t_step_ef_return_pwm = 0;
  t_step_x1_return_state = disabled;
  t_step_x1_return_pwm = 0;
  last_pwm_update = 0;
  update_pwm_last_dc = 0;
  evse_maximum_current_limit = 0;
  evse_maximum_power_limit = 0;
  out = [];
}

-- Set up, enabled, with a limit of 16 A for a minute, and a car plugged in.
abbrev plugging : List (Call ℕ)
plugging =
    setup ChargeMode.ac false false false false
    ∷ enable_call
    ∷ mainloop
    ∷ set_limit_until 16000 60000
    ∷ board_event BoardEvent.car_plugged_in 20000
    ∷ wait 50
    ∷ mainloop
    ∷ []

plugged : Charger ℕ
unfolding run step construct start_thread main_loop_pass run_state_machine run_switch run_in
    note_state refresh_limit run_idle run_disabled authorize set_up start_pwm power_on follow_limit
    update_pwm_now update_pwm_now_if_changed update_pwm_max_every_5seconds enable
    set_max_current_until process_event process_cp_events_independent process_cp_events_state
    dispatch_cp string_to_control_pilot_event do_part run_waiting_for_authentication enter_waiting
    await_authorization proceed_eim run_prepare_charging start_charging has_power
    ampere_to_duty_cycle run_charging supply check_soft_over_current note_over_current
    run_stopping_charging
plugged = after thousandths plugging 32000 raw

plugged_state : plugged.current_state ≡ waiting_for_authentication
unfolding plugged
plugged_state = refl

abbrev authorizing : List (Call ℕ)
authorizing =
    setup ChargeMode.ac false false false false
    ∷ enable_call
    ∷ mainloop
    ∷ set_limit_until 16000 60000
    ∷ board_event BoardEvent.car_plugged_in 20000
    ∷ wait 50
    ∷ mainloop
    ∷ part (grant "tag" false)
    ∷ []

authorized_starts : starts (after thousandths authorizing 32000 raw) ≡ 0
unfolding plugged
authorized_starts = refl

next_starts : starts (step thousandths mainloop (after thousandths authorizing 32000 raw)) ≡ 1
unfolding plugged
next_starts = refl

abbrev preparing : List (Call ℕ)
preparing =
    setup ChargeMode.ac false false false false
    ∷ enable_call
    ∷ mainloop
    ∷ set_limit_until 16000 60000
    ∷ board_event BoardEvent.car_plugged_in 20000
    ∷ wait 50
    ∷ mainloop
    ∷ part (grant "tag" false)
    ∷ mainloop
    ∷ []

prepared_power_ons : power_ons (after thousandths preparing 32000 raw) ≡ 0
unfolding plugged
prepared_power_ons = refl

next_power_ons : power_ons (step thousandths mainloop (after thousandths preparing 32000 raw)) ≡ 1
unfolding plugged
next_power_ons = refl

-- The car takes power, and the charger is in its charging state.
charging_car : Charger ℕ
unfolding plugged
charging_car =
    run thousandths (mainloop ∷ board_event BoardEvent.car_requested_power 20000 ∷ mainloop ∷ [])
      (after thousandths preparing 32000 raw)

charging_state : charging_car.current_state ≡ charging
unfolding charging_car
charging_state = refl

after-IsSafe_example : IsSafe (after thousandths preparing 32000 raw)
after-IsSafe_example = after-IsSafe thousandths preparing 32000 raw

start-needs-authorization_example :
    let c = after thousandths authorizing 32000 raw in
    (is_mainloop {F = ℕ} mainloop ≡ true)
    × (c.current_state ≡ waiting_for_authentication)
    × (c.authorized ≡ true)
    × (lacks_dc_power thousandths c ≡ false)
start-needs-authorization_example =
    start-needs-authorization thousandths authorizing 32000 raw mainloop
      (omega (arith, authorized_starts, next_starts))

power-needs-transaction_example :
    let c = after thousandths preparing 32000 raw in
    (is_mainloop {F = ℕ} mainloop ≡ true)
    × (is_powered c.current_state ≡ true)
    × (c.transaction_active ≡ true)
power-needs-transaction_example =
    power-needs-transaction thousandths preparing 32000 raw mainloop
      (omega (arith, prepared_power_ons, next_power_ons))

replug_never_finishes_example :
    replugs_finished (
      after thousandths
        (board_event BoardEvent.evse_replug_started 0
          ∷ mainloop
          ∷ board_event BoardEvent.evse_replug_finished 0
          ∷ mainloop
          ∷ [])
        32000
        raw)
    ≡ 0
replug_never_finishes_example = replug_never_finishes thousandths _ 32000 raw

unplug-reaches_idle_example :
    let d = run thousandths (unplug_rounds 0 50 50) charging_car in
    (d.current_state ≡ idle)
    × (d.transaction_active ≡ false)
    × (d.session_active ≡ false)
    × (d.authorized ≡ false)
unfolding charging_car
unplug-reaches_idle_example =
    unplug-reaches_idle thousandths {s = charging} 0 50 50 charging_car refl refl refl refl

-- The first unplug event and the round that ends it.
unplugged : Charger ℕ
unfolding charging_car
unplugged = run thousandths (board_event BoardEvent.car_unplugged 0 ∷ mainloop ∷ []) charging_car

unplug_stuck_example :
    (run thousandths
      (board_event BoardEvent.car_unplugged 0 ∷ rounds (50 ∷ 50 ∷ 50 ∷ []))
      unplugged).current_state
    ≡ stopping_charging
unfolding unplugged
unplug_stuck_example = unplug_stuck thousandths 0 (50 ∷ 50 ∷ 50 ∷ []) unplugged refl refl refl

error_sequence_lasts_example :
    let d =
      run thousandths (error_sequence ∷ wait 10 ∷ mainloop ∷ rounds (50 ∷ 3900 ∷ [])) plugged in
    (d.current_state ≡ t_step_ef)
    × ((run thousandths (wait 50 ∷ mainloop ∷ []) d).current_state ≡ waiting_for_authentication)
unfolding plugged
error_sequence_lasts_example =
    error_sequence_lasts thousandths 10 (50 ∷ 3900 ∷ []) 50 plugged refl refl refl (omega arith)

set_max_current_until-IsLimited_example :
    let r = set_max_current_until thousandths 25000 70000 plugged in
    (r.1 ≡ true
      → IsLimited thousandths r.0
        × (leb r.0.max_current 25000 ≡ true)
        × (r.0.max_current_valid_until ≡ 70000)
        × (plugged.clock < 70000))
    × (r.1 ≡ false → r.0 ≡ plugged)
set_max_current_until-IsLimited_example =
    set_max_current_until-IsLimited thousandths thousandths-IsOrdered 25000 70000 plugged
