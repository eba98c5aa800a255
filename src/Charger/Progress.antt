-- ===== src/Charger/Progress.antt =====
-- How a charger of modules/EvseManager goes on once the car is unplugged, and how long the breaks
-- of the control pilot last.
use mathlib.Core.Path.{subst}
use everest_core_dev.Common.{
  ◌<◌, ℕ, ◌+◌, ◌-◌, ◌≡◌, refl, ap, ◌∙◌, Bool, true, false, List, [], ◌∷◌, arith, leb, if◌then◌else◌,
}
use everest_core_dev.Floats.{Floats}
use everest_core_dev.Charger.Data.{
  EvseState, idle, waiting_for_authentication, stopping_charging, finished, t_step_ef, signal_state,
  BoardEvent, ChargeMode, Charger,
}
use everest_core_dev.Charger.Signals.{same}
use everest_core_dev.Charger.Current.{refresh_limit}
use everest_core_dev.Charger.Machine.{run_stopping_charging, run_finished, run_idle, run_t_step_ef}
use everest_core_dev.Charger.Cycle.{
  run_in, note_state, run_switch, run_state_machine, main_loop_pass,
}
use everest_core_dev.Charger.Events.{
  process_event, process_cp_events_independent, process_cp_events_state, dispatch_cp,
  request_error_sequence, string_to_control_pilot_event,
}
use everest_core_dev.Charger.History.{Call, mainloop, wait, board_event, error_sequence, step, run}

module _ {F : Type 0} where
  -- The car is unplugged; then the charger's thread makes three rounds, with any time between.
  abbrev pub unplug_rounds : F → ℕ → ℕ → List (Call F)
  unplug_rounds pp a b =
      board_event BoardEvent.car_unplugged pp
      ∷ mainloop
      ∷ wait a
      ∷ mainloop
      ∷ wait b
      ∷ mainloop
      ∷ []

  -- Rounds of the charger's thread, each after some time.
  pub rounds : List ℕ → List (Call F)
  rounds [] = []
  rounds (ms ∷ more) = wait ms ∷ mainloop ∷ rounds more

  -- A charger in AC mode between two rounds: its state, and the state of the last round.
  pub record Between (now last : EvseState) (c : Charger F) : Type 0 where
    pub at : c.current_state ≡ now
    pub was : c.last_state ≡ last
    pub ac_mode : c.charge_mode ≡ ChargeMode.ac
    pub no_soc : c.ac_with_soc_timeout ≡ false

  wait-Between :
      {now last : EvseState} (ms : ℕ) (c : Charger F)
      → Between now last c
      → Between now last (record c { clock = c.clock + ms })
  wait-Between ms c b = record { at = b.at; was = b.was; ac_mode = b.ac_mode; no_soc = b.no_soc }

module _ {F : Type 0} (fl : Floats F) where
  pass_stopping :
      {s : EvseState} (c : Charger F)
      → same s stopping_charging ≡ false
      → Between stopping_charging s c
      → Between finished stopping_charging (main_loop_pass fl c)
        × ((main_loop_pass fl c).transaction_active ≡ false)
  unfolding main_loop_pass refresh_limit run_state_machine run_switch note_state run_in
      run_stopping_charging
  pass_stopping c n b = ground arith

  pass_finished :
      (c : Charger F)
      → Between finished stopping_charging c
      → Between idle finished (main_loop_pass fl c)
  unfolding main_loop_pass refresh_limit run_state_machine run_switch note_state run_in run_finished
  pass_finished c b = ground arith

  pass_idle :
      (c : Charger F)
      → Between idle finished c
      → Between idle idle (main_loop_pass fl c)
        × ((main_loop_pass fl c).transaction_active ≡ false)
        × ((main_loop_pass fl c).session_active ≡ false)
        × ((main_loop_pass fl c).authorized ≡ false)
  unfolding main_loop_pass refresh_limit run_state_machine run_switch note_state run_in run_idle
  pass_idle c b = ground arith

  pass_stuck :
      (c : Charger F)
      → Between stopping_charging stopping_charging c
      → Between stopping_charging stopping_charging (main_loop_pass fl c)
  unfolding main_loop_pass refresh_limit run_state_machine run_switch note_state run_in
      run_stopping_charging
  pass_stuck c b = ground arith

  unplug :
      {s : EvseState} (pp : F) (c : Charger F)
      → c.charge_mode ≡ ChargeMode.ac
      → c.last_state ≡ s
      → c.ac_with_soc_timeout ≡ false
      → Between stopping_charging s (step fl (board_event BoardEvent.car_unplugged pp) c)
  unfolding step process_event process_cp_events_independent process_cp_events_state dispatch_cp
      string_to_control_pilot_event
  unplug pp c m l n = ground arith

  -- In AC mode, with the timer of `ac_with_soc_timeout` off, a car that is unplugged while the last
  -- round was not one of `StoppingCharging` leads to `Idle`, with no transaction, session or
  -- authorization, within three rounds between which only time passes.
  pub unplug-reaches_idle :
      {s : EvseState} (pp : F) (a b : ℕ) (c : Charger F)
      → c.charge_mode ≡ ChargeMode.ac
      → c.last_state ≡ s
      → same s stopping_charging ≡ false
      → c.ac_with_soc_timeout ≡ false
      → let d = run fl (unplug_rounds pp a b) c in
        (d.current_state ≡ idle)
        × (d.transaction_active ≡ false)
        × (d.session_active ≡ false)
        × (d.authorized ≡ false)
  unfolding run step
  unplug-reaches_idle pp a b c m l n soc =
      let stopped = pass_stopping _ n (unplug pp c m l soc) in
      let ended = pass_finished _ (wait-Between a _ stopped.0) in
      let rest = pass_idle _ (wait-Between b _ ended) in (rest.0.at, rest.1, rest.2, rest.3)

  rounds_stuck :
      (times : List ℕ) (c : Charger F)
      → Between stopping_charging stopping_charging c
      → (run fl (rounds times) c).current_state ≡ stopping_charging
  unfolding rounds run step
  rounds_stuck [] c b = b.at
  rounds_stuck (ms ∷ more) c b = rounds_stuck more _ (pass_stuck _ (wait-Between ms c b))

  -- In AC mode, with the timer of `ac_with_soc_timeout` off, an unplug event that comes when the last
  -- round was one of `StoppingCharging` leaves the charger in that state after every number of rounds
  -- of its thread, if nothing but time and these rounds follows.
  pub unplug_stuck :
      (pp : F) (times : List ℕ) (c : Charger F)
      → c.charge_mode ≡ ChargeMode.ac
      → c.last_state ≡ stopping_charging
      → c.ac_with_soc_timeout ≡ false
      → (run fl (board_event BoardEvent.car_unplugged pp ∷ rounds times) c).current_state
        ≡ stopping_charging
  unfolding run
  unplug_stuck pp times c m l soc = rounds_stuck times _ (unplug pp c m l soc)

  refresh_limit_keeps :
      (c : Charger F)
      → ((refresh_limit fl c).current_state ≡ c.current_state)
        × ((refresh_limit fl c).last_state ≡ c.last_state)
        × ((refresh_limit fl c).clock ≡ c.clock)
        × ((refresh_limit fl c).ac_with_soc_timeout ≡ c.ac_with_soc_timeout)
        × ((refresh_limit fl c).t_step_ef_return_state ≡ c.t_step_ef_return_state)
        × ((refresh_limit fl c).current_state_started ≡ c.current_state_started)
  unfolding refresh_limit
  refresh_limit_keeps c = ground arith

  hold_break :
      (new : Bool) (c : Charger F)
      → let d = run_t_step_ef fl new 0 c in
        (d.current_state ≡ c.current_state)
        × (d.last_state ≡ c.last_state)
        × (d.current_state_started ≡ c.current_state_started)
        × (d.clock ≡ c.clock)
        × (d.ac_with_soc_timeout ≡ c.ac_with_soc_timeout)
        × (d.t_step_ef_return_state ≡ c.t_step_ef_return_state)
  unfolding run_t_step_ef
  hold_break new c = ground arith

  -- The charger has just entered the break, at the time of its clock.
  record Entered (c d : Charger F) : Type 0 where
    now : d.current_state ≡ t_step_ef
    last : d.last_state ≡ t_step_ef
    since : d.current_state_started ≡ c.clock
    time : d.clock ≡ c.clock
    soc : d.ac_with_soc_timeout ≡ false
    returns : d.t_step_ef_return_state ≡ c.t_step_ef_return_state

  enter_switch :
      (c : Charger F)
      → c.current_state ≡ t_step_ef
      → c.last_state ≡ t_step_ef
      → c.ac_with_soc_timeout ≡ false
      → Entered c (run_switch fl true c)
  unfolding run_switch note_state run_in
  enter_switch c at l soc =
      let entered = record c {
        current_state = t_step_ef;
        current_state_started = c.clock;
        out = signal_state t_step_ef ∷ c.out;
      } in
      let none_passed : c.clock - c.clock ≡ 0 = omega arith in
      rw at (rw none_passed (ground (arith, hold_break true entered)))

  enter_break :
      (c : Charger F)
      → c.current_state ≡ t_step_ef
      → same c.last_state t_step_ef ≡ false
      → c.ac_with_soc_timeout ≡ false
      → Entered c (run_state_machine fl c)
  unfolding run_state_machine
  enter_break c at l soc =
      ground (arith, enter_switch (record c { last_state = t_step_ef }) at refl soc)

  enter_round :
      (c : Charger F)
      → c.current_state ≡ t_step_ef
      → same c.last_state t_step_ef ≡ false
      → c.ac_with_soc_timeout ≡ false
      → Entered c (main_loop_pass fl c)
  unfolding main_loop_pass
  enter_round c at l soc = ground (arith, refresh_limit_keeps c, enter_break (refresh_limit fl c))

  ask :
      (a : ℕ) (c : Charger F)
      → c.current_state ≡ waiting_for_authentication
      → let d = step fl (wait a) (step fl error_sequence c) in
        (d.current_state ≡ t_step_ef)
        × (d.last_state ≡ c.last_state)
        × (d.ac_with_soc_timeout ≡ c.ac_with_soc_timeout)
        × (d.t_step_ef_return_state ≡ waiting_for_authentication)
  unfolding step request_error_sequence
  ask a c at = ground arith

  stay_break :
      (c : Charger F)
      → c.current_state ≡ t_step_ef
      → c.last_state ≡ t_step_ef
      → c.ac_with_soc_timeout ≡ false
      → (main_loop_pass fl c).current_state ≡ (
          if leb 4000 (c.clock - c.current_state_started)
          then c.t_step_ef_return_state
          else t_step_ef)
  unfolding main_loop_pass refresh_limit run_state_machine run_switch note_state run_in
      run_t_step_ef
  stay_break c at l soc = ground arith

  -- The charger holds the break, since one time and until now.
  record Held (start now : ℕ) (c : Charger F) : Type 0 where
    at : c.current_state ≡ t_step_ef
    was : c.last_state ≡ t_step_ef
    since : c.current_state_started ≡ start
    time : c.clock ≡ now
    no_soc : c.ac_with_soc_timeout ≡ false
    returns : c.t_step_ef_return_state ≡ waiting_for_authentication

  hold_state :
      (t : ℕ) (c : Charger F)
      → leb 4000 t ≡ false
      → let d = run_t_step_ef fl false t c in
        (d.current_state ≡ c.current_state)
        × (d.last_state ≡ c.last_state)
        × (d.current_state_started ≡ c.current_state_started)
        × (d.clock ≡ c.clock)
        × (d.ac_with_soc_timeout ≡ c.ac_with_soc_timeout)
        × (d.t_step_ef_return_state ≡ c.t_step_ef_return_state)
  unfolding run_t_step_ef
  hold_state t c early = ground arith

  hold_switch :
      (start now : ℕ) (c : Charger F)
      → Held start now c
      → leb 4000 (now - start) ≡ false
      → Held start now (run_switch fl false c)
  unfolding run_switch note_state run_in
  hold_switch start now c h e =
      let gap : c.clock - c.current_state_started ≡ now - start = omega (arith, h.time, h.since) in
      let here = record c { current_state = t_step_ef } in
      rw h.at (ground (arith, hold_state (c.clock - c.current_state_started) here (rw gap e)))

  hold_machine :
      (start now : ℕ) (c : Charger F)
      → Held start now c
      → leb 4000 (now - start) ≡ false
      → Held start now (run_state_machine fl c)
  unfolding run_state_machine
  hold_machine start now c h e =
      let noted : Held start now (record c { last_state = t_step_ef }) = record {
        at = h.at;
        was = refl;
        since = h.since;
        time = h.time;
        no_soc = h.no_soc;
        returns = h.returns;
      } in
      ground (arith, hold_switch start now (record c { last_state = t_step_ef }) noted e)

  hold_round :
      (start now ms : ℕ) (c : Charger F)
      → Held start now c
      → leb 4000 (now + ms - start) ≡ false
      → Held start (now + ms) (main_loop_pass fl (record c { clock = c.clock + ms }))
  unfolding main_loop_pass
  hold_round start now ms c h e =
      let later = record c { clock = c.clock + ms } in
      let kept = refresh_limit_keeps later in
      let held : Held start (now + ms) (refresh_limit fl later) = record {
        at = kept.0 ∙ h.at;
        was = kept.1 ∙ h.was;
        since = kept.5 ∙ h.since;
        time = kept.2 ∙ ap (λ n. n + ms) h.time;
        no_soc = kept.3 ∙ h.no_soc;
        returns = kept.4 ∙ h.returns;
      } in
      hold_machine start (now + ms) (refresh_limit fl later) held e

  abbrev pub total : List ℕ → ℕ
  total [] = 0
  total (ms ∷ more) = ms + total more

  hold_rounds :
      (start now : ℕ) (times : List ℕ) (c : Charger F)
      → Held start now c
      → now + total times < start + 4000
      → Held start (now + total times) (run fl (rounds times) c)
  unfolding rounds run step
  hold_rounds start now [] c h e = subst (λ n. Held start n c) (omega arith) h
  hold_rounds start now (ms ∷ more) c h e =
      let early : leb 4000 (now + ms - start) ≡ false = ground (arith, e) in
      let next = main_loop_pass fl (record c { clock = c.clock + ms }) in
      subst (λ n. Held start n (run fl (rounds more) next)) (omega arith)
        (hold_rounds start (now + ms) more next (hold_round start now ms c h early)
          (omega (arith, e)))

  -- An error sequence that is requested in `WaitingForAuthentication`, when the last round was not in
  -- `T_step_EF` and the timer of `ac_with_soc_timeout` is off: after the round that enters it, however
  -- many rounds follow in less than 4000 ms, the charger is in `T_step_EF`, and it is back in
  -- `WaitingForAuthentication` after the first round that comes 4000 ms or more after the entry, if
  -- only time and these rounds pass.
  pub error_sequence_lasts :
      (a : ℕ) (times : List ℕ) (b : ℕ) (c : Charger F)
      → c.current_state ≡ waiting_for_authentication
      → same c.last_state t_step_ef ≡ false
      → c.ac_with_soc_timeout ≡ false
      → total times < 4000
      → let d = run fl (error_sequence ∷ wait a ∷ mainloop ∷ rounds times) c in
        (d.current_state ≡ t_step_ef)
        × ((run fl (wait b ∷ mainloop ∷ []) d).current_state
            ≡ (if leb 4000 (total times + b) then waiting_for_authentication else t_step_ef))
  unfolding run step
  error_sequence_lasts a times b c at l soc short =
      let asked = step fl (wait a) (step fl error_sequence c) in
      let there = main_loop_pass fl asked in
      let was = ask a c at in
      let entered = enter_round asked was.0 (ap (λ s. same s t_step_ef) was.1 ∙ l) (was.2 ∙ soc) in
      let start = asked.clock in
      let held : Held start start there = record {
        at = entered.now;
        was = entered.last;
        since = entered.since;
        time = entered.time;
        no_soc = entered.soc;
        returns = entered.returns ∙ was.3;
      } in
      let later = hold_rounds start start times there held (omega (arith, short)) in
      let d = run fl (rounds times) there in
      let last = record d { clock = d.clock + b } in
      let back = stay_break last later.at later.was later.no_soc in
      let passed : d.clock + b - d.current_state_started ≡ total times + b =
        omega (arith, later.time, later.since) in
      (later.at, back ∙ rw (passed, later.returns) refl)
