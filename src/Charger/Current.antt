-- ===== src/Charger/Current.antt =====
-- The current limit of modules/EvseManager/Charger.cpp: the limit that the energy management sets,
-- the duty cycle that tells it to the car, and the check of what the car draws.
use everest_core_dev.Common.{ℕ, ◌-◌, Bool, true, false, not, ◌&&◌, ◌||◌, leb, ltb, if◌then◌else◌}
use everest_core_dev.Floats.{Floats}
use everest_core_dev.Charger.Data.{
  error, ConnectorType, iec62196_type2_cable, iec62196_type2_socket, Fault, signal_max_current,
  Charger,
}
use everest_core_dev.Charger.Signals.{emit}

abbrev is_socket : ConnectorType → Bool
is_socket iec62196_type2_cable = false
is_socket iec62196_type2_socket = true

module _ {F : Type 0} (fl : Floats F) where
  open fl use {lit, lt, le, add, mul, div, narrow}

  unfoldable pub ampere_to_duty_cycle : F → F
  ampere_to_duty_cycle ampere =
      if lt ampere (lit 59 1)
      then narrow (lit 10 1)
      else if le ampere (lit 61 1)
      then narrow (lit 1 1)
      else if lt ampere (lit 525 1)
      then narrow (
          div (div (if lt (lit 51 0) ampere then narrow (lit 51 0) else ampere) (lit 6 1))
            (lit 100 0))
      else if le ampere (lit 80 0)
      then narrow (div (add (div ampere (lit 25 1)) (lit 64 0)) (lit 100 0))
      else if le ampere (lit 801 1)
      then narrow (lit 97 2)
      else narrow (lit 10 1)

  -- `CHARGER_ABSOLUTE_MAX_CURRENT`.
  abbrev pub charger_absolute_max_current : F
  charger_absolute_max_current = lit 80 0

  abbrev pub in_range : F → Bool
  in_range c = le (lit 0 0) c && le c charger_absolute_max_current

  abbrev limited : Charger F → F → F
  limited ch c =
      if is_socket ch.connector_type && lt ch.max_current_cable c then ch.max_current_cable else c

  -- `setMaxCurrent(c, validUntil)`.
  unfoldable pub set_max_current_until : F → ℕ → Charger F → Charger F × Bool
  set_max_current_until c valid_until ch =
      if in_range c && ltb ch.clock valid_until
      then (
        emit (signal_max_current (limited ch c))
            (record ch { max_current = limited ch c; max_current_valid_until = valid_until }),
        true,
      )
      else (ch, false)

  -- `setMaxCurrent(c)`.
  unfoldable pub set_max_current : F → Charger F → Charger F × Bool
  set_max_current c ch =
      if in_range c && ltb ch.clock ch.max_current_valid_until
      then (
        emit (signal_max_current (limited ch c)) (record ch { max_current = limited ch c }),
        true,
      )
      else (ch, false)

  -- The state after `powerAvailable`, and its result.
  unfoldable pub refresh_limit : Charger F → Charger F
  refresh_limit c =
      if ltb c.max_current_valid_until c.clock
      then emit (signal_max_current (narrow (lit 0 0)))
          (record c { max_current = narrow (lit 0 0) })
      else c

  unfoldable pub has_power : Charger F → Bool
  has_power c = lt (lit 59 1) c.max_current

  unfoldable pub power_available : Charger F → Charger F × Bool
  power_available c = (refresh_limit c, has_power (refresh_limit c))

  abbrev pub over_limit : Charger F → Bool
  over_limit c =
      let limit = narrow (mul c.max_current (lit 11 1)) in
      lt limit c.drawn_l1 || (lt limit c.drawn_l2 || lt limit c.drawn_l3)

  -- The first half of `checkSoftOverCurrent`: since when the car draws too much.
  unfoldable pub note_over_current : Charger F → Charger F
  note_over_current c =
      if over_limit c
      then (if not c.is_over_current
          then record c { is_over_current = true; last_over_current_event = c.clock }
          else c)
      else record c { is_over_current = false }

  -- `softOverCurrentTimeout`.
  abbrev pub soft_over_current_timeout : ℕ
  soft_over_current_timeout = 7000

  unfoldable pub check_soft_over_current : Charger F → Charger F
  check_soft_over_current c =
      let d = note_over_current c in
      if d.is_over_current && leb soft_over_current_timeout (d.clock - d.last_over_current_event)
      then record d { current_state = error; error_state = Fault.over_current }
      else d

module _ {F : Type 0} where
  unfoldable pub set_current_drawn_by_vehicle : F → F → F → Charger F → Charger F
  set_current_drawn_by_vehicle l1 l2 l3 c = record c { drawn_l1 = l1; drawn_l2 = l2; drawn_l3 = l3 }
