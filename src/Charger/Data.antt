-- ===== src/Charger/Data.antt =====
-- The types of modules/EvseManager/Charger.hpp: the states, the events, the members of `Charger`,
-- and what a charger says to the world.
use everest_core_dev.Common.{ℕ, Bool, String, List}

-- `ControlPilotEvent`.
pub data ControlPilotEvent : Type 0 where
  car_plugged_in car_requested_power power_on power_off : ControlPilotEvent
  car_requested_stop_power car_unplugged error_e error_df : ControlPilotEvent
  error_relais error_rcd error_ventilation_not_available error_over_current : ControlPilotEvent
  ef_to_bcd bcd_to_ef permanent_fault : ControlPilotEvent
  evse_replug_started evse_replug_finished invalid : ControlPilotEvent

-- `types::board_support::Event`, of types/board_support.yaml.
pub data BoardEvent : Type 0 where
  car_plugged_in car_requested_power power_on power_off : BoardEvent
  car_requested_stop_power car_unplugged error_e error_df : BoardEvent
  error_relais error_rcd error_ventilation_not_available error_over_current : BoardEvent
  ef_to_bcd bcd_to_ef permanent_fault : BoardEvent
  evse_replug_started evse_replug_finished : BoardEvent

-- `ChargeMode`. Every branch of the source for a third mode is dead code.
pub data ChargeMode : Type 0 where
  ac dc : ChargeMode

-- `EvseState`.
pub data EvseState : Type 0 where
  disabled idle waiting_for_authentication prepare_charging waiting_for_energy : EvseState
  charging charging_paused_ev charging_paused_evse stopping_charging finished : EvseState
  error faulted t_step_ef t_step_x1 replug : EvseState

-- The values of the generated enumerations that Charger.cpp names.
pub data Fault : Type 0 where
  internal car car_diode_fault relais rcd ventilation_not_available over_current : Fault

pub data SessionEvent : Type 0 where
  enabled disabled session_started auth_required transaction_started : SessionEvent
  prepare_charging charging_started charging_paused_ev charging_paused_evse : SessionEvent
  waiting_for_energy charging_resumed stopping_charging charging_finished : SessionEvent
  transaction_finished session_finished error permanent_fault : SessionEvent
  all_errors_cleared replug_started replug_finished : SessionEvent

pub data StartReason : Type 0 where
  ev_connected authorized : StartReason

-- `StopTransactionReason`: the two that the modelled code writes, and any other of a request.
pub data StopReason : Type 0 where
  ev_disconnected local : StopReason
  other : ℕ → StopReason

pub data ConnectorType : Type 0 where
  iec62196_type2_cable iec62196_type2_socket : ConnectorType

-- One call of a signal or of the board support package.
pub data Output (F : Type 0) : Type 0 where
  signal_event : SessionEvent → Output F
  signal_max_current : F → Output F
  signal_state : EvseState → Output F
  signal_error : Fault → Output F
  signal_ac_with_soc_timeout signal_dc_supply_off : Output F
  call_enable call_allow_power_on : Bool → Output F
  call_pwm_on : F → Output F
  call_pwm_off call_pwm_f : Output F
  call_evse_replug : ℕ → Output F

-- The members of `Charger`. Times are in milliseconds of one clock, which is the member `clock`.
-- `out` holds every output so far, the newest first.
pub record Charger (F : Type 0) : Type 0 where
  pub current_state : EvseState
  pub last_state : EvseState
  pub error_state : Fault
  pub clock : ℕ
  pub current_state_started : ℕ
  pub authorized : Bool
  pub authorized_pnc : Bool
  pub auth_tag : String
  pub transaction_active : Bool
  pub session_active : Bool
  pub stop_transaction_id_tag : String
  pub last_stop_transaction_reason : StopReason
  pub last_start_session_reason : StartReason
  pub connector_type : ConnectorType
  pub max_current : F
  pub max_current_valid_until : ℕ
  pub max_current_cable : F
  pub drawn_l1 : F
  pub drawn_l2 : F
  pub drawn_l3 : F
  pub is_over_current : Bool
  pub last_over_current_event : ℕ
  pub charge_mode : ChargeMode
  pub ac_hlc_enabled : Bool
  pub ac_hlc_enabled_current_session : Bool
  pub ac_hlc_use_5percent : Bool
  pub hlc_use_5percent_current_session : Bool
  pub ac_enforce_hlc : Bool
  pub ac_with_soc_timeout : Bool
  pub ac_with_soc_timer : ℕ
  pub matching_started : Bool
  pub t_step_ef_return_state : EvseState
  pub t_step_ef_return_pwm : F
  pub t_step_x1_return_state : EvseState
  pub t_step_x1_return_pwm : F
  pub last_pwm_update : ℕ
  pub update_pwm_last_dc : F
  pub evse_maximum_current_limit : F
  pub evse_maximum_power_limit : F
  pub out : List (Output F)
