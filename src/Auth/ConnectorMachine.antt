-- ===== src/Auth/ConnectorMachine.antt =====
-- modules/Auth/lib/ConnectorStateMachine.cpp. The controller that runs the machine belongs to
-- another library: `feed` stands for its submission of one event, and `IsController` says what it
-- promises, that it enters the state that `trans.set` names and stays where none is set.
use everest_core_dev.Common.{◌≡◌, refl, Bool, true, false, not, ◌&&◌, Option, none, some, arith}

pub data ConnectorStatusTransition : Type 0 where
  enable disable error_cleared faulted transaction_started : ConnectorStatusTransition
  session_finished : ConnectorStatusTransition

pub data ConnectorState : Type 0 where
  available unavailable faulted occupied : ConnectorState
  unavailable_faulted faulted_occupied : ConnectorState

-- The `transitions` of each state descriptor.
unfoldable pub transitions : ConnectorState → ConnectorStatusTransition → Option ConnectorState
transitions ConnectorState.available ConnectorStatusTransition.transaction_started =
    some ConnectorState.occupied
transitions ConnectorState.available ConnectorStatusTransition.faulted = some ConnectorState.faulted
transitions ConnectorState.available ConnectorStatusTransition.disable =
    some ConnectorState.unavailable
transitions ConnectorState.occupied ConnectorStatusTransition.session_finished =
    some ConnectorState.available
transitions ConnectorState.occupied ConnectorStatusTransition.faulted =
    some ConnectorState.faulted_occupied
transitions ConnectorState.faulted ConnectorStatusTransition.error_cleared =
    some ConnectorState.available
transitions ConnectorState.faulted ConnectorStatusTransition.disable =
    some ConnectorState.unavailable_faulted
transitions ConnectorState.unavailable ConnectorStatusTransition.enable =
    some ConnectorState.available
transitions ConnectorState.unavailable ConnectorStatusTransition.faulted =
    some ConnectorState.unavailable_faulted
transitions ConnectorState.unavailable_faulted ConnectorStatusTransition.enable =
    some ConnectorState.faulted
transitions ConnectorState.unavailable_faulted ConnectorStatusTransition.error_cleared =
    some ConnectorState.unavailable
transitions ConnectorState.faulted_occupied ConnectorStatusTransition.session_finished =
    some ConnectorState.faulted
transitions ConnectorState.faulted_occupied ConnectorStatusTransition.error_cleared =
    some ConnectorState.occupied
transitions _ _ = none

abbrev pub Feed : Type 0
Feed =
    (ConnectorState → ConnectorStatusTransition → Option ConnectorState)
    → ConnectorState
    → ConnectorStatusTransition
    → ConnectorState

abbrev pub follow : Feed
follow next s e = elim (next s e) [ none ↦ s | some t ↦ t ]

abbrev pub IsController : Feed → Type 0
IsController feed =
    (next : ConnectorState → ConnectorStatusTransition → Option ConnectorState) (s : ConnectorState)
    (e : ConnectorStatusTransition)
    → feed next s e ≡ follow next s e

-- `Connector::submit_event`, as far as the state goes.
unfoldable pub submit : Feed → ConnectorStatusTransition → ConnectorState → ConnectorState
submit feed e s = feed transitions s e

unfoldable pub is_unavailable : ConnectorState → Bool
is_unavailable ConnectorState.unavailable = true
is_unavailable ConnectorState.unavailable_faulted = true
is_unavailable _ = false

-- A state as three facts about the connector.
pub record Facts : Type 0 where
  pub out_of_service : Bool
  pub fault : Bool
  pub in_use : Bool

abbrev pub facts : ConnectorState → Facts
facts ConnectorState.available = record { out_of_service = false; fault = false; in_use = false }
facts ConnectorState.unavailable = record { out_of_service = true; fault = false; in_use = false }
facts ConnectorState.faulted = record { out_of_service = false; fault = true; in_use = false }
facts ConnectorState.occupied = record { out_of_service = false; fault = false; in_use = true }
facts ConnectorState.unavailable_faulted = record {
  out_of_service = true;
  fault = true;
  in_use = false;
}
facts ConnectorState.faulted_occupied = record {
  out_of_service = false;
  fault = true;
  in_use = true;
}

-- What each event means for the facts. A connector in use cannot be disabled, and only one that is
-- in service, sound and free can be taken into use.
abbrev pub change : ConnectorStatusTransition → Facts → Facts
change ConnectorStatusTransition.enable f = record f { out_of_service = false }
change ConnectorStatusTransition.disable f = record f { out_of_service = not f.in_use }
change ConnectorStatusTransition.error_cleared f = record f { fault = false }
change ConnectorStatusTransition.faulted f = record f { fault = true }
change ConnectorStatusTransition.transaction_started f = record f {
  in_use = elim (not f.out_of_service && not f.fault) [ true ↦ true | false ↦ f.in_use ];
}
change ConnectorStatusTransition.session_finished f = record f { in_use = false }

-- The machine implements the three facts: under a controller that follows the transitions, every
-- event changes the facts of every state as `change` says.
pub facts-submit :
    (feed : Feed)
    → IsController feed
    → (e : ConnectorStatusTransition) (s : ConnectorState)
    → facts (submit feed e s) ≡ change e (facts s)
unfolding submit transitions
facts-submit feed law e s = ground (arith, law transitions s e)

-- `get_state` tells `is_unavailable` exactly if the connector is out of service.
pub is_unavailable-facts : (s : ConnectorState) → is_unavailable s ≡ (facts s).out_of_service
unfolding is_unavailable
is_unavailable-facts ConnectorState.unavailable = refl
is_unavailable-facts _ = refl
