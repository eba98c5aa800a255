-- ===== src/Iso/Tables.antt =====
-- The tables of modules/EvseV2G/iso_server.hpp, and the check against them.
use everest_core_dev.Common.{ℕ, ◌≡◌, Bool, true, false, ◌||◌, arith, if◌then◌else◌, ◌==◌}
use everest_core_dev.Iso.Messages.{
  V2gMsgTypeId, ResponseCode, is_failed, is_among, allowed_in, iso_ac_states, iso_dc_states,
  same_msg,
}
use everest_core_dev.Iso.Context.{Context, Undefined, iso_validate_state, validated_code}

-- The table has the message in the state.
unfoldable pub table_allows : Undefined → Bool → ℕ → V2gMsgTypeId → Bool
unfolding allowed_in
table_allows u is_dc state msg =
    is_among msg (allowed_in u.beyond (if is_dc then iso_dc_states else iso_ac_states) state)

abbrev pub is_allowed : Undefined → Context → Bool
is_allowed u c = table_allows u c.is_dc_charger c.state c.current_v2g_msg

-- What a code that is not a failure tells of the context that was checked.
pub record IsAdmitted (u : Undefined) (c : Context) : Type 0 where
  pub allowed : is_allowed u c ≡ true
  pub known :
      same_msg c.current_v2g_msg V2gMsgTypeId.session_setup_msg ≡ false
      → c.session_id == c.received_session_id ≡ true
  pub goes_on : (c.evse.stop_hlc || c.evse.intl_emergency_shutdown) ≡ false

pub validated_code-IsAdmitted :
    (u : Undefined) (code : ResponseCode) (c : Context)
    → is_failed (validated_code u code c) ≡ false
    → IsAdmitted u c × (is_failed code ≡ false)
unfolding validated_code iso_validate_state table_allows
validated_code-IsAdmitted u code c e = ground arith
