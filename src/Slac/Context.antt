-- ===== src/Slac/Context.antt =====
-- modules/EvseSlac/main/context.hpp and context.cpp, with the messages of libslac that the states
-- read and send. A MAC and a run id are the numbers that their bytes spell; in a message that is
-- sent, fields that are constants of libslac are left out. libslac's constants and the network id
-- that it makes of a key are parameters.
use everest_core_dev.Common.{ℕ, zero, suc, ◌+◌, ◌*◌, ◌^◌, Bool, List, [], ◌∷◌, ltb, if◌then◌else◌}

-- The constants of `slac::defs`, and `generate_nid_from_nmk`. The names are those of the source.
pub record Libslac : Type 0 where
  pub tt_evse_slac_init_ms : ℕ
  pub tt_match_sequence_ms : ℕ
  pub tt_evse_match_mnbc_ms : ℕ
  pub tt_evse_match_session_ms : ℕ
  pub tt_match_response_ms : ℕ
  pub c_ev_match_retry : ℕ
  pub cm_slac_parm_cnf_num_sounds : ℕ
  pub aag_list_len : ℕ
  pub nmk_len : ℕ
  pub nid_of : List ℕ → List ℕ

-- The payload of a `HomeplugMessage`, by its type.
pub data Payload : Type 0 where
  cm_slac_parm_req cm_start_atten_char_ind cm_mnbc_sound_ind : ℕ → Payload
  cm_atten_profile_ind : ℕ → ℕ → List ℕ → Payload
  cm_atten_char_rsp cm_slac_match_req : ℕ → Payload
  cm_validate_req cm_set_key_cnf other_message : Payload

pub record HomeplugMessage : Type 0 where
  pub src_mac : ℕ
  pub payload : Payload

pub data StateName : Type 0 where
  unmatched matching matched : StateName

-- The messages that are sent, with the MAC that they are sent to, and the other callbacks.
pub data Output : Type 0 where
  send_set_key_req : ℕ → List ℕ → List ℕ → Output
  send_slac_parm_cnf : ℕ → ℕ → Output
  send_atten_char_ind : ℕ → ℕ → ℕ → List ℕ → Output
  send_slac_match_cnf : ℕ → ℕ → List ℕ → List ℕ → Output
  send_validate_cnf : ℕ → Output
  signal_state : StateName → Output
  signal_dlink_ready : Bool → Output
  signal_error_routine_request : Output
  signal_cm_slac_parm_req signal_cm_slac_match_cnf : ℕ → Output

-- The members of `Context`, with the clock, in nanoseconds, the numbers that the random generator
-- draws from a fresh seed, the seeds drawn so far, and the calls of the callbacks, the newest first.
pub record Context : Type 0 where
  pub slac_message_payload : HomeplugMessage
  pub plc_peer_mac : ℕ
  pub session_nmk : List ℕ
  pub set_key_timeout_ms : ℕ
  pub now : ℕ
  pub draws : ℕ → ℕ → ℕ
  pub seeds : ℕ
  pub out : List Output

abbrev pub emit : Output → Context → Context
emit o ctx = record ctx { out = o ∷ ctx.out }

-- Milliseconds on the clock.
abbrev pub milliseconds : ℕ → ℕ
milliseconds n = n * 10 ^ 6

-- The character at a place of CHARACTERS.
abbrev character : ℕ → ℕ
character n = if ltb n 10 then 48 + n else 55 + n

unfoldable pub nmk_from : ℕ → ℕ → (ℕ → ℕ) → List ℕ
nmk_from zero i draw = []
nmk_from (suc n) i draw = character (draw i) ∷ nmk_from n (suc i) draw

-- `generate_nmk`.
unfoldable pub generate_nmk : Libslac → Context → Context
unfolding nmk_from
generate_nmk lib ctx = record ctx {
  session_nmk = nmk_from lib.nmk_len 0 (ctx.draws ctx.seeds);
  seeds = suc ctx.seeds;
}
