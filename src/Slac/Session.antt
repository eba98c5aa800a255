-- ===== src/Slac/Session.antt =====
-- `MatchingSession` of modules/EvseSlac/main/states.
use everest_core_dev.Common.{
  ◌%◌, ℕ, zero, suc, ◌+◌, ◌/◌, Bool, true, false, ◌&&◌, List, [], ◌∷◌, map, ◌==◌, if◌then◌else◌,
}
use everest_core_dev.Slac.Context.{Libslac, Context, send_atten_char_ind, emit, milliseconds}

pub data MatchingSubState : Type 0 where
  wait_for_start_atten_char sounding wait_for_atten_char_rsp : MatchingSubState
  wait_for_slac_match received_slac_match match_complete failed : MatchingSubState

pub record MatchingSession : Type 0 where
  pub state : MatchingSubState
  pub ev_mac : ℕ
  pub run_id : ℕ
  pub next_timeout : ℕ
  pub timeout_active : Bool
  pub captured_sounds : ℕ
  pub captured_aags : List ℕ
  pub received_mnbc_sound : Bool

unfoldable pub zeros : ℕ → List ℕ
zeros zero = []
zeros (suc n) = 0 ∷ zeros n

-- The constructor. `next_timeout` has the clock's epoch.
unfoldable pub new_session : Libslac → ℕ → ℕ → MatchingSession
unfolding zeros
new_session lib ev_mac run_id = record {
  state = wait_for_start_atten_char;
  ev_mac = ev_mac;
  run_id = run_id;
  next_timeout = 0;
  timeout_active = false;
  captured_sounds = 0;
  captured_aags = zeros lib.aag_list_len;
  received_mnbc_sound = false;
}

abbrev pub set_next_timeout : ℕ → ℕ → MatchingSession → MatchingSession
set_next_timeout now delay_ms s = record s {
  next_timeout = now + milliseconds delay_ms;
  timeout_active = true;
}

abbrev pub ack_timeout : MatchingSession → MatchingSession
ack_timeout s = record s { timeout_active = false }

abbrev pub is_identified_by : ℕ → ℕ → MatchingSession → Bool
is_identified_by ev_mac run_id s = run_id == s.run_id && ev_mac == s.ev_mac

abbrev pub has_failed : MatchingSubState → Bool
has_failed failed = true
has_failed _ = false

unfoldable pub all_sessions_failed : List MatchingSession → Bool
all_sessions_failed [] = true
all_sessions_failed (s ∷ more) = has_failed s.state && all_sessions_failed more

unfoldable pub ones : ℕ → List ℕ
ones zero = []
ones (suc n) = 1 ∷ ones n

-- The attenuation of `create_cm_atten_char_ind`, where each number is stored in a byte.
unfoldable pub average : Libslac → MatchingSession → List ℕ
unfolding ones
average lib s =
    if s.captured_sounds == 0
    then ones lib.aag_list_len
    else map (λ sum. sum / s.captured_sounds % 256) s.captured_aags

-- `finalize_sounding`.
unfoldable pub finalize_sounding : Libslac → MatchingSession → Context → MatchingSession × Context
unfolding average
finalize_sounding lib s ctx = (
  set_next_timeout ctx.now lib.tt_match_response_ms (record s { state = wait_for_atten_char_rsp }),
  emit (send_atten_char_ind s.ev_mac s.run_id s.captured_sounds (average lib s)) ctx,
)
