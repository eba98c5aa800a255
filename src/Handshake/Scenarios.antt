-- ===== src/Handshake/Scenarios.antt =====
-- An EV that offers three protocols to modules/EvseV2G/v2g_server.cpp, and the theorems on it.
use everest_core_dev.Common.{◌≡◌, refl, true, false, ℕ, Option, none, some, List, [], ◌∷◌}
use everest_core_dev.Iso.Messages.{V2gMsgTypeId, V2gEvent, no_event, send_and_terminate}
use everest_core_dev.Handshake.{
  Protocol, Text, c_string, din_70121_msg_def, iso_15118_2013_msg_def, AppProtocol, AppResponseCode,
  SupportedAppProtocolRes, Settings, Handshake, is_din, is_iso, compare_offer, compare_offers,
  finish_handshake, lowest_priority, v2g_handle_apphandshake,
}
use everest_core_dev.Handshake.Offers.{IsBest}
use everest_core_dev.Handshake.Negotiation.{IsNegotiated, handshake-IsNegotiated, handshake-goes_on}

abbrev offer : Text → ℕ → ℕ → ℕ → AppProtocol
offer ns major id priority = record {
  protocol_namespace = ns;
  version_number_major = major;
  version_number_minor = 0;
  schema_id = id;
  priority = priority;
}

-- ISO 15118-20, which is not supported, then ISO 15118-2 and DIN 70121.
abbrev three_offers : List AppProtocol
three_offers =
    offer (117 ∷ 114 ∷ 110 ∷ []) 1 5 1
    ∷ offer iso_15118_2013_msg_def 2 6 2
    ∷ offer din_70121_msg_def 2 7 3
    ∷ []

abbrev decode_three : List ℕ → Option (List AppProtocol)
decode_three [] = none
decode_three (_ ∷ _) = some three_offers

abbrev encode_id : SupportedAppProtocolRes → Option (List ℕ)
encode_id res = some (res.schema_id ∷ [])

abbrev settings : ℕ → Settings
settings supported = record {
  supported_protocols = supported;
  debug_mode = false;
  is_connection_terminated = false;
  intl_emergency_shutdown = false;
  stop_hlc = false;
  terminate_connection_on_failed_response = true;
}

abbrev fresh : Handshake
fresh = record {
  current_v2g_msg = V2gMsgTypeId.unknown_msg;
  selected_protocol = Protocol.unknown_protocol;
  handshake_resp = record {
    response_code = AppResponseCode.failed_no_negotiation;
    schema_id = 0;
    schema_id_is_used = false;
  };
  published = [];
  stream = none;
}

abbrev negotiate : ℕ → Handshake × V2gEvent
negotiate supported =
    v2g_handle_apphandshake (λ res. res) (λ s. some (c_string s)) decode_three encode_id
      (settings supported) (1 ∷ []) fresh

-- With ISO 15118-2 and DIN 70121 supported, with DIN 70121 alone, and with neither.
both_test : ((negotiate 5).0.stream ≡ some (6 ∷ [])) × ((negotiate 5).1 ≡ no_event)
unfolding v2g_handle_apphandshake compare_offers compare_offer c_string finish_handshake is_din
    is_iso
both_test = (refl, refl)

din_test :
    ((negotiate 1).0.stream ≡ some (7 ∷ []))
    × ((negotiate 1).0.selected_protocol ≡ Protocol.din70121)
unfolding v2g_handle_apphandshake compare_offers compare_offer c_string finish_handshake is_din
    is_iso
din_test = (refl, refl)

neither_test : (negotiate 2).1 ≡ send_and_terminate
unfolding v2g_handle_apphandshake compare_offers compare_offer c_string finish_handshake is_din
    is_iso
neither_test = refl

handshake-IsNegotiated_example : IsNegotiated encode_id 5 three_offers (negotiate 5)
handshake-IsNegotiated_example =
    handshake-IsNegotiated (λ res. res) (λ s. some (c_string s)) decode_three encode_id (λ s. refl)
      (settings 5) (1 ∷ []) fresh three_offers refl refl refl refl

handshake-goes_on_example :
    ((settings 5).is_connection_terminated ≡ false)
    × ((settings 5).intl_emergency_shutdown ≡ false)
    × ((settings 5).stop_hlc ≡ false)
    × ((negotiate 5).0.handshake_resp.response_code ≡ AppResponseCode.ok_successful_negotiation)
    × ((offers : List AppProtocol) × (decode_three (1 ∷ []) ≡ some offers)
        × ((o : AppProtocol) × IsBest 5 offers lowest_priority o (negotiate 5).0.selected_protocol))
handshake-goes_on_example =
    handshake-goes_on (λ res. res) (λ s. some (c_string s)) decode_three encode_id (λ s. refl)
      (settings 5) (1 ∷ []) fresh refl (both_test.1)
