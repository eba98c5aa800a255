-- ===== src/Handshake.antt =====
-- The choice of a charging protocol in modules/EvseV2G/v2g_server.cpp, `v2g_handle_apphandshake`.
use everest_core_dev.Common.{
  ℕ, ◌/◌, ◌%◌, Bool, true, false, not, ◌&&◌, ◌||◌, Option, none, some, List, [], ◌∷◌, ◌++◌, leb,
  ◌==◌, if◌then◌else◌,
}
use everest_core_dev.Iso.Messages.{
  V2gMsgTypeId, supported_app_protocol_msg, V2gEvent, no_event, terminate_connection,
  send_and_terminate,
}
mod Offers
mod Loop
mod Negotiation
mod Scenarios

-- `v2g_protocol`.
pub data Protocol : Type 0 where
  din70121 iso15118_2010 iso15118_2013 iso15118_2015 unknown_protocol : Protocol

-- The characters of a string.
abbrev pub Text : Type 0
Text = List ℕ

-- A string in C ends at its first NUL.
unfoldable pub c_string : Text → Text
c_string [] = []
c_string (a ∷ s) = if a == 0 then [] else a ∷ c_string s

-- `strcmp(s, t) == 0` on strings without a NUL.
abbrev pub same_text : Text → Text → Bool
same_text [] [] = true
same_text (a ∷ s) (b ∷ t) = a == b && same_text s t
same_text _ _ = false

-- "urn:din:70121:2012:MsgDef"
abbrev pub din_70121_msg_def : Text
din_70121_msg_def =
    117 ∷ 114 ∷ 110 ∷ 58 ∷ 100 ∷ 105 ∷ 110 ∷ 58 ∷ 55 ∷ 48 ∷ 49 ∷ 50 ∷ 49 ∷ 58 ∷ 50 ∷ 48 ∷ 49 ∷ 50
    ∷ 58 ∷ 77 ∷ 115 ∷ 103 ∷ 68 ∷ 101 ∷ 102 ∷ []

-- "urn:iso:15118:2:2013:MsgDef"
abbrev pub iso_15118_2013_msg_def : Text
iso_15118_2013_msg_def =
    117 ∷ 114 ∷ 110 ∷ 58 ∷ 105 ∷ 115 ∷ 111 ∷ 58 ∷ 49 ∷ 53 ∷ 49 ∷ 49 ∷ 56 ∷ 58 ∷ 50 ∷ 58 ∷ 50 ∷ 48
    ∷ 49 ∷ 51 ∷ 58 ∷ 77 ∷ 115 ∷ 103 ∷ 68 ∷ 101 ∷ 102 ∷ []

-- `appHandAppProtocolType`, a protocol that the EV offers.
pub record AppProtocol : Type 0 where
  pub protocol_namespace : Text
  pub version_number_major : ℕ
  pub version_number_minor : ℕ
  pub schema_id : ℕ
  pub priority : ℕ

pub data AppResponseCode : Type 0 where
  ok_successful_negotiation failed_no_negotiation : AppResponseCode

pub record SupportedAppProtocolRes : Type 0 where
  pub response_code : AppResponseCode
  pub schema_id : ℕ
  pub schema_id_is_used : Bool

-- The members of `v2g_context` that the handshake reads.
pub record Settings : Type 0 where
  pub supported_protocols : ℕ
  pub debug_mode : Bool
  pub is_connection_terminated : Bool
  pub intl_emergency_shutdown : Bool
  pub stop_hlc : Bool
  pub terminate_connection_on_failed_response : Bool

-- What the handshake writes: members of `v2g_context` and `v2g_connection`, and what is published.
pub record Handshake : Type 0 where
  pub current_v2g_msg : V2gMsgTypeId
  pub selected_protocol : Protocol
  pub handshake_resp : SupportedAppProtocolRes
  pub published : List (List AppProtocol)
  pub stream : Option (List ℕ)

-- The variables of the loop over the offers.
pub record Round : Type 0 where
  pub ev_app_priority : ℕ
  pub app_protocol_array : List AppProtocol
  pub hs : Handshake

-- `supported_protocols & (1 << V2G_PROTO_DIN70121)`, and the name and the version.
unfoldable pub is_din : ℕ → Text → ℕ → Bool
is_din supported ns major = supported % 2 == 1 && same_text ns din_70121_msg_def && major == 2

-- `supported_protocols & (1 << V2G_PROTO_ISO15118_2013)`, and the name and the version.
unfoldable pub is_iso : ℕ → Text → ℕ → Bool
is_iso supported ns major =
    (supported / 4) % 2 == 1 && same_text ns iso_15118_2013_msg_def && major == 2

-- The two branches of the loop that take an offer.
abbrev pub select_offer : AppProtocol → Protocol → Handshake → Handshake
select_offer o chosen hs = record hs {
  selected_protocol = chosen;
  handshake_resp = record hs.handshake_resp {
    response_code = ok_successful_negotiation;
    schema_id = o.schema_id;
  };
}

abbrev pub take_offer : AppProtocol → Protocol → Round → Round
take_offer o chosen r = record r { ev_app_priority = o.priority; hs = select_offer o chosen r.hs }

abbrev pub note_offer : Settings → Text → AppProtocol → Round → Round
note_offer ctx ns o r =
    if ctx.debug_mode
    then record r {
      app_protocol_array = r.app_protocol_array ++ record o { protocol_namespace = ns } ∷ [];
    }
    else r

-- The body of the loop.
unfoldable pub compare_offer : Settings → Text → AppProtocol → Round → Round
compare_offer ctx ns o r = note_offer ctx ns o (
    if is_din ctx.supported_protocols ns o.version_number_major && leb o.priority r.ev_app_priority
    then take_offer o din70121 r
    else if is_iso ctx.supported_protocols ns o.version_number_major
        && leb o.priority r.ev_app_priority
    then take_offer o iso15118_2013 r
    else r)

-- The priority that the loop starts from.
abbrev pub lowest_priority : ℕ
lowest_priority = 20

abbrev pub fail : Handshake → Handshake
fail hs = record hs {
  handshake_resp = record hs.handshake_resp { response_code = failed_no_negotiation };
}

abbrev pub is_ok : SupportedAppProtocolRes → Bool
is_ok res = elim res.response_code [
  | ok_successful_negotiation ↦ true
  | failed_no_negotiation ↦ false
]

abbrev pub use_schema_id : Handshake → Handshake
use_schema_id hs = record hs {
  handshake_resp = record hs.handshake_resp { schema_id_is_used = true };
}

-- `duplicate` is `strndup`, which returns nothing when the memory does not suffice.
module _ (duplicate : Text → Option Text) where
  -- The loop, and whether it reached the end of the offers.
  unfoldable pub compare_offers : Settings → List AppProtocol → Round → Round × Bool
  compare_offers ctx [] r = (r, true)
  compare_offers ctx (o ∷ offers) r = elim (duplicate o.protocol_namespace) [
    | none ↦ (r, false)
    | some ns ↦ compare_offers ctx offers (compare_offer ctx ns o r)
  ]

-- The encoder of OpenV2G.
module _ (encode : SupportedAppProtocolRes → Option (List ℕ)) where
  -- The encoding of the response at the end.
  abbrev pub encode_response : V2gEvent → Handshake → Handshake × V2gEvent
  encode_response event hs = elim (encode hs.handshake_resp) [
    | none ↦ (record hs { stream = none }, send_and_terminate)
    | some bytes ↦ (record hs { stream = some bytes }, event)
  ]

  -- The checks after the loop.
  unfoldable pub finish_handshake : Settings → Handshake → Handshake × V2gEvent
  finish_handshake ctx hs =
      if ctx.is_connection_terminated
      then (if is_ok hs.handshake_resp then use_schema_id hs else hs, terminate_connection)
      else if is_ok hs.handshake_resp
      then (if ctx.intl_emergency_shutdown || ctx.stop_hlc
          then encode_response
              (if ctx.terminate_connection_on_failed_response then send_and_terminate else no_event)
              (fail (use_schema_id hs))
          else encode_response no_event (use_schema_id hs))
      else encode_response send_and_terminate (fail hs)

-- The initial response and the decoder are those of OpenV2G.
module _ (init_document : SupportedAppProtocolRes → SupportedAppProtocolRes)
    (duplicate : Text → Option Text) (decode : List ℕ → Option (List AppProtocol))
    (encode : SupportedAppProtocolRes → Option (List ℕ)) where
  unfoldable pub v2g_handle_apphandshake : Settings → List ℕ → Handshake → Handshake × V2gEvent
  unfolding compare_offers finish_handshake
  v2g_handle_apphandshake ctx bytes hs =
      let start = record hs {
        handshake_resp = record (init_document hs.handshake_resp) {
          response_code = failed_no_negotiation;
        };
        current_v2g_msg = supported_app_protocol_msg;
      } in
      elim (decode bytes) [
        | none ↦ (start, terminate_connection)
        | some offers ↦
            (let (r, all) = compare_offers duplicate ctx offers (record {
              ev_app_priority = lowest_priority;
              app_protocol_array = [];
              hs = start;
            }) in
              if not all
              then (r.hs, terminate_connection)
              else finish_handshake encode ctx (
                  if ctx.debug_mode
                  then record r.hs { published = r.app_protocol_array ∷ r.hs.published }
                  else r.hs))
      ]
