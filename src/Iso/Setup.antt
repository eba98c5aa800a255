-- ===== src/Iso/Setup.antt =====
-- The handlers of modules/EvseV2G/iso_server.cpp up to the authorization. Each returns the context,
-- the response and the event. Response fields that only the EV reads are left out, as are the values
-- of the EV that are published.
use everest_core_dev.Common.{
  ℕ, Bool, true, false, not, ◌&&◌, ◌||◌, Option, none, some, List, [], ◌∷◌, ◌==◌, if◌then◌else◌,
}
use everest_core_dev.Iso.Messages.{
  authorization_msg, V2gEvent, ResponseCode, ok, ok_new_session_established,
  failed_service_id_invalid, failed_payment_selection_invalid, failed_service_selection_invalid,
  failed_no_charge_service_selected, failed_cert_chain_error, failed_challenge_invalid,
  failed_signature_error, same_msg,
}
use everest_core_dev.Iso.DcState
use everest_core_dev.Iso.Context.{
  Context, Undefined, Response, PaymentOption, contract, external_payment,
  ongoing_waiting_for_customer_interaction, to_state, with_evse, is_contract, is_finished,
  iso_validate_response_code, publish_selected_payment_option,
}

-- A context, a response and an event.
abbrev pub Answer : Type 0
Answer = Context × Response × V2gEvent

-- What mbedTLS and the codec make of a contract certificate and its chain: whether it can be
-- published, is there, has the EMAID of the request, is parsed, and has an ECDSA key.
pub record ContractChain : Type 0 where
  pub is_publishable : Bool
  pub is_present : Bool
  pub emaid_matches : Bool
  pub is_parsed : Bool
  pub has_ecdsa_key : Bool

-- An AuthorizationReq: its challenge, and whether its signature is valid, if it has one.
pub record AuthorizationReq : Type 0 where
  pub gen_challenge : Option (List ℕ)
  pub signature : Option Bool

abbrev pub is_in : ℕ → List ℕ → Bool
is_in x [] = false
is_in x (y ∷ ys) = x == y || is_in x ys

abbrev pub same_bytes : List ℕ → List ℕ → Bool
same_bytes [] [] = true
same_bytes (x ∷ xs) (y ∷ ys) = x == y && same_bytes xs ys
same_bytes [] (y ∷ ys) = false
same_bytes (x ∷ xs) [] = false

abbrev pub same_option : PaymentOption → PaymentOption → Bool
same_option a b = if is_contract a then is_contract b else not (is_contract b)

abbrev pub is_option_in : PaymentOption → List PaymentOption → Bool
is_option_in a [] = false
is_option_in a (b ∷ more) = same_option b a || is_option_in a more

abbrev pub v2g_service_id_charging : ℕ
v2g_service_id_charging = 1

module _ (u : Undefined) where
  -- The check at the end of a handler, with what follows it.
  abbrev pub respond : Response → Context → (Context → Context) → Answer
  respond res c next =
      let (code, event) = iso_validate_response_code u res.response_code c in
      (next c, record res { response_code = code }, event)

  abbrev pub answer : ResponseCode → Response
  answer code = record { response_code = code; evse_processing = u.unset_processing }

  -- `drawn` is the session id of the random generator.
  unfoldable pub handle_iso_session_setup : ℕ → Context → Answer
  unfolding iso_validate_response_code
  handle_iso_session_setup drawn c =
      let c1 = record c { session_id = if c.session_id == 0 then drawn else c.session_id } in
      respond (answer ok_new_session_established) c1 (to_state DcState.wait_for_servicediscovery)

  -- Contracts are not offered without TLS, except for debugging.
  abbrev pub correct_payment_options : Context → Context
  correct_payment_options c =
      with_evse
        (if not c.is_tls_connection
            && is_option_in PaymentOption.contract c.evse.payment_option_list
            && not c.debug_mode
          then record c.evse { payment_option_list = external_payment ∷ [] }
          else c.evse)
        c

  -- The services that are offered are left out.
  unfoldable pub handle_iso_service_discovery : Context → Answer
  unfolding iso_validate_response_code
  handle_iso_service_discovery c =
      respond (answer ok) (correct_payment_options c)
        (to_state DcState.wait_for_svcdetail_paymentsvcsel)

  abbrev pub detail_code : ℕ → Context → ResponseCode
  detail_code service_id c =
      if service_id == v2g_service_id_charging || is_in service_id c.evse.evse_service_list
      then ok
      else failed_service_id_invalid

  unfoldable pub handle_iso_service_detail : ℕ → Context → Answer
  unfolding iso_validate_response_code
  handle_iso_service_detail service_id c =
      respond (answer (detail_code service_id c)) c
        (to_state DcState.wait_for_svcdetail_paymentsvcsel)

  -- The loop over the selected services: whether the charge service came before the loop ended, and
  -- whether all services that it looked at are known.
  unfoldable pub check_services : List ℕ → List ℕ → Bool → Bool × Bool
  check_services known [] charge = (charge, true)
  check_services known (s ∷ more) charge =
      let rest = check_services known more (charge || s == v2g_service_id_charging) in
      if s == v2g_service_id_charging || is_in s known then rest else (charge, false)

  unfoldable pub selection_code : PaymentOption → List ℕ → Context → ResponseCode
  unfolding check_services
  selection_code option selected c =
      let (charge, known) = check_services c.evse.evse_service_list selected false in
      if not charge
      then failed_no_charge_service_selected
      else if not known
      then failed_service_selection_invalid
      else if is_option_in option c.evse.payment_option_list
      then ok
      else failed_payment_selection_invalid

  abbrev pub note_selection : PaymentOption → Context → Context
  note_selection option c = record c {
    out =
        if is_option_in option c.evse.payment_option_list
        then publish_selected_payment_option option ∷ c.out
        else c.out;
  }

  abbrev pub after_selection : PaymentOption → Context → Context
  after_selection contract c = to_state DcState.wait_for_paymentdetails_certinst_certupd c
  after_selection external_payment c =
      to_state DcState.wait_for_authorization
        (with_evse (record c.evse { auth_processing = ongoing_waiting_for_customer_interaction }) c)

  unfoldable pub handle_iso_payment_service_selection : PaymentOption → List ℕ → Context → Answer
  unfolding iso_validate_response_code selection_code
  handle_iso_payment_service_selection option selected c =
      respond (answer (selection_code option selected c)) (note_selection option c)
        (after_selection option)

  abbrev pub is_good_chain : ContractChain → Context → Bool
  is_good_chain chain c =
      chain.is_publishable
      && is_contract c.selected_payment_option
      && chain.is_present
      && chain.emaid_matches
      && chain.is_parsed
      && chain.has_ecdsa_key

  -- `challenge` is what the random generator draws.
  abbrev pub keep_chain : ContractChain → List ℕ → Context → Context
  keep_chain chain challenge c =
      let good = is_good_chain chain c in
      record c {
        gen_challenge = if good then challenge else c.gen_challenge;
        valid_crt = if chain.is_publishable then good else c.valid_crt;
      }

  unfoldable pub handle_iso_payment_details : ContractChain → List ℕ → Context → Answer
  unfolding iso_validate_response_code
  handle_iso_payment_details chain challenge c =
      respond (answer (if is_good_chain chain c then ok else failed_cert_chain_error))
        (keep_chain chain challenge c) (to_state DcState.wait_for_authorization)

  abbrev pub has_challenge : Option (List ℕ) → List ℕ → Bool
  has_challenge none expected = false
  has_challenge (some bytes) expected = same_bytes bytes expected

  -- The first request of a contract needs the challenge and a valid signature. In the error path the
  -- processing is not set.
  unfoldable pub check_authorization : AuthorizationReq → Context → Response
  check_authorization req c =
      if not (same_msg c.last_v2g_msg authorization_msg) && is_contract c.selected_payment_option
      then if not (has_challenge req.gen_challenge c.gen_challenge)
        then answer failed_challenge_invalid
        else elim req.signature [
          | none ↦ answer failed_signature_error
          | some valid ↦
              if valid
              then record { response_code = ok; evse_processing = c.evse.auth_processing }
              else answer failed_signature_error
        ]
      else record { response_code = ok; evse_processing = c.evse.auth_processing }

  abbrev pub authorized_state : Response → ℕ
  authorized_state res =
      if is_finished res.evse_processing
      then DcState.wait_for_chargeparameterdiscovery
      else DcState.wait_for_authorization

  unfoldable pub handle_iso_authorization : AuthorizationReq → Context → Answer
  unfolding iso_validate_response_code check_authorization
  handle_iso_authorization req c =
      respond (check_authorization req c) c
        (to_state (authorized_state (check_authorization req c)))
