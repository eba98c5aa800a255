-- ===== src/Iso/DcState.antt =====
-- The states of `iso_dc_state_id` of modules/EvseV2G/iso_server.hpp. AC has the same first seven.
use everest_core_dev.Common.{ℕ}

abbrev pub wait_for_sessionsetup : ℕ
wait_for_sessionsetup = 0

abbrev pub wait_for_servicediscovery : ℕ
wait_for_servicediscovery = 1

abbrev pub wait_for_svcdetail_paymentsvcsel : ℕ
wait_for_svcdetail_paymentsvcsel = 2

abbrev pub wait_for_paymentdetails_certinst_certupd : ℕ
wait_for_paymentdetails_certinst_certupd = 3

abbrev pub wait_for_paymentdetails : ℕ
wait_for_paymentdetails = 4

abbrev pub wait_for_authorization : ℕ
wait_for_authorization = 5

abbrev pub wait_for_chargeparameterdiscovery : ℕ
wait_for_chargeparameterdiscovery = 6

abbrev pub wait_for_cablecheck : ℕ
wait_for_cablecheck = 7

abbrev pub wait_for_precharge : ℕ
wait_for_precharge = 8

abbrev pub wait_for_precharge_powerdelivery : ℕ
wait_for_precharge_powerdelivery = 9

abbrev pub wait_for_currentdemand_powerdelivery : ℕ
wait_for_currentdemand_powerdelivery = 10

abbrev pub wait_for_currentdemand : ℕ
wait_for_currentdemand = 11

abbrev pub wait_for_meteringreceipt : ℕ
wait_for_meteringreceipt = 12

abbrev pub wait_for_weldingdetection_sessionstop : ℕ
wait_for_weldingdetection_sessionstop = 13

abbrev pub wait_for_terminated_session : ℕ
wait_for_terminated_session = 14
