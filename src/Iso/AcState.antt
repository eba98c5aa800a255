-- ===== src/Iso/AcState.antt =====
-- The states of `iso_ac_state_id` of modules/EvseV2G/iso_server.hpp that the handlers name.
use everest_core_dev.Common.{ℕ}

abbrev pub wait_for_powerdelivery : ℕ
wait_for_powerdelivery = 7

abbrev pub wait_for_chargingstatus : ℕ
wait_for_chargingstatus = 8

abbrev pub wait_for_chargingstatus_powerdelivery : ℕ
wait_for_chargingstatus_powerdelivery = 9

abbrev pub wait_for_meteringreceipt : ℕ
wait_for_meteringreceipt = 10

abbrev pub wait_for_sessionstop : ℕ
wait_for_sessionstop = 11
