-- ===== src/Discovery/Scenarios.antt =====
-- A server of modules/EvseV2G/sdp.cpp without TLS, and the theorems on its answers.
use everest_core_dev.Common.{refl, ℕ, ◌≡◌, true, none, some, List, [], ◌∷◌, ◌++◌}
use everest_core_dev.Discovery.{sdp_write_header, Address, Context, answer}
use everest_core_dev.Discovery.Announcements.{answer-request}

abbrev plain_port : Address
plain_port = record {
  sin6_addr = 254 ∷ 128 ∷ 0 ∷ 0 ∷ 0 ∷ 0 ∷ 0 ∷ 0 ∷ 2 ∷ 0 ∷ 0 ∷ 255 ∷ 254 ∷ 0 ∷ 0 ∷ 1 ∷ [];
  sin6_port = 250 ∷ 1 ∷ [];
}

abbrev plain : Context
plain = record { local_tls_addr = none; local_tcp_addr = some plain_port }

abbrev asked : List ℕ
asked = 1 ∷ 254 ∷ 144 ∷ 0 ∷ 0 ∷ 0 ∷ 0 ∷ 2 ∷ 0 ∷ 0 ∷ []

answer-request_example :
    answer plain (sdp_write_header 36864 2 ++ 0 ∷ 0 ∷ [])
    ≡ some (1 ∷ 254 ∷ 144 ∷ 1 ∷ 0 ∷ 0 ∷ 0 ∷ 20 ∷ plain_port.sin6_addr ++ 250 ∷ 1 ∷ 16 ∷ 0 ∷ [])
answer-request_example = answer-request plain true tt (refl, refl)
