-- ===== src/Discovery.antt =====
-- The SDP server of modules/EvseV2G/sdp.cpp. Buffers are lists of bytes, and an address is its 16
-- bytes and the 2 of its port, in network byte order.
use everest_core_dev.Common.{
  ℕ, ◌+◌, ◌*◌, ◌/◌, ◌%◌, ◌^◌, Bool, true, false, not, Option, none, some, List, [], ◌∷◌, ◌++◌,
  length, get_elem?, ◌==◌, if◌then◌else◌,
}
pub mod Announcements
mod Scenarios

-- `sdp_write_header`, the bytes that it fills in.
unfoldable pub sdp_write_header : ℕ → ℕ → List ℕ
sdp_write_header payload_type payload_len =
    1
    ∷ 254
    ∷ payload_type / 256 % 256
    ∷ payload_type % 256
    ∷ payload_len / 2 ^ 24 % 256
    ∷ payload_len / 2 ^ 16 % 256
    ∷ payload_len / 2 ^ 8 % 256
    ∷ payload_len % 256
    ∷ []

-- `true` stands for 0, and `false` for -1. A buffer has eight bytes or more.
unfoldable pub sdp_validate_header : List ℕ → ℕ → ℕ → Bool
sdp_validate_header (b0 ∷ b1 ∷ b2 ∷ b3 ∷ b4 ∷ b5 ∷ b6 ∷ b7 ∷ rest) expected_type expected_len =
    if not (b0 == 1)
    then false
    else if not (b1 == 254)
    then false
    else if not ((256 * b2 + b3) % 2 ^ 16 == expected_type)
    then false
    else if not ((2 ^ 24 * b4 + 2 ^ 16 * b5 + 2 ^ 8 * b6 + b7) % 2 ^ 32 == expected_len)
    then false
    else true
sdp_validate_header _ expected_type expected_len = false

pub record Address : Type 0 where
  pub sin6_addr : List ℕ
  pub sin6_port : List ℕ

-- `local_tls_addr` and `local_tcp_addr` of `v2g_context`.
pub record Context : Type 0 where
  pub local_tls_addr : Option Address
  pub local_tcp_addr : Option Address

-- `sdp_create_response`.
unfoldable pub sdp_create_response : Address → ℕ → ℕ → List ℕ
unfolding sdp_write_header
sdp_create_response addr security proto =
    let payload = addr.sin6_addr ++ addr.sin6_port ++ security ∷ proto ∷ [] in
    sdp_write_header 36865 (length payload) ++ payload

-- `sdp_send_response`, up to the call of `sendto`: the response to send, or none. TLS is 0 and no
-- security is 16.
unfoldable pub choose_response : Context → ℕ → ℕ → Option (List ℕ)
unfolding sdp_create_response
choose_response ctx security proto =
    if not (proto == 0)
    then none
    else if security == 0
    then (elim ctx.local_tls_addr [
      | some tls ↦ some (sdp_create_response tls 0 0)
      | none ↦ elim ctx.local_tcp_addr [
        | some tcp ↦ some (sdp_create_response tcp 16 0)
        | none ↦ none
      ]
    ])
    else if security == 16
    then (elim ctx.local_tcp_addr [
      | some tcp ↦ some (sdp_create_response tcp 16 0)
      | none ↦ elim ctx.local_tls_addr [
        | some tls ↦ some (sdp_create_response tls 0 0)
        | none ↦ none
      ]
    ])
    else none

abbrev byte_at : ℕ → List ℕ → ℕ
byte_at i buffer = elim (get_elem? buffer i) [ none ↦ 0 | some byte ↦ byte ]

-- One datagram in `sdp_listen`: the bytes of it that `recvfrom` puts into the buffer of ten.
unfoldable pub answer : Context → List ℕ → Option (List ℕ)
unfolding choose_response sdp_validate_header
answer ctx buffer =
    if not (length buffer == 10)
    then none
    else if sdp_validate_header buffer 36864 2
    then choose_response ctx (byte_at 8 buffer) (byte_at 9 buffer)
    else none
