-- ===== src/Discovery/Announcements.antt =====
-- What the SDP server of modules/EvseV2G/sdp.cpp accepts and announces.
use everest_core_dev.Common.{
  length, length-append, refl, ℕ, ◌+◌, ◌*◌, ◌/◌, ◌%◌, ◌^◌, ◌<◌, ◌≡◌, Bool, true, false, not, ◌&&◌,
  Option, none, some, List, [], ◌∷◌, ◌++◌, ◌==◌, if◌then◌else◌, arith,
}
use everest_core_dev.Discovery.{
  sdp_write_header, sdp_validate_header, Address, Context, sdp_create_response, choose_response,
  answer,
}

-- A header that is written is valid for a type and a length exactly if they are the ones it was
-- written with, whatever follows it. The type has 16 bits and the length has 32.
pub validate-write :
    (payload_type payload_len expected_type expected_len : ℕ) (rest : List ℕ)
    → payload_type < 2 ^ 16
    → payload_len < 2 ^ 32
    → sdp_validate_header
        (sdp_write_header payload_type payload_len ++ rest)
        expected_type
        expected_len
      ≡ (payload_type == expected_type && payload_len == expected_len)
unfolding sdp_validate_header sdp_write_header
validate-write payload_type payload_len expected_type expected_len rest t l =
    let whole_type : (256 * (payload_type / 256 % 256) + payload_type % 256) % 2 ^ 16
        ≡ payload_type =
      omega arith in
    let whole_len : (2 ^ 24 * (payload_len / 2 ^ 24 % 256)
            + 2 ^ 16 * (payload_len / 2 ^ 16 % 256)
            + 2 ^ 8 * (payload_len / 2 ^ 8 % 256)
            + payload_len % 256)
          % 2 ^ 32
        ≡ payload_len =
      omega arith in
    ground (arith, whole_type, whole_len)

-- The response that announces a port: version 1 and its inverse, the type 0x9001, a length of 20, the
-- address, the port, whether it is TLS, and TCP.
abbrev pub response_of : Bool → Option Address → Option (List ℕ)
response_of tls none = none
response_of tls (some addr) =
    let security = if tls then 0 else 16 in
    some
      (1 ∷ 254 ∷ 144 ∷ 1 ∷ 0 ∷ 0 ∷ 0 ∷ 20 ∷ addr.sin6_addr ++ addr.sin6_port ++ security ∷ 0 ∷ [])

-- An address has 16 bytes and a port two.
abbrev pub IsAddress : Option Address → Type 0
IsAddress none = Unit
IsAddress (some addr) = (length addr.sin6_addr ≡ 16) × (length addr.sin6_port ≡ 2)

response-of :
    (tls : Bool) (addr : Address)
    → IsAddress (some addr)
    → some (sdp_create_response addr (if tls then 0 else 16) 0) ≡ response_of tls (some addr)
unfolding sdp_create_response sdp_write_header
response-of tls addr (a, p) =
    let security = if tls then 0 else 16 in
    let twenty : length (addr.sin6_addr ++ addr.sin6_port ++ security ∷ 0 ∷ []) ≡ 20 = omega (
      arith,
      length-append (addr.sin6_addr ++ addr.sin6_port) (security ∷ 0 ∷ []),
      length-append addr.sin6_addr addr.sin6_port,
      a,
      p,
    ) in
    rw twenty refl

abbrev pub or_else : Option (List ℕ) → Option (List ℕ) → Option (List ℕ)
or_else none b = b
or_else (some a) b = some a

abbrev pub address_of : Bool → Context → Option Address
address_of true ctx = ctx.local_tls_addr
address_of false ctx = ctx.local_tcp_addr

answer_at :
    (tls_addr tcp_addr : Option Address) (tls : Bool)
    → IsAddress tls_addr
    → IsAddress tcp_addr
    → let ctx : Context = record { local_tls_addr = tls_addr; local_tcp_addr = tcp_addr } in
      answer ctx (sdp_write_header 36864 2 ++ (if tls then 0 else 16) ∷ 0 ∷ [])
      ≡ or_else
          (response_of tls (address_of tls ctx))
          (response_of (not tls) (address_of (not tls) ctx))
unfolding answer choose_response sdp_validate_header sdp_write_header
answer_at none none true a b = refl
answer_at none none false a b = refl
answer_at none (some tcp) true a b = response-of false tcp b
answer_at none (some tcp) false a b = response-of false tcp b
answer_at (some tls) none true a b = response-of true tls a
answer_at (some tls) none false a b = response-of true tls a
answer_at (some tls) (some tcp) true a b = response-of true tls a
answer_at (some tls) (some tcp) false a b = response-of false tcp b

-- Where an address has 16 bytes and a port two: a request for TCP, with TLS or without, is answered with
-- the address and the port of the kind that it asks for, or, where there is none, with those of the
-- other kind, byte by byte as the protocol has them, and is not answered where there is neither.
pub answer-request :
    (ctx : Context) (tls : Bool)
    → IsAddress ctx.local_tls_addr
    → IsAddress ctx.local_tcp_addr
    → answer ctx (sdp_write_header 36864 2 ++ (if tls then 0 else 16) ∷ 0 ∷ [])
      ≡ or_else
          (response_of tls (address_of tls ctx))
          (response_of (not tls) (address_of (not tls) ctx))
answer-request ctx tls a b = answer_at ctx.local_tls_addr ctx.local_tcp_addr tls a b
