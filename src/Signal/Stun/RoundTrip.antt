-- ===== src/Signal/Stun/RoundTrip.antt =====
-- A STUN request and a response are read as they were built, and the service answers a request.
use tj_rtc.Prelude.{
  ℕ, zero, suc, ◌+◌, ◌^◌, ◌≤◌, ◌<◌, bit_xor, ◌≡◌, refl, sym, subst, false, some, List, [], ◌++◌,
  append-nil, append_assoc, arith, ltb, tests, length, drop, length-append, drop-length_append,
  ◌>>>◌,
}
use tj_rtc.Bytes.{
  ok, read_u8, write_be16, write_be32, step_need, step_check, step_be16, step_be32, step_bytes,
}
use tj_rtc.Prelude.{bit_xor_twice}
use tj_rtc.Signal.Stun.{
  binding_request, binding_response, magic_cookie, htonl, build_request, mapped_attribute,
  build_response, parse_header, MappedAddress, mapped, read_mapped, attribute_value, read_attribute,
  attribute_loop, parse_mapped_address, xor_mapped_address, StunService, handle_packet,
}

-- The transaction of a packet is its 12 bytes from offset 8 on.
pub parse_header-build_request :
    (transaction rest : List ℕ)
    → length transaction ≡ 12
    → parse_header (build_request transaction ++ rest)
      ≡ ok (
        record { message_type = binding_request; message_length = 0; transaction_id = transaction },
        rest,
      )
unfolding parse_header build_request
parse_header-build_request transaction rest h = simp append_assoc (
    step_need 20 _ _
      (unfold write_be16 write_be32 in omega (arith, length-append {0} transaction rest))
      (step_be16 binding_request _ _ (omega arith) (
        step_be16 0 _ _ (omega arith) (
          step_be32 magic_cookie _ _ (omega arith)
            (step_check _ _ _ refl (step_bytes transaction rest 12 _ (sym h) refl))))))

parse_header-build_response :
    (transaction : List ℕ) (s_addr port : ℕ)
    → length transaction ≡ 12
    → parse_header (build_response transaction s_addr port)
      ≡ ok (
        record {
          message_type = binding_response;
          message_length = 12;
          transaction_id = transaction;
        },
        mapped_attribute s_addr port,
      )
unfolding parse_header build_response
parse_header-build_response transaction s_addr port h =
    let rest : List ℕ = mapped_attribute s_addr port in
    step_need 20 _ _
      (unfold write_be16 write_be32 in omega (arith, length-append {0} transaction rest))
      (step_be16 binding_response _ _ (omega arith) (
        step_be16 12 _ _ (omega arith) (
          step_be32 magic_cookie _ _ (omega arith)
            (step_check _ _ _ refl (step_bytes transaction rest 12 _ (sym h) refl)))))

read_mapped-xor :
    (s_addr port : ℕ)
    → s_addr < 2 ^ 32
    → port < 2 ^ 16
    → read_mapped (drop 4 (mapped_attribute s_addr port))
      ≡ ok (record { s_addr = s_addr; port = port }, [])
unfolding read_mapped mapped_attribute read_u8 write_be16
read_mapped-xor s_addr port a p =
    let (address, high) = bit_xor_twice 32 s_addr (htonl magic_cookie) a (omega arith) in
    let (number, low) = bit_xor_twice 16 port (magic_cookie >>> 16) p (omega arith) in
    step_be16 _ _ _ low (
      rw (number, sym (append-nil (write_be32 (bit_xor s_addr (htonl magic_cookie)))))
        (step_be32 _ _ _ high (rw address refl)))

read_attribute-mapped :
    (s_addr port : ℕ)
    → s_addr < 2 ^ 32
    → port < 2 ^ 16
    → read_attribute (mapped_attribute s_addr port)
      ≡ ok (mapped (record { s_addr = s_addr; port = port }), [])
unfolding read_attribute mapped_attribute attribute_value write_be16 write_be32
read_attribute-mapped s_addr port a p = step_need 4 _ _ (omega arith) (
    step_be16 xor_mapped_address _ _ (omega arith) (
      step_be16 8 _ _ (omega arith)
        (step_need 8 _ _ (omega arith) (rw (read_mapped-xor s_addr port a p) refl))))

-- The address ends the loop, whatever fuel is left.
attribute_loop-mapped :
    (fuel : ℕ) (bytes rest : List ℕ) (a : MappedAddress)
    → 0 < fuel
    → read_attribute bytes ≡ ok (mapped a, rest)
    → attribute_loop fuel bytes ≡ ok (a, rest)
unfolding attribute_loop
attribute_loop-mapped zero bytes rest a h e = absurd (omega arith)
attribute_loop-mapped (suc fuel) bytes rest a h e = rw e refl

attributes-build_response :
    (transaction : List ℕ) (s_addr port : ℕ)
    → length transaction ≡ 12
    → drop 20 (build_response transaction s_addr port) ≡ mapped_attribute s_addr port
unfolding build_response write_be16 write_be32
attributes-build_response transaction s_addr port h =
    let attribute = mapped_attribute s_addr port in
    subst (λ n. drop n (transaction ++ attribute) ≡ attribute) h
      (drop-length_append transaction attribute)

-- The address and the port that a response was built for are read from it, for a transaction of 12
-- bytes: both are hidden by an exclusive or, which the parser undoes.
pub parse_mapped_address-build_response :
    (transaction : List ℕ) (s_addr port : ℕ)
    → length transaction ≡ 12
    → s_addr < 2 ^ 32
    → port < 2 ^ 16
    → parse_mapped_address (build_response transaction s_addr port)
      ≡ ok (record { s_addr = s_addr; port = port })
unfolding parse_mapped_address
parse_mapped_address-build_response transaction s_addr port h a p =
    rw
      (
        attributes-build_response transaction s_addr port h,
        attribute_loop-mapped (length (build_response transaction s_addr port) + 1) _ _
            (record { s_addr = s_addr; port = port }) (omega arith)
            (read_attribute-mapped s_addr port a p),
      )
      refl

length-build_response :
    (transaction : List ℕ) (s_addr port : ℕ)
    → length transaction ≡ 12
    → length (build_response transaction s_addr port) ≡ 32
unfolding build_response mapped_attribute write_be16 write_be32
length-build_response transaction s_addr port h =
    omega (arith, h, length-append {0} transaction (mapped_attribute s_addr port))

parse_header-request :
    (transaction : List ℕ)
    → length transaction ≡ 12
    → parse_header (build_request transaction)
      ≡ ok (
        record { message_type = binding_request; message_length = 0; transaction_id = transaction },
        [],
      )
parse_header-request transaction h =
    subst
      (λ b.
        parse_header b
        ≡ ok (
          record {
            message_type = binding_request;
            message_length = 0;
            transaction_id = transaction;
          },
          [],
        ))
      (append-nil (build_request transaction)) (parse_header-build_request transaction [] h)

-- A binding request of a client is answered, where the buffer holds 32 bytes, by a response from
-- which the client reads its transaction, its address and its port; both counters grow by 1.
pub handle_packet-build_request :
    (s : StunService) (transaction : List ℕ) (s_addr port capacity : ℕ)
    → length transaction ≡ 12
    → s_addr < 2 ^ 32
    → port < 2 ^ 16
    → 32 ≤ capacity
    → (handle_packet s (build_request transaction) s_addr port capacity ≡ (
      record { request_count = s.request_count + 1; response_count = s.response_count + 1 },
      some (build_response transaction s_addr port),
    ))
      × (parse_header (build_response transaction s_addr port)
          ≡ ok (
            record {
              message_type = binding_response;
              message_length = 12;
              transaction_id = transaction;
            },
            mapped_attribute s_addr port,
          ))
      × (parse_mapped_address (build_response transaction s_addr port)
          ≡ ok (record { s_addr = s_addr; port = port }))
unfolding handle_packet
handle_packet-build_request s transaction s_addr port capacity h a p room =
    let size = length-build_response transaction s_addr port h in
    let fits : ltb capacity (length (build_response transaction s_addr port)) ≡ false =
      grind (arith, tests) in
    (
      rw (parse_header-request transaction h, fits) refl,
      parse_header-build_response transaction s_addr port h,
      parse_mapped_address-build_response transaction s_addr port h a p,
    )
