-- ===== src/Proto/Socks5/Answers.antt =====
-- What the server answers, whatever the client sends.
use kanotls.Prelude.{
  ℕ, ◌+◌, ◌≤◌, ◌≡◌, ◌≢◌, refl, ◌⊎◌, inl, inr, List, [], ◌∷◌, Option, Option-cases, Result, ok, err,
  true, false, Bool-cases, ltb, ◌==◌, ◌||◌, not, length, arith, get_or, take, drop, All,
  length-drop,
}
use kanotls.Proto.Addr.{SocketAddr}
use kanotls.Proto.Target.{Host}
use kanotls.Proto.Utf8.{is_utf8}
use kanotls.Proto.Conn.{Conn, resume}
use kanotls.Proto.Socks5.{
  handshake_inner, read_address, read_v4_address, read_domain_address, read_v6_address, serve,
  serve_request, socks_reply, contains, Socks5Error,
}
use kanotls.Proto.Socks5.Protocol.{
  name_len, name, after_name, IsAddress, v4_cut, v4_read, length_cut, length_wrong, name_cut,
  name_not_utf8, name_read, v6_cut, v6_read, no_address, IsHeader, IsReply, request_cut,
  header_wrong, address_wrong, connects, associates, unbound, unsupported, method_count, methods,
  after_methods, IsGreeting, IsAnswer, greeting_cut, version_wrong, count_wrong, methods_cut,
  refused, accepted,
}

differs : (a b : ℕ) → (a == b) ≡ false → a ≢ b
differs a b h e = ground arith

read_v4_address-IsAddress :
    (bytes out : List ℕ)
    → IsAddress 1 bytes
        (read_v4_address (record { input = bytes; output = out })).0
        (read_v4_address (record { input = bytes; output = out })).1.input
read_v4_address-IsAddress bytes out = elim (Bool-cases (ltb (length bytes) 6)) [
  | inl cut ↦ rw cut (v4_cut refl (ground arith) [])
  | inr enough ↦ rw enough (v4_read refl (ground arith))
]

read_v6_address-IsAddress :
    (bytes out : List ℕ)
    → IsAddress 4 bytes
        (read_v6_address (record { input = bytes; output = out })).0
        (read_v6_address (record { input = bytes; output = out })).1.input
read_v6_address-IsAddress bytes out = elim (Bool-cases (ltb (length bytes) 18)) [
  | inl cut ↦ rw cut (v6_cut refl (ground arith) [])
  | inr enough ↦ rw enough (v6_read refl (ground arith))
]

read_domain_address-IsAddress :
    (bytes out : List ℕ)
    → IsAddress 3 bytes
        (read_domain_address (record { input = bytes; output = out })).0
        (read_domain_address (record { input = bytes; output = out })).1.input
read_domain_address-IsAddress bytes out = elim (Bool-cases (ltb (length bytes) 1)) [
  | inl cut ↦ rw cut (length_cut refl (ground arith) [])
  | inr enough ↦ elim (Bool-cases ((name_len bytes == 0) || ltb 253 (name_len bytes))) [
    | inl wrong ↦
        rw (enough, wrong) (length_wrong refl (ground arith) (ground arith) (drop 1 bytes))
    | inr fits ↦ elim (Bool-cases (ltb (length (drop 1 bytes)) (name_len bytes))) [
      | inl cut ↦
          rw (enough, fits, cut)
            (name_cut refl (ground arith) (ground arith) (ground (arith, length-drop 1 bytes)) [])
      | inr there ↦ elim (Bool-cases (ltb (length (after_name bytes)) 2)) [
        | inl cut ↦
            rw (enough, fits, there, cut)
              (name_cut refl (ground arith) (ground arith)
                (ground (arith, length-drop 1 bytes, length-drop (name_len bytes) (drop 1 bytes)))
                [])
        | inr port ↦
            let whole : 1 + name_len bytes + 2 ≤ length bytes =
              ground (arith, length-drop 1 bytes, length-drop (name_len bytes) (drop 1 bytes)) in
            elim (Bool-cases (is_utf8 (name bytes))) [
              | inl text ↦
                  rw (enough, fits, there, port, text) (name_read refl whole (ground arith) text)
              | inr bad ↦
                  rw (enough, fits, there, port, bad)
                    (name_not_utf8 refl whole (ground arith) bad (drop 2 (after_name bytes)))
            ]
      ]
    ]
  ]
]

read_address-IsAddress :
    (atyp : ℕ) (bytes out : List ℕ)
    → IsAddress atyp bytes
        (read_address atyp (record { input = bytes; output = out })).0
        (read_address atyp (record { input = bytes; output = out })).1.input
unfolding read_address
read_address-IsAddress atyp bytes out = elim (Bool-cases (atyp == 1)) [
  | inl is ↦ let e : atyp ≡ 1 = ground arith in rw e (read_v4_address-IsAddress bytes out)
  | inr not_v4 ↦ elim (Bool-cases (atyp == 3)) [
    | inl is ↦ let e : atyp ≡ 3 = ground arith in rw e (read_domain_address-IsAddress bytes out)
    | inr not_name ↦ elim (Bool-cases (atyp == 4)) [
      | inl is ↦ let e : atyp ≡ 4 = ground arith in rw e (read_v6_address-IsAddress bytes out)
      | inr not_v6 ↦
          rw (not_v4, not_name, not_v6)
            (no_address (differs atyp 1 not_v4, differs atyp 3 not_name, differs atyp 4 not_v6)
              bytes)
    ]
  ]
]

-- An address is read without an answer.
read_address-output : (atyp : ℕ) (c : Conn) → (read_address atyp c).1.output ≡ c.output
unfolding read_address
read_address-output atyp c = ground arith

-- The reply to what an address gave.
serve-IsReply :
    (bound : Option SocketAddr) (bytes : List ℕ) (r : Result Socks5Error (Host × ℕ)) (c : Conn)
    → IsHeader bytes
    → IsAddress (get_or (take 4 bytes) 3 0) (drop 4 bytes) r c.input
    → c.output ≡ 5 ∷ 0 ∷ []
    → IsReply bound bytes
        (resume (serve bound (get_or (take 4 bytes) 1 0)) (r, c)).0
        (resume (serve bound (get_or (take 4 bytes) 1 0)) (r, c)).1.output
        (resume (serve bound (get_or (take 4 bytes) 1 0)) (r, c)).1.input
unfolding serve socks_reply
serve-IsReply bound bytes (err e) c h a o = rw o (address_wrong e c.input h a)
serve-IsReply bound bytes (ok (host, port)) c h a o =
    elim (Bool-cases (get_or (take 4 bytes) 1 0 == 1)) [
      | inl connecting ↦ rw (connecting, o) (connects host port c.input h a (ground arith))
      | inr other ↦ elim (Bool-cases (get_or (take 4 bytes) 1 0 == 3)) [
        | inl associating ↦ elim (Option-cases bound) [
          | inl absent ↦
              rw (other, associating, absent, o) (unbound host port c.input h a (ground arith) refl)
          | inr (addr, there) ↦
              rw (other, associating, there, o)
                (associates host port c.input addr h a (ground arith) refl)
        ]
        | inr unknown ↦
            rw (other, unknown, o)
              (unsupported host port c.input h a (differs _ 1 other, differs _ 3 unknown))
      ]
    ]

either_wrong :
    (version reserved : ℕ)
    → (not (version == 5) || not (reserved == 0)) ≡ true
    → (version ≢ 5) ⊎ (reserved ≢ 0)
either_wrong version reserved h = elim (Bool-cases (version == 5)) [
  | inr other ↦ inl (differs version 5 other)
  | inl same ↦ inr (λ e. ground arith)
]

serve_request-IsReply :
    (bound : Option SocketAddr) (bytes : List ℕ)
    → IsReply bound bytes
        (serve_request bound (record { input = bytes; output = 5 ∷ 0 ∷ [] })).0
        (serve_request bound (record { input = bytes; output = 5 ∷ 0 ∷ [] })).1.output
        (serve_request bound (record { input = bytes; output = 5 ∷ 0 ∷ [] })).1.input
serve_request-IsReply bound bytes = elim (Bool-cases (ltb (length bytes) 4)) [
  | inl cut ↦ rw cut (request_cut (ground arith) [])
  | inr enough ↦
      let header = take 4 bytes in
      let behind : Conn = record { input = drop 4 bytes; output = 5 ∷ 0 ∷ [] } in
      let address = read_address (get_or header 3 0) behind in
      elim (Bool-cases (not (get_or header 0 0 == 5) || not (get_or header 2 0 == 0))) [
        | inl wrong ↦
            rw (enough, wrong)
              (header_wrong (ground arith)
                (either_wrong (get_or header 0 0) (get_or header 2 0) wrong) (drop 4 bytes))
        | inr right ↦
            rw (enough, right)
              (serve-IsReply bound bytes address.0 address.1 (ground arith)
                (read_address-IsAddress (get_or header 3 0) (drop 4 bytes) (5 ∷ 0 ∷ []))
                (read_address-output (get_or header 3 0) behind))
      ]
]

without_zero : (xs : List ℕ) → contains xs 0 ≡ false → All (λ x. x ≢ 0) xs
without_zero [] h = tt
without_zero (x ∷ xs) h = (differs x 0 (ground arith), without_zero xs (ground arith))

with_zero : (xs : List ℕ) → contains xs 0 ≡ true → ¬ All (λ x. x ≢ 0) xs
with_zero [] h all = cc
with_zero (x ∷ xs) h (first, later) = elim (Bool-cases (x == 0)) [
  | inl zero_here ↦ first (ground arith)
  | inr other ↦ with_zero xs (rw other at h) later
]

-- Whatever the client sends, the outcome, all that the server writes and, if it succeeds, the bytes
-- that it leaves follow from the client's bytes. Nothing is written for a greeting that is cut
-- short, of another version, or without one to sixteen methods; a refusal if none of its methods
-- goes without authentication; and otherwise that method, with the reply of code 7 behind it
-- exactly for a whole request of an unknown command. The host and the port are those of the
-- request's bytes, and so is every error but that of a UDP socket that was not bound.
pub handshake_inner-IsAnswer :
    (bound : Option SocketAddr) (input : List ℕ)
    → IsAnswer bound input
        (handshake_inner bound (record { input = input; output = [] })).0
        (handshake_inner bound (record { input = input; output = [] })).1.output
        (handshake_inner bound (record { input = input; output = [] })).1.input
unfolding handshake_inner
handshake_inner-IsAnswer bound input = elim (Bool-cases (ltb (length input) 2)) [
  | inl cut ↦ rw cut (greeting_cut (ground arith) [])
  | inr enough ↦ elim (Bool-cases (get_or (take 2 input) 0 0 == 5)) [
    | inr other ↦
        rw (enough, other) (version_wrong (ground arith) (differs _ 5 other) (drop 2 input))
    | inl version ↦ elim (Bool-cases ((method_count input == 0) || ltb 16 (method_count input))) [
      | inl wrong ↦
          rw (enough, version, wrong)
            (count_wrong (ground arith) (ground arith) (ground arith) (drop 2 input))
      | inr fits ↦
          let greeting : IsGreeting input = ground arith in
          elim (Bool-cases (ltb (length (drop 2 input)) (method_count input))) [
            | inl cut ↦
                rw (enough, version, fits, cut)
                  (methods_cut greeting (ground (arith, length-drop 2 input)) [])
            | inr there ↦
                let whole : 2 + method_count input ≤ length input =
                  ground (arith, length-drop 2 input) in
                elim (Bool-cases (contains (methods input) 0)) [
                  | inl offered ↦
                      rw (enough, version, fits, there, offered)
                        (accepted _ _ _ greeting whole (with_zero (methods input) offered)
                          (serve_request-IsReply bound (after_methods input)))
                  | inr missing ↦
                      rw (enough, version, fits, there, missing)
                        (refused greeting whole (without_zero (methods input) missing)
                          (after_methods input))
                ]
          ]
    ]
  ]
]
