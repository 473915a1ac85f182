-- ===== src/Tunnel/Plain/Records.antt =====
-- A record that the writing half makes is read as its payload.
use kanotls.Prelude.{
  ℕ, zero, suc, ◌+◌, ◌-◌, ◌*◌, ◌/◌, ◌%◌, ◌≤◌, ◌<◌, ◌≡◌, refl, ap, ◌∙◌, List, [], ◌∷◌, ◌++◌, some,
  true, false, ltb, leb, min, arith, length, take, drop, replicate, length-append, take-append,
  drop-append,
}
use kanotls.Tunnel.Noise.{Noise, receive_message, next_nonce}
use kanotls.Tunnel.Writing.{block, tls_record, block_data_capacity}
use kanotls.Tunnel.Writing.Sizes.{length-tls_record}
use kanotls.Tunnel.Reading.{parse_tls_record, whole, is_alert, data_range}
use kanotls.Tunnel.Plain.{opened, stream_of, stream_of-whole}

data_range_framed :
    (a b : ℕ) (payload rest : List ℕ)
    → 0 < length rest
    → a * 256 + b ≡ length payload
    → data_range (a ∷ b ∷ (payload ++ rest)) ≡ payload
unfolding data_range
data_range_framed a b payload rest some_rest e =
    let sizes = length-append payload rest in
    let long_enough : leb 3 (length (a ∷ b ∷ (payload ++ rest))) ≡ true = ground arith in
    let told : min (a * 256 + b) (length (a ∷ b ∷ (payload ++ rest)) - 2 - 1) ≡ length payload =
      omega arith in
    rw (data_range, long_enough, told) (take-append (length payload) payload rest refl)

-- The data of a block are its payload.
block-data_range :
    (payload : List ℕ) (target : ℕ)
    → length payload ≤ block_data_capacity
    → data_range (block payload target) ≡ payload
unfolding block
block-data_range payload target small =
    let pad : List ℕ = replicate (target - 1 - (2 + length payload)) 0 in
    data_range_framed (length payload % 65536 / 256 % 256) (length payload % 65536 % 256) payload
      (pad ++ 0x17 ∷ []) (omega (arith, length-append {0} pad (0x17 ∷ []))) (omega arith)

padded_not_alert : (n : ℕ) → is_alert (0 ∷ 0 ∷ (replicate n 0 ++ 0x17 ∷ [])) ≡ false
unfolding is_alert
padded_not_alert zero = refl
padded_not_alert (suc n) = ground (arith, length-append {A = ℕ} (replicate n 0) (0x17 ∷ []))

long_not_alert : (p : List ℕ) → 3 < length p → is_alert p ≡ false
unfolding is_alert
long_not_alert p h = ground arith

-- A block does not look like an alert: the last byte of the shortest one is its content type.
block_not_alert : (payload : List ℕ) (target : ℕ) → is_alert (block payload target) ≡ false
unfolding block
block_not_alert [] target = padded_not_alert (target - 1 - 2)
block_not_alert (x ∷ xs) target =
    let pad : List ℕ = replicate (target - 1 - (2 + suc (length xs))) 0 in
    long_not_alert _
      (omega (arith, length-append {0} xs (pad ++ 0x17 ∷ []), length-append {0} pad (0x17 ∷ [])))

drop_header : (ct : List ℕ) → drop 5 (tls_record ct) ≡ ct
unfolding tls_record
drop_header ct = refl

tls_record_whole :
    (ct more : List ℕ)
    → length ct ≤ 16401
    → parse_tls_record (tls_record ct ++ more) ≡ whole (5 + length ct) 0x17
unfolding parse_tls_record tls_record
tls_record_whole ct more h = ground (arith, length-append {0} ct more)

receive_message_lem :
    (noise : Noise) (n : ℕ) (ct p : List ℕ)
    → noise.read_message n ct ≡ some p
    → receive_message noise n ct ≡ (some p, next_nonce n)
unfolding receive_message
receive_message_lem noise n ct p e = rw (receive_message, e) refl

opened-data_range :
    (noise : Noise) (n total : ℕ) (wire ct p : List ℕ) (go_on : ℕ → List ℕ → List ℕ)
    → ltb 5 total ≡ true
    → drop 5 (take total wire) ≡ ct
    → noise.read_message n ct ≡ some p
    → is_alert p ≡ false
    → opened noise n total 0x17 wire go_on ≡ data_range p ++ go_on (next_nonce n) (drop total wire)
unfolding opened
opened-data_range noise n total wire ct p go_on long cut opens plain =
    let received = receive_message_lem noise n ct p opens in
    rw (opened, long, cut, received, plain) (rw (cut, received) refl)

-- A record of a block is read as its payload, and the nonces of the two sides go on together.
pub stream_of-tls_record :
    (noise : Noise) (n target : ℕ) (payload ct more : List ℕ)
    → length payload ≤ block_data_capacity
    → length ct ≤ 16401
    → noise.write_message n (block payload target) ≡ some ct
    → stream_of noise n (tls_record ct ++ more) ≡ payload ++ stream_of noise (next_nonce n) more
unfolding opened
stream_of-tls_record noise n target payload ct more small short sealed =
    let wire = tls_record ct ++ more in
    let total = 5 + length ct in
    let front : take total wire ≡ tls_record ct =
      take-append total (tls_record ct) more (omega (arith, length-tls_record ct)) in
    let back : drop total wire ≡ more =
      drop-append total (tls_record ct) more (omega (arith, length-tls_record ct)) in
    let cut : drop 5 (take total wire) ≡ ct = ap (drop 5) front ∙ drop_header ct in
    let opens = noise.decrypts n (block payload target) ct sealed in
    let long : ltb 5 total ≡ true =
      ground (arith, noise.tagged n (block payload target) ct sealed) in
    stream_of-whole noise n total 0x17 wire (tls_record_whole ct more short)
    ∙ opened-data_range noise n total wire ct _ (stream_of noise) long cut opens
        (block_not_alert payload target)
    ∙ ap (λ t. t ++ stream_of noise (next_nonce n) (drop total wire))
        (block-data_range payload target small)
    ∙ ap (λ t. payload ++ stream_of noise (next_nonce n) t) back
