-- ===== src/Quic/PacketNumber/Recover.antt =====
-- The peer recovers the number that was sent.
use shb.Common.{
  ℕ, ◌+◌, ◌-◌, ◌*◌, ◌/◌, ◌%◌, ◌^◌, ◌<◌, ◌≤◌, ◌≡◌, ◌⊎◌, ap, ◌∙◌, bit_and, Option, some, u64_mod, inl,
  inr, arith,
}
use shb.Common.Bits.{bit_and_low, bit_and_high, bit_or_high}
use shb.Quic.PacketNumber.{window_range, number_len, encode_packet_number, decode_packet_number}

-- `pn` lies in the window of `win` numbers around the number that the peer expects.
pub record InWindow (largest_pn pn win : ℕ) : Type 0 where
  pub not_behind : largest_pn + 1 < pn + win / 2
  pub not_ahead : pn ≤ largest_pn + 1 + win / 2

low_one : (pn : ℕ) → bit_and pn 0xff ≡ pn % 0x100
low_one pn = bit_and_low 8 pn (pn / 0x100) (pn % 0x100) (omega arith) (omega arith)

high_one : (e : ℕ) → e < u64_mod → bit_and e (u64_mod - 1 - 0xff) ≡ 0x100 * (e / 0x100)
high_one e h =
    bit_and_high 8 e 0xffffffffffffff (e / 0x100) (e % 0x100) (omega arith) (omega arith)
    ∙ ap (λ (t : ℕ). 0x100 * t)
        (bit_and_low 56 (e / 0x100) 0 (e / 0x100) (omega arith) (omega arith))

decode_one :
    (largest_pn pn : ℕ)
    → largest_pn + 1 < 2 ^ 62
    → pn < 2 ^ 62
    → InWindow largest_pn pn 0x100
    → decode_packet_number largest_pn (pn % 0x100) 8 ≡ pn
unfolding decode_packet_number
decode_one largest_pn pn hl hp w =
    let e : (largest_pn + 1) % u64_mod ≡ largest_pn + 1 = omega arith in
    rw
      (
        e,
        high_one (largest_pn + 1) (omega arith),
        bit_or_high 8 (pn % 0x100) ((largest_pn + 1) / 0x100) (omega arith),
      )
      (ground arith)

low_two : (pn : ℕ) → bit_and pn 0xffff ≡ pn % 0x10000
low_two pn = bit_and_low 16 pn (pn / 0x10000) (pn % 0x10000) (omega arith) (omega arith)

high_two : (e : ℕ) → e < u64_mod → bit_and e (u64_mod - 1 - 0xffff) ≡ 0x10000 * (e / 0x10000)
high_two e h =
    bit_and_high 16 e 0xffffffffffff (e / 0x10000) (e % 0x10000) (omega arith) (omega arith)
    ∙ ap (λ (t : ℕ). 0x10000 * t)
        (bit_and_low 48 (e / 0x10000) 0 (e / 0x10000) (omega arith) (omega arith))

decode_two :
    (largest_pn pn : ℕ)
    → largest_pn + 1 < 2 ^ 62
    → pn < 2 ^ 62
    → InWindow largest_pn pn 0x10000
    → decode_packet_number largest_pn (pn % 0x10000) 16 ≡ pn
unfolding decode_packet_number
decode_two largest_pn pn hl hp w =
    let e : (largest_pn + 1) % u64_mod ≡ largest_pn + 1 = omega arith in
    rw
      (
        e,
        high_two (largest_pn + 1) (omega arith),
        bit_or_high 16 (pn % 0x10000) ((largest_pn + 1) / 0x10000) (omega arith),
      )
      (ground arith)

low_three : (pn : ℕ) → bit_and pn 0xffffff ≡ pn % 0x1000000
low_three pn = bit_and_low 24 pn (pn / 0x1000000) (pn % 0x1000000) (omega arith) (omega arith)

high_three :
    (e : ℕ) → e < u64_mod → bit_and e (u64_mod - 1 - 0xffffff) ≡ 0x1000000 * (e / 0x1000000)
high_three e h =
    bit_and_high 24 e 0xffffffffff (e / 0x1000000) (e % 0x1000000) (omega arith) (omega arith)
    ∙ ap (λ (t : ℕ). 0x1000000 * t)
        (bit_and_low 40 (e / 0x1000000) 0 (e / 0x1000000) (omega arith) (omega arith))

decode_three :
    (largest_pn pn : ℕ)
    → largest_pn + 1 < 2 ^ 62
    → pn < 2 ^ 62
    → InWindow largest_pn pn 0x1000000
    → decode_packet_number largest_pn (pn % 0x1000000) 24 ≡ pn
unfolding decode_packet_number
decode_three largest_pn pn hl hp w =
    let e : (largest_pn + 1) % u64_mod ≡ largest_pn + 1 = omega arith in
    rw
      (
        e,
        high_three (largest_pn + 1) (omega arith),
        bit_or_high 24 (pn % 0x1000000) ((largest_pn + 1) / 0x1000000) (omega arith),
      )
      (ground arith)

low_four : (pn : ℕ) → bit_and pn 0xffffffff ≡ pn % 0x100000000
low_four pn = bit_and_low 32 pn (pn / 0x100000000) (pn % 0x100000000) (omega arith) (omega arith)

high_four :
    (e : ℕ) → e < u64_mod → bit_and e (u64_mod - 1 - 0xffffffff) ≡ 0x100000000 * (e / 0x100000000)
high_four e h =
    bit_and_high 32 e 0xffffffff (e / 0x100000000) (e % 0x100000000) (omega arith) (omega arith)
    ∙ ap (λ (t : ℕ). 0x100000000 * t)
        (bit_and_low 32 (e / 0x100000000) 0 (e / 0x100000000) (omega arith) (omega arith))

decode_four :
    (largest_pn pn : ℕ)
    → largest_pn + 1 < 2 ^ 62
    → pn < 2 ^ 62
    → InWindow largest_pn pn 0x100000000
    → decode_packet_number largest_pn (pn % 0x100000000) 32 ≡ pn
unfolding decode_packet_number
decode_four largest_pn pn hl hp w =
    let e : (largest_pn + 1) % u64_mod ≡ largest_pn + 1 = omega arith in
    rw
      (
        e,
        high_four (largest_pn + 1) (omega arith),
        bit_or_high 32 (pn % 0x100000000) ((largest_pn + 1) / 0x100000000) (omega arith),
      )
      (ground arith)

number_len-cases :
    (r : ℕ) → (number_len r ≡ 1) ⊎ ((number_len r ≡ 2) ⊎ ((number_len r ≡ 3) ⊎ (number_len r ≡ 4)))
number_len-cases r = ground arith

-- A number that the peer expects within half a window of it comes out as it went in, whichever of
-- the four lengths was chosen.
pub decode-encode :
    (largest_pn pn : ℕ) (largest_acked : Option ℕ)
    → largest_pn + 1 < 2 ^ 62
    → pn < 2 ^ 62
    → InWindow largest_pn pn (2 ^ (8 * (encode_packet_number pn largest_acked).1))
    → decode_packet_number largest_pn
        (encode_packet_number pn largest_acked).0
        (8 * (encode_packet_number pn largest_acked).1)
      ≡ pn
unfolding encode_packet_number
decode-encode largest_pn pn largest_acked hl hp w =
    elim (number_len-cases (window_range pn largest_acked)) [
      | inl one ↦ rw (one, low_one pn) (decode_one largest_pn pn hl hp (rw one at w))
      | inr (inl two) ↦ rw (two, low_two pn) (decode_two largest_pn pn hl hp (rw two at w))
      | inr (inr (inl three)) ↦
          rw (three, low_three pn) (decode_three largest_pn pn hl hp (rw three at w))
      | inr (inr (inr four)) ↦
          rw (four, low_four pn) (decode_four largest_pn pn hl hp (rw four at w))
    ]

-- A peer whose largest number lies from the largest acknowledged one on and below this one recovers
-- this one: the chosen length is enough, as long as it is below 2 ^ 62 and fewer than 2 ^ 31 above
-- the largest acknowledged one.
pub decode-encode_acked :
    (largest_pn pn acked : ℕ)
    → acked < pn
    → acked ≤ largest_pn
    → largest_pn < pn
    → pn < 2 ^ 62
    → pn - acked < 2 ^ 31
    → decode_packet_number largest_pn
        (encode_packet_number pn (some acked)).0
        (8 * (encode_packet_number pn (some acked)).1)
      ≡ pn
decode-encode_acked largest_pn pn acked ha hl hp h d =
    decode-encode largest_pn pn (some acked) (omega arith) h
      (unfold encode_packet_number in ground arith)
