-- ===== src/Quic/Varint/Shortest.antt =====
-- What `get_varint` accepts: every width, not only the shortest.
use shb.Common.{
  ℕ, ◌+◌, ◌*◌, ◌/◌, ◌%◌, ◌^◌, ◌<◌, ◌≤◌, ◌≡◌, List, [], ◌∷◌, some, length, All, IsByte, arith, ltb,
  ltb→lt, Bool-cases, inl, inr,
}
use shb.Quic.Varint.{put_varint, get_varint}
use shb.Quic.Varint.RoundTrip.{get_one, get_two, get_four, get_eight, put_varint-encoding}

-- `n` bytes carry a value of at most `8 * n - 2` bits, and no more bytes than `put_varint` needs.
pub record Reads (buf : List ℕ) (v n : ℕ) : Type 0 where
  pub some_bytes : 1 ≤ n
  pub in_buffer : n ≤ length buf
  pub in_range : v < 2 ^ 62
  pub shortest : length (put_varint [] v) ≤ n

length_one : (v : ℕ) → v < 2 ^ 6 → length (put_varint [] v) ≤ 1
length_one v h = ground (arith, put_varint-encoding [] v (omega arith))

length_two : (v : ℕ) → v < 2 ^ 14 → length (put_varint [] v) ≤ 2
length_two v h = ground (arith, put_varint-encoding [] v (omega arith))

length_four : (v : ℕ) → v < 2 ^ 30 → length (put_varint [] v) ≤ 4
length_four v h = ground (arith, put_varint-encoding [] v (omega arith))

pub length_eight : (v : ℕ) → v < 2 ^ 62 → length (put_varint [] v) ≤ 8
length_eight v h = ground (arith, put_varint-encoding [] v (omega arith))

Reads-one :
    (b : ℕ) (rest : List ℕ) (v n : ℕ)
    → b < 64
    → get_varint (b ∷ rest) ≡ some (v, n)
    → Reads (b ∷ rest) v n
Reads-one b rest v n h e = ground (arith, get_one b rest, length_one b)

Reads-two :
    (b : ℕ) (rest : List ℕ) (v n : ℕ)
    → b / 64 ≡ 1
    → All IsByte rest
    → get_varint (b ∷ rest) ≡ some (v, n)
    → Reads (b ∷ rest) v n
unfolding get_varint
Reads-two b (c ∷ rest) v n h a e = ground (arith, get_two b c rest, length_two (b % 64 * 256 + c))
Reads-two b [] v n h a e = ground arith

Reads-four :
    (b : ℕ) (rest : List ℕ) (v n : ℕ)
    → b / 64 ≡ 2
    → All IsByte rest
    → get_varint (b ∷ rest) ≡ some (v, n)
    → Reads (b ∷ rest) v n
unfolding get_varint
Reads-four b (c ∷ d ∷ e ∷ rest) v n h a eq =
    ground (arith, get_four b c d e rest, length_four (((b % 64 * 256 + c) * 256 + d) * 256 + e))
Reads-four b _ v n h a eq = ground arith

Reads-eight :
    (b : ℕ) (rest : List ℕ) (v n : ℕ)
    → b / 64 ≡ 3
    → All IsByte rest
    → get_varint (b ∷ rest) ≡ some (v, n)
    → Reads (b ∷ rest) v n
unfolding get_varint
Reads-eight b (c ∷ d ∷ e ∷ f ∷ g ∷ h ∷ i ∷ rest) v n hb a eq = ground (
  arith,
  get_eight b c d e f g h i rest,
  length_eight
      (((((((b % 64 * 256 + c) * 256 + d) * 256 + e) * 256 + f) * 256 + g) * 256 + h) * 256 + i),
)
Reads-eight b _ v n hb a eq = ground arith

-- Whatever `get_varint` reads from bytes lies in the buffer, is below 2 ^ 62, and takes no fewer
-- bytes than `put_varint` takes for the same value.
pub get_varint-Reads :
    (buf : List ℕ) (v n : ℕ) → All IsByte buf → get_varint buf ≡ some (v, n) → Reads buf v n
get_varint-Reads [] v n a e = absurd (unfold get_varint in cc)
get_varint-Reads (b ∷ rest) v n (hb, a) e = elim (Bool-cases (ltb b 64)) [
  | inl one ↦ Reads-one b rest v n (ltb→lt b 64 one) e
  | inr not_one ↦ elim (Bool-cases (ltb b 128)) [
    | inl two ↦ Reads-two b rest v n (ground arith) a e
    | inr not_two ↦ elim (Bool-cases (ltb b 192)) [
      | inl four ↦ Reads-four b rest v n (ground arith) a e
      | inr not_four ↦ Reads-eight b rest v n (ground arith) a e
    ]
  ]
]
