-- ===== src/Quic/Varint/RoundTrip.antt =====
-- Reading back what `put_varint` wrote.
use shb.Common.{
  ℕ, ◌+◌, ◌*◌, ◌/◌, ◌%◌, ◌^◌, ◌<◌, ◌≡◌, ◌∙◌, bit_and, bit_or, List, [], ◌∷◌, ◌++◌, some, length,
  arith, leb, if◌then◌else◌,
}
use shb.Common.Bits.{bit_or_low, bit_or_high, bit_and_low}
use shb.Quic.Varint.{put_varint, get_varint, to_be_bytes}

-- The low six bits of the first byte.
pub low_six : (b : ℕ) → bit_and b 0x3f ≡ b % 64
low_six b = bit_and_low 6 b (b / 64) (b % 64) (omega arith) (omega arith)

-- One more byte, while the value leaves the top byte free.
pub push_byte : (v b : ℕ) → v < 2 ^ 56 → b < 256 → bit_or (v * 2 ^ 8 % 2 ^ 64) b ≡ v * 256 + b
push_byte v b hv hb =
    let e : v * 2 ^ 8 % 2 ^ 64 ≡ 256 * v = omega arith in rw e (bit_or_high 8 b v hb ∙ omega arith)

-- The four widths, as fields side by side.
tag_two : (v : ℕ) → v < 2 ^ 14 → bit_or (v % 2 ^ 16) 0x4000 ≡ v + 0x4000
tag_two v h = let e : v % 2 ^ 16 ≡ v = omega arith in rw e (bit_or_low 14 v 1 h)

pub tag_four : (v : ℕ) → v < 2 ^ 30 → bit_or (v % 2 ^ 32) 0x8000_0000 ≡ v + 0x8000_0000
tag_four v h = let e : v % 2 ^ 32 ≡ v = omega arith in rw e (bit_or_low 30 v 2 h)

tag_eight : (v : ℕ) → v < 2 ^ 62 → bit_or v 0xc000_0000_0000_0000 ≡ v + 0xc000_0000_0000_0000
tag_eight v h = bit_or_low 62 v 3 h

-- The encoding in plain arithmetic.
abbrev pub encoding : ℕ → List ℕ
encoding v = if◌then◌else◌ (leb v 0x3f) (v ∷ []) (
    if◌then◌else◌ (leb v 0x3fff) (to_be_bytes 2 (v + 0x4000)) (
      if◌then◌else◌ (leb v 0x3fff_ffff) (to_be_bytes 4 (v + 0x8000_0000))
        (to_be_bytes 8 (v + 0xc000_0000_0000_0000))))

pub put_varint-encoding : (out : List ℕ) (v : ℕ) → v < 2 ^ 62 → put_varint out v ≡ out ++ encoding v
unfolding put_varint
put_varint-encoding out v h = ground (arith, tag_two v, tag_four v, tag_eight v h)

-- One clause for each number of bytes behind the first.
pub get_one : (b : ℕ) (rest : List ℕ) → b < 64 → get_varint (b ∷ rest) ≡ some (b, 1)
unfolding get_varint
get_one b rest h = let e : b / 64 ≡ 0 = omega arith in rw e (ground (arith, low_six b))

pub get_two :
    (b c : ℕ) (rest : List ℕ)
    → b / 64 ≡ 1
    → c < 256
    → get_varint (b ∷ c ∷ rest) ≡ some (b % 64 * 256 + c, 2)
unfolding get_varint
get_two b c rest e hc = rw (e, low_six b) (ground (arith, push_byte (b % 64) c (omega arith) hc))

pub get_four :
    (b c d e : ℕ) (rest : List ℕ)
    → b / 64 ≡ 2
    → c < 256
    → d < 256
    → e < 256
    → get_varint (b ∷ c ∷ d ∷ e ∷ rest) ≡ some (((b % 64 * 256 + c) * 256 + d) * 256 + e, 4)
unfolding get_varint
get_four b c d e rest hb hc hd he =
    rw (hb, low_six b)
      (ground (
        arith,
        push_byte (b % 64) c (omega arith) hc,
        push_byte (b % 64 * 256 + c) d (omega arith) hd,
        push_byte ((b % 64 * 256 + c) * 256 + d) e (omega arith) he,
      ))

pub get_eight :
    (b c d e f g h i : ℕ) (rest : List ℕ)
    → b / 64 ≡ 3
    → c < 256
    → d < 256
    → e < 256
    → f < 256
    → g < 256
    → h < 256
    → i < 256
    → get_varint (b ∷ c ∷ d ∷ e ∷ f ∷ g ∷ h ∷ i ∷ rest)
      ≡ some (
        ((((((b % 64 * 256 + c) * 256 + d) * 256 + e) * 256 + f) * 256 + g) * 256 + h) * 256 + i,
        8,
      )
unfolding get_varint
get_eight b c d e f g h i rest hb hc hd he hf hg hh hi =
    rw
      (
        hb,
        low_six b,
        push_byte (b % 64) c (omega arith) hc,
        push_byte (b % 64 * 256 + c) d (omega arith) hd,
        push_byte ((b % 64 * 256 + c) * 256 + d) e (omega arith) he,
        push_byte (((b % 64 * 256 + c) * 256 + d) * 256 + e) f (omega arith) hf,
        push_byte ((((b % 64 * 256 + c) * 256 + d) * 256 + e) * 256 + f) g (omega arith) hg,
        push_byte (((((b % 64 * 256 + c) * 256 + d) * 256 + e) * 256 + f) * 256 + g) h (omega arith)
            hh,
        push_byte ((((((b % 64 * 256 + c) * 256 + d) * 256 + e) * 256 + f) * 256 + g) * 256 + h) i
            (omega arith) hi,
      )
      (ground arith)

-- `get_varint` finds the value and the length, whatever follows.
pub get-encoding :
    (v : ℕ) (rest : List ℕ)
    → v < 2 ^ 62
    → get_varint (encoding v ++ rest) ≡ some (v, length (encoding v))
get-encoding v rest h = ground (
  arith,
  get_one v rest,
  get_two ((v + 0x4000) / 256 % 256) ((v + 0x4000) % 256) rest,
  get_four ((v + 0x8000_0000) / 2 ^ 24 % 256) ((v + 0x8000_0000) / 2 ^ 16 % 256)
      ((v + 0x8000_0000) / 2 ^ 8 % 256) ((v + 0x8000_0000) % 256) rest,
  get_eight ((v + 0xc000_0000_0000_0000) / 2 ^ 56 % 256)
      ((v + 0xc000_0000_0000_0000) / 2 ^ 48 % 256) ((v + 0xc000_0000_0000_0000) / 2 ^ 40 % 256)
      ((v + 0xc000_0000_0000_0000) / 2 ^ 32 % 256) ((v + 0xc000_0000_0000_0000) / 2 ^ 24 % 256)
      ((v + 0xc000_0000_0000_0000) / 2 ^ 16 % 256) ((v + 0xc000_0000_0000_0000) / 2 ^ 8 % 256)
      ((v + 0xc000_0000_0000_0000) % 256) rest,
)

-- A varint below 2 ^ 62 reads back, with the bytes that follow left alone.
pub get-put :
    (v : ℕ) (rest : List ℕ)
    → v < 2 ^ 62
    → get_varint (put_varint [] v ++ rest) ≡ some (v, length (put_varint [] v))
get-put v rest h = rw (put_varint-encoding [] v h) (get-encoding v rest h)

-- `put_varint` appends.
pub put_varint-append : (out : List ℕ) (v : ℕ) → put_varint out v ≡ out ++ put_varint [] v
unfolding put_varint
put_varint-append out v = ground arith
