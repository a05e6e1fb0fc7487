-- ===== src/Quic/Header/Parts.antt =====
-- The parts of a header, one by one.
use shb.Common.{
  ℕ, zero, suc, ◌+◌, ◌-◌, ◌/◌, ◌%◌, ◌^◌, ◌≤◌, ◌<◌, ◌≡◌, refl, sym, ap, ◌∙◌, false, ◌||◌, List, [],
  ◌++◌, append_assoc, Option, some, ltb, ◌==◌, length, drop, length-append, drop-append, drop_all,
  bit_and, bit_or, arith,
}
use shb.Prefix.Strings.{take-length}
use shb.Quic.Varint.{get_varint, to_be_bytes}
use shb.Quic.Varint.RoundTrip.{encoding, get-encoding, get_four, tag_four}
use shb.Quic.Frame.{max_cid_len}
use shb.Quic.Recovery.Pto.{Space}
use shb.Quic.Header.{
  HeaderError, ok, long_packet, form_long, fixed_bit, long_type_mask, type_initial, type_handshake,
  take_cid, skip_token, decode_length, length_bits, put_varint_fixed4, set_varint_fixed4,
}

-- The four bytes of a length.
abbrev pub fixed4 : ℕ → List ℕ
fixed4 v = to_be_bytes 4 (bit_or (v % 2 ^ 32) 0x8000_0000)

pub get-fixed4 : (v : ℕ) (rest : List ℕ) → v < 2 ^ 30 → get_varint (fixed4 v ++ rest) ≡ some (v, 4)
get-fixed4 v rest h = rw (tag_four v h) (
    get_four ((v + 0x8000_0000) / 256 ^ 3 % 256) ((v + 0x8000_0000) / 256 ^ 2 % 256)
      ((v + 0x8000_0000) / 256 ^ 1 % 256) ((v + 0x8000_0000) / 256 ^ 0 % 256) rest (omega arith)
      (omega arith) (omega arith) (omega arith)
    ∙ value (omega arith))
  where
    value : {a : ℕ} → a ≡ v → ◌≡◌ {A = Option (ℕ × ℕ)} (some (a, 4)) (some (v, 4))
    value e = ap (λ (n : ℕ). some (n, 4)) e

-- A length that is overwritten where it was written is the length that was meant.
pub set_varint_fixed4-put_varint_fixed4 :
    (out more : List ℕ) (v w : ℕ)
    → set_varint_fixed4 (put_varint_fixed4 out v ++ more) (length out) w
      ≡ put_varint_fixed4 out w ++ more
unfolding set_varint_fixed4 put_varint_fixed4
set_varint_fixed4-put_varint_fixed4 out more v w =
    let (front, back) = take-length out (fixed4 v ++ more) in
    let all : drop (length out + 4) (out ++ (fixed4 v ++ more)) ≡ more =
      let past : drop (length out + 4) out ≡ [] = drop_all (length out + 4) out (omega arith) in
      let four : length out + 4 - length out ≡ 4 = omega arith in
      drop-append (length out + 4) out (fixed4 v ++ more) ∙ rw (past, four) refl in
    ap (λ (x : List ℕ). set_varint_fixed4 x (length out) w) (append_assoc out (fixed4 v) more)
    ∙ (ap (λ (x : List ℕ). x ++ (fixed4 w ++ drop (length out + 4) (out ++ (fixed4 v ++ more))))
          front
        ∙ (ap (λ (x : List ℕ). out ++ (fixed4 w ++ x)) all
            ∙ sym (append_assoc out (fixed4 w) more)))

-- The first byte of a long header: its form, and its type.
pub first_tests :
    (n : ℕ)
    → 0 < n
    → n ≤ 4
    → ((bit_and
            (bit_or (bit_or (bit_or form_long fixed_bit) type_initial) (length_bits n))
            form_long
          == 0)
        ≡ false)
      × (bit_and
            (bit_or (bit_or (bit_or form_long fixed_bit) type_initial) (length_bits n))
            long_type_mask
          ≡ 0)
      × ((bit_and
              (bit_or (bit_or (bit_or form_long fixed_bit) type_handshake) (length_bits n))
              form_long
            == 0)
          ≡ false)
      × (bit_and
            (bit_or (bit_or (bit_or form_long fixed_bit) type_handshake) (length_bits n))
            long_type_mask
          ≡ 0x20)
first_tests zero h k = absurd (omega arith)
first_tests (suc zero) h k = (refl, refl, refl, refl)
first_tests (suc (suc zero)) h k = (refl, refl, refl, refl)
first_tests (suc (suc (suc zero))) h k = (refl, refl, refl, refl)
first_tests (suc (suc (suc (suc zero)))) h k = (refl, refl, refl, refl)
first_tests (suc (suc (suc (suc (suc n))))) h k = absurd (omega arith)

pub take_cid-all :
    (spare : ℕ) (e : HeaderError) (cid more : List ℕ)
    → length cid ≤ max_cid_len
    → spare ≤ length more
    → take_cid spare e (length cid) (cid ++ more) ≡ ok (cid, more)
take_cid-all spare e cid more h k =
    let (a, b) = take-length cid more in
    let fits : (ltb max_cid_len (length cid) || ltb (length (cid ++ more)) (length cid + spare))
        ≡ false =
      ground (arith, length-append cid more) in
    rw (fits, a, b) refl

pub decode_length-fixed4 :
    (buf : List ℕ) (space : Space) (scid payload more : List ℕ)
    → length payload < 2 ^ 30
    → decode_length buf space scid (fixed4 (length payload) ++ (payload ++ more))
      ≡ ok (
          long_packet space scid
            (length buf - length (payload ++ more))
            (length buf - length (payload ++ more) + length payload))
decode_length-fixed4 buf space scid payload more h =
    let fits : ltb (length (payload ++ more)) (length payload) ≡ false =
      ground (arith, length-append payload more) in
    rw (get-fixed4 (length payload) (payload ++ more) h, fits) refl

pub skip_token-encoding :
    (token more : List ℕ)
    → length token < 2 ^ 62
    → skip_token (encoding (length token) ++ (token ++ more)) ≡ ok more
skip_token-encoding token more h =
    let (a, b) = take-length (encoding (length token)) (token ++ more) in
    let (c, d) = take-length token more in
    let fits : ltb (length (token ++ more)) (length token) ≡ false =
      ground (arith, length-append token more) in
    rw (get-encoding (length token) (token ++ more) h, b, fits, d) refl
