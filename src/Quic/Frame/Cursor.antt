-- ===== src/Quic/Frame/Cursor.antt =====
-- The cursor over what the encoders append.
use shb.Common.{
  ℕ, ◌^◌, ◌<◌, ◌≤◌, ◌≡◌, refl, ap, false, List, [], ◌∷◌, ◌++◌, none, some, ltb, length, drop,
  Bool-cases, inl, inr, length-append, take-append_length, drop-append_length, arith,
}
use shb.Quic.Varint.{get_varint, put_varint}
use shb.Quic.Varint.RoundTrip.{get_one, get-put, put_varint-append}
use shb.Quic.Frame.{ok, err, truncated_varint, varint, take_bytes}

-- The short way of `varint` for one byte agrees with `get_varint`.
pub varint-get_varint :
    (buf : List ℕ)
    → varint buf
      ≡ elim (get_varint buf) [ none ↦ err truncated_varint | some (v, n) ↦ ok (v, drop n buf) ]
unfolding varint
varint-get_varint [] = unfold get_varint in refl
varint-get_varint (b ∷ rest) = elim (Bool-cases (ltb b 0x40)) [
  | inl short ↦ ground (arith, get_one b rest)
  | inr long ↦ rw long
]

-- What `put_varint` appends; shut, so that rewriting by it ends.
pub bytes : ℕ → List ℕ
bytes v = put_varint [] v

pub put_varint-bytes : (out : List ℕ) (v : ℕ) → put_varint out v ≡ out ++ bytes v
unfolding bytes
put_varint-bytes = put_varint-append

pub varint-bytes : (v : ℕ) → v < 2 ^ 62 → (rest : List ℕ) → varint (bytes v ++ rest) ≡ ok (v, rest)
unfolding bytes
varint-bytes v h rest =
    rw (varint-get_varint (put_varint [] v ++ rest), get-put v rest h)
      (ap (λ t. ok (v, t)) (drop-append_length (put_varint [] v) rest))

pub get_varint-bytes :
    (v : ℕ)
    → v < 2 ^ 62
    → (rest : List ℕ) → get_varint (bytes v ++ rest) ≡ some (v, length (bytes v))
unfolding bytes
get_varint-bytes v h rest = get-put v rest h

pub take_bytes-append : (bs rest : List ℕ) → take_bytes (length bs) (bs ++ rest) ≡ ok (bs, rest)
unfolding take_bytes
take_bytes-append bs rest =
    let e : ltb (length (bs ++ rest)) (length bs) ≡ false = ground (arith, length-append bs rest) in
    rw (e, take-append_length bs rest, drop-append_length bs rest)

pub bytes_nonempty : (v : ℕ) → 1 ≤ length (bytes v)
unfolding bytes put_varint
bytes_nonempty v = ground arith
