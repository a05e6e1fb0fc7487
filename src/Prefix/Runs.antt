-- ===== src/Prefix/Runs.antt =====
-- Prefix integers of both widths.
use shb.Common.{◌≡◌, refl, [], ◌∷◌, ◌++◌, arith}
use shb.Prefix.{ok, err, encode_int, decode_tail, decode_int, too_long}
use shb.Prefix.RoundTrip.{decode_int-encode_int}

too_many : decode_int 4294967296 21 7 (127 ∷ 128 ∷ 128 ∷ 128 ∷ 128 ∷ 1 ∷ []) ≡ err too_long
unfolding decode_int decode_tail
too_many = refl

decode_int-encode_int_example :
    decode_int 4294967296 21 5 (encode_int 5 0x20 1337 ++ (b'x' ∷ [])) ≡ ok (1337, b'x' ∷ [])
decode_int-encode_int_example =
    decode_int-encode_int 4 4294967296 21 5 1 1337 (b'x' ∷ []) (omega arith) (omega arith)
      (omega arith) (omega arith) (omega arith)
