-- ===== src/Quic/Varint/Runs.antt =====
-- Concrete runs, and the theorems at concrete inputs.
use shb.Common.{◌≡◌, refl, [], ◌∷◌, ◌++◌, none, some, length, arith}
use shb.Quic.Varint.{put_varint, get_varint}
use shb.Quic.Varint.RoundTrip.{get-put}
use shb.Quic.Varint.Shortest.{Reads, get_varint-Reads}

-- The first example of RFC 9000, Appendix A.1.
get_rfc :
    get_varint (0xc2 ∷ 0x19 ∷ 0x7c ∷ 0x5e ∷ 0xff ∷ 0x14 ∷ 0xe8 ∷ 0x8c ∷ [])
    ≡ some (151_288_809_941_952_652, 8)
unfolding get_varint
get_rfc = refl

put_two : put_varint (9 ∷ []) 15_293 ≡ 9 ∷ 0x7b ∷ 0xbd ∷ []
unfolding put_varint
put_two = refl

get_truncated : get_varint (0x80 ∷ 0x00 ∷ []) ≡ none
unfolding get_varint
get_truncated = refl

-- 37 in two bytes, which `put_varint` never writes.
get_padded : get_varint (0x40 ∷ 0x25 ∷ []) ≡ some (37, 2)
unfolding get_varint
get_padded = refl

get-put_example :
    get_varint (put_varint [] 16_384 ++ (7 ∷ [])) ≡ some (16_384, length (put_varint [] 16_384))
get-put_example = get-put 16_384 (7 ∷ []) (omega arith)

get_varint-Reads_example : Reads (0x40 ∷ 0x25 ∷ []) 37 2
get_varint-Reads_example = get_varint-Reads (0x40 ∷ 0x25 ∷ []) 37 2 (omega arith) get_padded
