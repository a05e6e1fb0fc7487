-- ===== src/Quic/PacketNumber/Runs.antt =====
-- Concrete runs, and the theorems at concrete inputs.
use shb.Common.{◌*◌, ◌≡◌, refl, some, arith}
use shb.Quic.PacketNumber.{encode_packet_number, decode_packet_number}
use shb.Quic.PacketNumber.Recover.{decode-encode, decode-encode_acked}

-- The examples of RFC 9000, Appendix A.2 and A.3.
encode_rfc : encode_packet_number 0xac5c02 (some 0xabe8b3) ≡ (0x5c02, 2)
unfolding encode_packet_number
encode_rfc = refl

decode_rfc : decode_packet_number 0xa82f30ea 0x9b32 16 ≡ 0xa82f9b32
unfolding decode_packet_number
decode_rfc = refl

decode-encode_example :
    decode_packet_number 0x100
      (encode_packet_number 0xff (some 0xf0)).0
      (8 * (encode_packet_number 0xff (some 0xf0)).1)
    ≡ 0xff
unfolding encode_packet_number
decode-encode_example =
    decode-encode 0x100 0xff (some 0xf0) (omega arith) (omega arith) (omega arith)

decode-encode_acked_example :
    decode_packet_number 0x130
      (encode_packet_number 0x180 (some 0x100)).0
      (8 * (encode_packet_number 0x180 (some 0x100)).1)
    ≡ 0x180
decode-encode_acked_example =
    decode-encode_acked 0x130 0x180 0x100 (omega arith) (omega arith) (omega arith) (omega arith)
      (omega arith)
