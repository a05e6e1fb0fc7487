-- ===== src/Quic/Header/Runs.antt =====
-- Headers on the bytes of src/quic/header.rs.
use shb.Common.{ℕ, ◌≡◌, refl, List, [], ◌∷◌, ◌++◌, some, arith}
use shb.Quic.Recovery.Pto.{initial}
use shb.Quic.Varint.{put_varint}
use shb.Quic.Header.{
  ok, err, long_packet, version_negotiation, LongHeader, put_header, put_varint_fixed4,
  decode_header, decode_version, zero_rtt,
}
use shb.Quic.Header.Bounds.{IsWithin, decode_header-IsWithin}
use shb.Quic.Header.RoundTrip.{decode_header-put_header}

abbrev versions : List ℕ
versions = 0x80 ∷ 0 ∷ 0 ∷ 0 ∷ 0 ∷ 1 ∷ 7 ∷ 1 ∷ 8 ∷ 1 ∷ 2 ∷ 3 ∷ 4 ∷ 5 ∷ []

reads_versions :
    decode_header versions 8 ≡ ok (version_negotiation (7 ∷ []) (8 ∷ []) (1 ∷ 2 ∷ 3 ∷ 4 ∷ []))
unfolding decode_header decode_version
reads_versions = refl

early_data : decode_header (0xd0 ∷ 0 ∷ 0 ∷ 0 ∷ 1 ∷ 0 ∷ 0 ∷ []) 8 ≡ err zero_rtt
unfolding decode_header decode_version
early_data = refl

abbrev hello : LongHeader
hello = record { space = initial; dcid = 1 ∷ 2 ∷ []; scid = 3 ∷ []; token = 9 ∷ [] }

abbrev hello_bytes : List ℕ
hello_bytes = 0xc1 ∷ 0 ∷ 0 ∷ 0 ∷ 1 ∷ 2 ∷ 1 ∷ 2 ∷ 1 ∷ 3 ∷ 1 ∷ 9 ∷ 128 ∷ 0 ∷ 0 ∷ 3 ∷ []

hello_written : put_header hello [] 2 3 ≡ some hello_bytes
unfolding put_header put_varint put_varint_fixed4
hello_written = refl

decode_header-IsWithin_example :
    IsWithin versions (version_negotiation (7 ∷ []) (8 ∷ []) (1 ∷ 2 ∷ 3 ∷ 4 ∷ []))
decode_header-IsWithin_example =
    decode_header-IsWithin versions 8 (version_negotiation (7 ∷ []) (8 ∷ []) (1 ∷ 2 ∷ 3 ∷ 4 ∷ []))
      reads_versions

decode_header-put_header_example :
    decode_header (hello_bytes ++ (4 ∷ 5 ∷ 6 ∷ 7 ∷ [])) 8 ≡ ok (long_packet initial (3 ∷ []) 16 19)
decode_header-put_header_example =
    decode_header-put_header hello 8 2 (4 ∷ 5 ∷ 6 ∷ []) (7 ∷ []) hello_bytes (omega arith)
      (omega arith) (omega arith) (omega arith) (omega arith) (omega arith) hello_written
