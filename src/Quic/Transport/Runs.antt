-- ===== src/Quic/Transport/Runs.antt =====
-- Transport parameters on the bytes of src/quic/transport.rs.
use shb.Common.{◌≡◌, refl, [], ◌∷◌, arith}
use shb.Quic.Varint.{get_varint, fold_be}
use shb.Quic.Transport.{
  ok, err, Params, default_params, LocalParams, int, set_param, turn, decode_fuel, decode_params,
  encode_params, exponent_above, past_end, limit_below,
}
use shb.Quic.Transport.Accepted.{IsAllowed, decode_params-IsAllowed}
use shb.Quic.Transport.Encoded.{as_seen, decode_params-encode_params}

exponent_21 : decode_params (0x0a ∷ 1 ∷ 21 ∷ []) ≡ err exponent_above
unfolding decode_fuel turn set_param int get_varint fold_be
exponent_21 = refl

one_id : decode_params (0x04 ∷ 1 ∷ 9 ∷ 0x0e ∷ 1 ∷ 1 ∷ []) ≡ err limit_below
unfolding decode_fuel turn set_param int get_varint fold_be
one_id = refl

cut_short : decode_params (0x04 ∷ 2 ∷ 9 ∷ []) ≡ err past_end
unfolding decode_fuel turn set_param int get_varint fold_be
cut_short = refl

abbrev exponent_five : Params
exponent_five = record default_params { ack_delay_exponent = 5 }

reads_five : decode_params (0x0a ∷ 1 ∷ 5 ∷ []) ≡ ok exponent_five
unfolding decode_fuel turn set_param int get_varint fold_be
reads_five = refl

decode_params-IsAllowed_example : IsAllowed exponent_five
decode_params-IsAllowed_example =
    decode_params-IsAllowed (0x0a ∷ 1 ∷ 5 ∷ []) exponent_five reads_five

abbrev ours : LocalParams
ours = record {
  initial_max_data = 1048576;
  initial_max_stream_data_bidi_local = 65536;
  initial_max_stream_data_uni = 65536;
  initial_max_streams_uni = 3;
  max_idle_timeout_ms = 30000;
  max_udp_payload_size = 1452;
  source_connection_id = 1 ∷ 2 ∷ 3 ∷ 4 ∷ 5 ∷ 6 ∷ 7 ∷ 8 ∷ [];
}

decode_params-encode_params_example : decode_params (encode_params ours) ≡ ok (as_seen ours)
decode_params-encode_params_example =
    decode_params-encode_params ours
      (omega arith, omega arith, omega arith, omega arith, omega arith, omega arith, omega arith)
