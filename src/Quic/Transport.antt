-- ===== src/Quic/Transport.antt =====
-- src/quic/transport.rs: transport parameters. A buffer is what is left of it.
pub mod Accepted
pub mod Loop
pub mod RoundTrip
pub mod Encoded
mod Runs
use shb.Common.{
  ℕ, zero, suc, ◌+◌, ◌^◌, Bool, true, false, not, List, [], ◌∷◌, ◌++◌, Option, none, some, ltb,
  ◌==◌, if◌then◌else◌, length, take, drop,
}
use shb.Quic.Varint.{put_varint, get_varint}
use shb.Quic.Frame.{max_cid_len}

pub data ParamError : Type 0 where
  truncated_id truncated_length past_end not_a_varint trailing_bytes : ParamError
  exponent_above ack_delay_above limit_below cid_too_long token_size : ParamError
  -- Of the model alone: a loop that was cut off.
  out_of_fuel : ParamError

pub data Outcome {ℓ} (A : Type ℓ) : Type ℓ where
  ok : A → Outcome A
  err : ParamError → Outcome A

infixl 5 ◌>>=◌
abbrev pub ◌>>=◌ {ℓ κ} : {A : Type ℓ} {B : Type κ} → Outcome A → (A → Outcome B) → Outcome B
ok a >>= f = f a
err e >>= f = err e

abbrev pub max_idle_timeout_id : ℕ
max_idle_timeout_id = 0x01

abbrev pub stateless_reset_token_id : ℕ
stateless_reset_token_id = 0x02

abbrev pub max_udp_payload_size_id : ℕ
max_udp_payload_size_id = 0x03

abbrev pub initial_max_data_id : ℕ
initial_max_data_id = 0x04

abbrev pub bidi_local_id : ℕ
bidi_local_id = 0x05

abbrev pub bidi_remote_id : ℕ
bidi_remote_id = 0x06

abbrev pub uni_id : ℕ
uni_id = 0x07

abbrev pub streams_bidi_id : ℕ
streams_bidi_id = 0x08

abbrev pub streams_uni_id : ℕ
streams_uni_id = 0x09

abbrev pub ack_delay_exponent_id : ℕ
ack_delay_exponent_id = 0x0a

abbrev pub max_ack_delay_id : ℕ
max_ack_delay_id = 0x0b

abbrev pub original_dcid_id : ℕ
original_dcid_id = 0x00

abbrev pub active_connection_id_limit_id : ℕ
active_connection_id_limit_id = 0x0e

abbrev pub initial_scid_id : ℕ
initial_scid_id = 0x0f

abbrev pub retry_scid_id : ℕ
retry_scid_id = 0x10

-- `ACTIVE_CONNECTION_ID_LIMIT`, our own.
abbrev pub own_connection_id_limit : ℕ
own_connection_id_limit = 2

-- A connection ID is its bytes.
pub record Params : Type 0 where
  pub max_idle_timeout_ms : ℕ
  pub max_udp_payload_size : ℕ
  pub initial_max_data : ℕ
  pub initial_max_stream_data_bidi_remote : ℕ
  pub initial_max_stream_data_bidi_local : ℕ
  pub initial_max_stream_data_uni : ℕ
  pub initial_max_streams_bidi : ℕ
  pub initial_max_streams_uni : ℕ
  pub ack_delay_exponent : ℕ
  pub max_ack_delay_ms : ℕ
  pub active_connection_id_limit : ℕ
  pub initial_source_connection_id : Option (List ℕ)
  pub original_destination_connection_id : Option (List ℕ)
  pub retry_source_connection_id : Option (List ℕ)
  pub stateless_reset_token : Option (List ℕ)

-- `Params::default`.
abbrev pub default_params : Params
default_params = record {
  max_idle_timeout_ms = 0;
  max_udp_payload_size = 65527;
  initial_max_data = 0;
  initial_max_stream_data_bidi_remote = 0;
  initial_max_stream_data_bidi_local = 0;
  initial_max_stream_data_uni = 0;
  initial_max_streams_bidi = 0;
  initial_max_streams_uni = 0;
  ack_delay_exponent = 3;
  max_ack_delay_ms = 25;
  active_connection_id_limit = 2;
  initial_source_connection_id = none;
  original_destination_connection_id = none;
  retry_source_connection_id = none;
  stateless_reset_token = none;
}

abbrev pub whole_varint : List ℕ → Option (ℕ × ℕ) → Outcome ℕ
whole_varint value none = err not_a_varint
whole_varint value (some (v, n)) = if n == length value then ok v else err trailing_bytes

-- The closure `int`.
unfoldable pub int : List ℕ → Outcome ℕ
int value = whole_varint value (get_varint value)

-- A connection ID of a parameter; `ConnectionId::new` has the same limit.
abbrev pub cid_of : List ℕ → Outcome (List ℕ)
cid_of value = if ltb max_cid_len (length value) then err cid_too_long else ok value

-- A number that a test lets pass.
abbrev pub checked : Bool → ParamError → ℕ → Outcome ℕ
checked bad e v = if bad then err e else ok v

-- `match id`: the parameter `id` with its value.
unfoldable pub set_param : Params → ℕ → List ℕ → Outcome Params
set_param out id value =
    if id == max_idle_timeout_id
    then (int value >>= λ v. ok (record out { max_idle_timeout_ms = v }))
    else if id == max_udp_payload_size_id
    then (int value >>= λ v. ok (record out { max_udp_payload_size = v }))
    else if id == initial_max_data_id
    then (int value >>= λ v. ok (record out { initial_max_data = v }))
    else if id == bidi_local_id
    then (int value >>= λ v. ok (record out { initial_max_stream_data_bidi_local = v }))
    else if id == bidi_remote_id
    then (int value >>= λ v. ok (record out { initial_max_stream_data_bidi_remote = v }))
    else if id == uni_id
    then (int value >>= λ v. ok (record out { initial_max_stream_data_uni = v }))
    else if id == streams_bidi_id
    then (int value >>= λ v. ok (record out { initial_max_streams_bidi = v }))
    else if id == streams_uni_id
    then (int value >>= λ v. ok (record out { initial_max_streams_uni = v }))
    else if id == ack_delay_exponent_id
    then (int value >>= λ v.
        checked (ltb 20 v) exponent_above v >>= λ v. ok (record out { ack_delay_exponent = v }))
    else if id == max_ack_delay_id
    then (int value >>= λ v. checked (not (ltb v (2 ^ 14))) ack_delay_above v >>= λ v.
        ok (record out { max_ack_delay_ms = v }))
    else if id == active_connection_id_limit_id
    then (int value >>= λ v.
        checked (ltb v 2) limit_below v >>= λ v. ok (record out { active_connection_id_limit = v }))
    else if id == initial_scid_id
    then (cid_of value >>= λ c. ok (record out { initial_source_connection_id = some c }))
    else if id == original_dcid_id
    then (cid_of value >>= λ c. ok (record out { original_destination_connection_id = some c }))
    else if id == retry_scid_id
    then (cid_of value >>= λ c. ok (record out { retry_source_connection_id = some c }))
    else if id == stateless_reset_token_id
    then (if length value == 16
        then ok (record out { stateless_reset_token = some value })
        else err token_size)
    else ok out

-- A varint off the front of a buffer.
abbrev pub varint_off : ParamError → List ℕ → Option (ℕ × ℕ) → Outcome (ℕ × List ℕ)
varint_off e buf none = err e
varint_off e buf (some (v, n)) = ok (v, drop n buf)

abbrev pub take_varint : ParamError → List ℕ → Outcome (ℕ × List ℕ)
take_varint e buf = varint_off e buf (get_varint buf)

-- `split_at`.
abbrev pub take_value : ℕ → List ℕ → Outcome (List ℕ × List ℕ)
take_value len buf = if ltb (length buf) len then err past_end else ok (take len buf, drop len buf)

-- One turn of the loop: a parameter off the front of a buffer that is not empty.
unfoldable pub turn : Params → List ℕ → Outcome (Params × List ℕ)
turn out buf = take_varint truncated_id buf >>= λ (id, buf).
    take_varint truncated_length buf >>= λ (len, buf).
    take_value len buf >>= λ (value, rest). set_param out id value >>= λ out. ok (out, rest)

abbrev pub on_turn : (Params → List ℕ → Outcome Params) → Outcome (Params × List ℕ) → Outcome Params
on_turn go (err e) = err e
on_turn go (ok (out, rest)) = go out rest

unfoldable pub decode_fuel : ℕ → Params → List ℕ → Outcome Params
decode_fuel zero out buf = err out_of_fuel
decode_fuel (suc fuel) out [] = ok out
decode_fuel (suc fuel) out (b ∷ buf) = on_turn (decode_fuel fuel) (turn out (b ∷ buf))

-- Each parameter takes a byte at least.
abbrev pub decode_from : Params → List ℕ → Outcome Params
decode_from out buf = decode_fuel (suc (length buf)) out buf

-- `Params::decode`.
abbrev pub decode_params : List ℕ → Outcome Params
decode_params buf = decode_from default_params buf

pub record LocalParams : Type 0 where
  pub initial_max_data : ℕ
  pub initial_max_stream_data_bidi_local : ℕ
  pub initial_max_stream_data_uni : ℕ
  pub initial_max_streams_uni : ℕ
  pub max_idle_timeout_ms : ℕ
  pub max_udp_payload_size : ℕ
  pub source_connection_id : List ℕ

-- The closure `put`.
abbrev pub put_param : List ℕ → ℕ → ℕ → List ℕ
put_param out id value =
    put_varint (put_varint out id) (length (put_varint [] value)) ++ put_varint [] value

-- `LocalParams::encode`.
unfoldable pub encode_params : LocalParams → List ℕ
encode_params p =
    let out = put_param [] initial_max_data_id p.initial_max_data in
    let out = put_param out bidi_local_id p.initial_max_stream_data_bidi_local in
    let out = put_param out uni_id p.initial_max_stream_data_uni in
    let out = put_param out streams_uni_id p.initial_max_streams_uni in
    let out = put_param out streams_bidi_id 0 in
    let out = put_param out max_idle_timeout_id p.max_idle_timeout_ms in
    let out = put_param out max_udp_payload_size_id p.max_udp_payload_size in
    let out = put_param out max_ack_delay_id 0 in
    let out = put_param out active_connection_id_limit_id own_connection_id_limit in
    let out = put_varint out initial_scid_id in
    let out = put_varint out (length p.source_connection_id) in out ++ p.source_connection_id
