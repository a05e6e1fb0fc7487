-- ===== src/Quic/Header.antt =====
-- src/quic/header.rs: the headers around a packet's payload. A position is what is left of the
-- datagram behind it, and an offset is counted from there.
pub mod Bounds
pub mod Parts
pub mod RoundTrip
mod Runs
use shb.Common.{
  ℕ, ◌+◌, ◌-◌, ◌*◌, ◌%◌, ◌^◌, ◌||◌, Bool, true, false, not, List, [], ◌∷◌, ◌++◌, Option, none, some,
  ltb, ◌==◌, if◌then◌else◌, length, take, drop, bit_and, bit_or, u64_mod,
}
use shb.Quic.Varint.{put_varint, get_varint, to_be_bytes}
use shb.Quic.Frame.{max_cid_len}
use shb.Quic.Recovery.Pto.{Space, initial, handshake, data_space}

pub data HeaderError : Type 0 where
  empty_datagram short_truncated long_truncated bad_dcid bad_scid unsupported_version : HeaderError
  retry_truncated token_length token_past_end length_field past_datagram zero_rtt : HeaderError

pub data Parsed {ℓ} (A : Type ℓ) : Type ℓ where
  ok : A → Parsed A
  err : HeaderError → Parsed A

infixl 5 ◌>>=◌
abbrev pub ◌>>=◌ {ℓ κ} : {A : Type ℓ} {B : Type κ} → Parsed A → (A → Parsed B) → Parsed B
ok a >>= f = f a
err e >>= f = err e

-- Offsets are the packet number's and the end; connection IDs are their bytes.
pub data Incoming : Type 0 where
  long_packet : Space → List ℕ → ℕ → ℕ → Incoming
  short_packet : ℕ → ℕ → Incoming
  retry_packet : List ℕ → List ℕ → List ℕ → Incoming
  version_negotiation : List ℕ → List ℕ → List ℕ → Incoming

abbrev pub version_1 : ℕ
version_1 = 0x0000_0001

abbrev pub form_long : ℕ
form_long = 0x80

abbrev pub fixed_bit : ℕ
fixed_bit = 0x40

abbrev pub long_type_mask : ℕ
long_type_mask = 0x30

abbrev pub type_initial : ℕ
type_initial = 0x00

abbrev pub type_handshake : ℕ
type_handshake = 0x20

abbrev pub type_retry : ℕ
type_retry = 0x30

abbrev pub decode_short : List ℕ → ℕ → Parsed Incoming
decode_short buf local_cid_len =
    if ltb (length buf) (1 + local_cid_len + 4)
    then err short_truncated
    else ok (short_packet (1 + local_cid_len) (length buf))

-- A connection ID of `n` bytes, with `spare` bytes behind it.
abbrev pub take_cid : ℕ → HeaderError → ℕ → List ℕ → Parsed (List ℕ × List ℕ)
take_cid spare e n rest =
    if ltb max_cid_len n || ltb (length rest) (n + spare)
    then err e
    else ok (take n rest, drop n rest)

abbrev pub varint_at : HeaderError → List ℕ → Option (ℕ × ℕ) → Parsed (ℕ × List ℕ)
varint_at e rest none = err e
varint_at e rest (some (v, n)) = ok (v, drop n rest)

-- The token of an Initial is stepped over.
abbrev pub past_token : ℕ × List ℕ → Parsed (List ℕ)
past_token (len, rest) = if ltb (length rest) len then err token_past_end else ok (drop len rest)

abbrev pub skip_token : List ℕ → Parsed (List ℕ)
skip_token rest = varint_at token_length rest (get_varint rest) >>= past_token

-- The packet behind its length field: `pos` is counted from the end of the datagram.
abbrev pub packet_end : List ℕ → Space → List ℕ → ℕ × List ℕ → Parsed Incoming
packet_end buf space scid (len, rest) =
    if ltb (length rest) len
    then err past_datagram
    else ok (long_packet space scid (length buf - length rest) (length buf - length rest + len))

abbrev pub decode_length : List ℕ → Space → List ℕ → List ℕ → Parsed Incoming
decode_length buf space scid rest =
    varint_at length_field rest (get_varint rest) >>= packet_end buf space scid

-- `match first & LONG_TYPE_MASK`.
abbrev pub decode_kind : List ℕ → ℕ → List ℕ → List ℕ → List ℕ → Parsed Incoming
decode_kind buf kind dcid scid rest =
    if kind == type_retry
    then (if ltb (length rest) 16
        then err retry_truncated
        else ok (retry_packet dcid scid (take (length rest - 16) rest)))
    else if kind == type_initial
    then skip_token rest >>= decode_length buf initial scid
    else if kind == type_handshake
    then decode_length buf handshake scid rest
    else err zero_rtt

unfoldable pub decode_version : List ℕ → ℕ → ℕ → List ℕ → List ℕ × List ℕ → Parsed Incoming
decode_version buf first version dcid (scid, rest) =
    if version == 0
    then ok (version_negotiation dcid scid (take (length rest - length rest % 4) rest))
    else if not (version == version_1)
    then err unsupported_version
    else decode_kind buf (bit_and first long_type_mask) dcid scid rest

-- The length byte is there: the test before leaves room for it.
abbrev pub decode_scid : List ℕ → ℕ → ℕ → List ℕ × List ℕ → Parsed Incoming
decode_scid buf first version (dcid, []) = err bad_scid
decode_scid buf first version (dcid, scid_len ∷ rest) =
    take_cid 0 bad_scid scid_len rest >>= decode_version buf first version dcid

-- `u32::from_be_bytes`.
abbrev pub be_u32 : ℕ → ℕ → ℕ → ℕ → ℕ
be_u32 a b c d = a * 2 ^ 24 + b * 2 ^ 16 + c * 2 ^ 8 + d

abbrev pub decode_long : List ℕ → List ℕ → Parsed Incoming
decode_long buf (first ∷ a ∷ b ∷ c ∷ d ∷ dcid_len ∷ rest) =
    take_cid 1 bad_dcid dcid_len rest >>= decode_scid buf first (be_u32 a b c d)
decode_long buf short = err long_truncated

unfoldable pub decode_header : List ℕ → ℕ → Parsed Incoming
decode_header [] local_cid_len = err empty_datagram
decode_header (first ∷ rest) local_cid_len =
    if bit_and first form_long == 0
    then decode_short (first ∷ rest) local_cid_len
    else decode_long (first ∷ rest) (first ∷ rest)

pub record LongHeader : Type 0 where
  pub space : Space
  pub dcid : List ℕ
  pub scid : List ℕ
  pub token : List ℕ

-- `(pn_len as u8 - 1)`, wrapping.
abbrev pub length_bits : ℕ → ℕ
length_bits pn_len = (pn_len % 256 + 255) % 256

-- None where the code panics: a 1-RTT packet has no long header.
abbrev pub type_of : Space → Option ℕ
type_of initial = some type_initial
type_of handshake = some type_handshake
type_of data_space = none

unfoldable pub put_varint_fixed4 : List ℕ → ℕ → List ℕ
put_varint_fixed4 out value = out ++ to_be_bytes 4 (bit_or (value % 2 ^ 32) 0x8000_0000)

unfoldable pub set_varint_fixed4 : List ℕ → ℕ → ℕ → List ℕ
set_varint_fixed4 buf position value =
    take position buf
    ++ (to_be_bytes 4 (bit_or (value % 2 ^ 32) 0x8000_0000) ++ drop (position + 4) buf)

abbrev pub put_token : Space → List ℕ → List ℕ → List ℕ
put_token initial token out = put_varint out (length token) ++ token
put_token handshake token out = out
put_token data_space token out = out

abbrev pub put_kind : LongHeader → List ℕ → ℕ → ℕ → Option ℕ → Option (List ℕ)
put_kind h out pn_len payload_len none = none
put_kind h out pn_len payload_len (some kind) =
    let out =
      out ++ (bit_or (bit_or (bit_or form_long fixed_bit) kind) (length_bits pn_len) ∷ []) in
    let out = out ++ to_be_bytes 4 version_1 in
    let out = out ++ ((length h.dcid % 256) ∷ h.dcid) in
    let out = out ++ ((length h.scid % 256) ∷ h.scid) in
    some (put_varint_fixed4 (put_token h.space h.token out) payload_len)

-- `LongHeader::put`.
unfoldable pub put_header : LongHeader → List ℕ → ℕ → ℕ → Option (List ℕ)
put_header h out pn_len payload_len = put_kind h out pn_len payload_len (type_of h.space)

abbrev pub short_first : ℕ → Bool → ℕ
short_first pn_len key_phase =
    let first = bit_or fixed_bit (length_bits pn_len) in
    if key_phase then bit_or first 0x04 else first

unfoldable pub put_short_header : List ℕ → List ℕ → ℕ → Bool → List ℕ
put_short_header out dcid pn_len key_phase = out ++ (short_first pn_len key_phase ∷ dcid)
