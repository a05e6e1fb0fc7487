-- ===== src/Quic/PacketNumber.antt =====
-- src/quic/packet.rs: truncating packet numbers and recovering them.
pub mod Recover
mod Runs
use shb.Common.{
  ℕ, ◌+◌, ◌-◌, ◌*◌, ◌/◌, ◌%◌, ◌^◌, ◌&&◌, bit_and, bit_or, Option, none, some, ltb, leb,
  if◌then◌else◌, add_u64, sub_u64, u64_mod,
}

-- Twice the distance to the largest acknowledged number, or the whole number where there is none.
abbrev pub window_range : ℕ → Option ℕ → ℕ
window_range pn none = add_u64 pn 1
window_range pn (some acked) = sub_u64 pn acked * 2 % u64_mod

abbrev pub number_len : ℕ → ℕ
number_len range =
    if leb range 0xff
    then 1
    else if leb range 0xffff
    then 2
    else if leb range 0xff_ffff
    then 3
    else 4

-- The truncated number and its length in bytes.
unfoldable pub encode_packet_number : ℕ → Option ℕ → ℕ × ℕ
encode_packet_number pn largest_acked =
    let len = number_len (window_range pn largest_acked) in
    (bit_and pn ((u64_mod - 1) / 2 ^ (64 - len * 8)), len)

unfoldable pub decode_packet_number : ℕ → ℕ → ℕ → ℕ
decode_packet_number largest_pn truncated pn_nbits =
    let expected = add_u64 largest_pn 1 in
    let win = 2 ^ pn_nbits in
    let hwin = win / 2 in
    let mask = win - 1 in
    let candidate = bit_or (bit_and expected (u64_mod - 1 - mask)) truncated in
    if leb (add_u64 candidate hwin) expected && ltb (add_u64 candidate win) (2 ^ 62)
    then add_u64 candidate win
    else if ltb (add_u64 expected hwin) candidate && leb win candidate
    then sub_u64 candidate win
    else candidate
