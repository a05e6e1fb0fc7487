-- ===== src/Quic/StreamId/Laws.antt =====
-- The stream numbers that a client hands out.
use shb.Common.{ℕ, ◌+◌, ◌*◌, ◌/◌, ◌%◌, ◌^◌, ◌<◌, ◌≡◌, bit_and, true, u64_mod, arith}
use shb.Common.Bits.{bit_and_low, bit_and_high}
use shb.Quic.StreamId.{Dir, bi, uni, stream_dir, is_client_initiated, client_stream_id}

one_bit : (id : ℕ) → bit_and id 0x1 ≡ id % 2
one_bit id = bit_and_low 1 id (id / 2) (id % 2) (omega arith) (omega arith)

two_bit : (id : ℕ) → bit_and id 0x2 ≡ 2 * (id / 2 % 2)
two_bit id =
    rw (bit_and_high 1 id 1 (id / 2) (id % 2) (omega arith) (omega arith), one_bit (id / 2))

-- For n below 2 ^ 60 the n-th stream of a direction is the client's, has that direction, and a
-- quarter of its number, rounded down, is n again; the number is below 2 ^ 62.
pub client_stream_id_lem :
    (dir : Dir) (n : ℕ)
    → n < 2 ^ 60
    → (stream_dir (client_stream_id dir n) ≡ dir)
      × (is_client_initiated (client_stream_id dir n) ≡ true)
      × (client_stream_id dir n / 4 ≡ n)
      × (client_stream_id dir n < 2 ^ 62)
unfolding stream_dir is_client_initiated client_stream_id
client_stream_id_lem bi n h =
    let e : n * 4 % u64_mod ≡ n * 4 = omega arith in
    rw (e, two_bit (n * 4), one_bit (n * 4)) (ground arith)
client_stream_id_lem uni n h =
    let e : (n * 4 + 2) % u64_mod ≡ n * 4 + 2 = omega arith in
    rw (e, two_bit (n * 4 + 2), one_bit (n * 4 + 2)) (ground arith)
