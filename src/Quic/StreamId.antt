-- ===== src/Quic/StreamId.antt =====
-- src/quic/stream.rs: what a stream's number says of it.
pub mod Laws
use shb.Common.{ℕ, ◌+◌, ◌*◌, ◌%◌, ◌^◌, bit_and, Bool, ◌==◌, if◌then◌else◌, u64_mod}

pub data Dir : Type 0 where
  bi uni : Dir

unfoldable pub stream_dir : ℕ → Dir
stream_dir id = if bit_and id 0x2 == 0 then bi else uni

unfoldable pub is_client_initiated : ℕ → Bool
is_client_initiated id = bit_and id 0x1 == 0

-- The nth stream that a client opens.
unfoldable pub client_stream_id : Dir → ℕ → ℕ
client_stream_id bi n = n * 4 % u64_mod
client_stream_id uni n = (n * 4 + 2) % u64_mod
