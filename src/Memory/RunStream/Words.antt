-- ===== src/Memory/RunStream/Words.antt =====
-- A number below 2 ^ 32 survives its four bytes.
use agentspace.Common.{
  ℕ, ◌/◌, ◌%◌, ◌^◌, ◌≤◌, ◌<◌, ◌≡◌, refl, arith, lt→ltb, length, nat_eq, list_eq, option_eq,
}
use agentspace.Memory.RunStream.{to_be_bytes, from_be_bytes, length_u32, max_frame_payload_bytes}

pub from_be_bytes-to_be_bytes :
    (n : ℕ)
    → n < 2 ^ 32
    → from_be_bytes ((n / 2 ^ 24) % 256) ((n / 2 ^ 16) % 256) ((n / 2 ^ 8) % 256) (n % 256) ≡ n
unfolding from_be_bytes
from_be_bytes-to_be_bytes n h = omega arith

pub length_u32_small : (n : ℕ) → n ≤ max_frame_payload_bytes → length_u32 n ≡ n
unfolding length_u32
length_u32_small n h = rw (lt→ltb n (2 ^ 32) (omega arith))

pub length-to_be_bytes : (n : ℕ) → length (to_be_bytes n) ≡ 4
unfolding to_be_bytes
length-to_be_bytes n = refl
