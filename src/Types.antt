-- ===== src/Types.antt =====
-- include/kvslab/types.hpp. A token id is kept as the `uint32_t` to which `block_key` casts it, so
-- two tokens are equal when these numbers are.
use Prim.Native.Nat.{bit_xor}
use kvslab.Base.{ℕ, ◌-◌, ◌*◌, ◌/◌, ◌%◌, ◌^◌, ◌≡◌, refl, List, [], ◌∷◌, u64}

abbrev pub invalid_block : ℕ
invalid_block = 2 ^ 32 - 1

pub record CacheConfig : Type 0 where
  pub num_blocks : ℕ
  pub block_tokens : ℕ
  pub num_layers : ℕ
  pub num_kv_heads : ℕ
  pub head_dim : ℕ
  pub dtype_bytes : ℕ

-- Products of `size_t`: wrapping once at the end gives what wrapping at each product gives.
pub bytes_per_token : CacheConfig → ℕ
bytes_per_token c = u64 (2 * c.num_layers * c.num_kv_heads * c.head_dim * c.dtype_bytes)

unfoldable pub block_bytes : CacheConfig → ℕ
unfolding bytes_per_token
block_bytes c = u64 (c.block_tokens * bytes_per_token c)

pub total_bytes : CacheConfig → ℕ
unfolding block_bytes
total_bytes c = u64 (c.num_blocks * block_bytes c)

-- One round of the inner loop: the byte of `v` above `bits` bits is mixed into the hash.
mix_byte : ℕ → ℕ → ℕ → ℕ
mix_byte h v bits = u64 (bit_xor h (v / 2 ^ bits % 256) * 1099511628211)

mix_token : ℕ → ℕ → ℕ
unfolding mix_byte
mix_token h v = mix_byte (mix_byte (mix_byte (mix_byte h v 0) v 8) v 16) v 24

key_loop : ℕ → List ℕ → ℕ
key_loop h [] = h
key_loop h (t ∷ ts) = key_loop (mix_token h t) ts

-- FNV-1a over the tokens of one block.
unfoldable pub block_key : List ℕ → ℕ
unfolding key_loop mix_token
block_key tokens = key_loop 1469598103934665603 tokens

test_key : block_key [] ≡ 1469598103934665603
unfolding block_key
test_key = refl
