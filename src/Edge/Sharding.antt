-- ===== src/Edge/Sharding.antt =====
-- pkg/sharding/shard.go: the shard of a vertex by the 64-bit FNV-1a hash of its id.
use Prim.Native.Nat.{bit_xor}
use coltt.Prelude.{ℕ, ◌*◌, ◌%◌, ◌^◌, ◌<◌, [], ◌∷◌, arith}
use coltt.Prelude.Bytes.{Bytes}
use coltt.Prelude.Binary.{le}

-- hash/fnv: hash = (hash ^ byte) * prime for each byte
fnv_loop : ℕ → Bytes → ℕ
fnv_loop hash [] = hash
fnv_loop hash (c ∷ s) = fnv_loop (bit_xor hash c * 1099511628211 % 2 ^ 64) s

unfoldable pub shard_vertex : ℕ → ℕ → ℕ
unfolding fnv_loop
shard_vertex x c = fnv_loop 14695981039346656037 (le 8 x) % c

unfoldable pub shard_vertex_v2 : Bytes → ℕ → ℕ
unfolding fnv_loop
shard_vertex_v2 s c = fnv_loop 14695981039346656037 s % c

-- The shard exists, whatever the id hashes to.
pub shard_vertex-lt : (x c : ℕ) → 0 < c → shard_vertex x c < c
unfolding shard_vertex
shard_vertex-lt x c h = omega arith
