-- ===== src/Stratum/Blob.antt =====
-- stratum/blocks.go nextBlob and the start of miner.go processShare: the reserved bytes and the nonce
-- in a copy of the template.
pub mod Layout
pub mod Written
use xmrpool.Common.{
  ℕ, ◌+◌, ◌-◌, ◌/◌, ◌%◌, ◌^◌, ◌&&◌, Option, none, some, [], ◌∷◌, ◌++◌, leb, if◌then◌else◌, length,
  take, drop,
}
use xmrpool.Common.Ints.{ℤ, pos, negsuc}
use xmrpool.Common.Texts.{Bytes, hex_encode, hex_prefix}
use xmrpool.Stratum.Types.{BlockTemplate, Job, Endpoint, Env}

-- `copy(dst, src)`: as many bytes as both have.
abbrev pub copy_over : Bytes → Bytes → Bytes
copy_over dst src = take (length dst) src ++ drop (length src) dst

-- `copy(dst[lo:hi], src)`; `none` is a slice out of range.
unfoldable pub copy_range : Bytes → ℕ → ℕ → Bytes → Option Bytes
copy_range dst lo hi src =
    if leb lo hi && leb hi (length dst)
    then some (take lo dst ++ (copy_over (take (hi - lo) (drop lo dst)) src ++ drop hi dst))
    else none

-- `copy(dst[lo:], src)`
unfoldable pub copy_from : Bytes → ℕ → Bytes → Option Bytes
unfolding copy_range
copy_from dst lo src = copy_range dst lo (length dst) src

-- `binary.Write` of a uint32, big-endian.
abbrev pub big_endian32 : ℕ → Bytes
big_endian32 x = x / 2 ^ 24 % 256 ∷ x / 2 ^ 16 % 256 ∷ x / 2 ^ 8 % 256 ∷ x % 256 ∷ []

abbrev pub and_then : {A : Type 0} → Option Bytes → (Bytes → Option A) → Option A
and_then none f = none
and_then (some b) f = f b

-- 8 bytes (reserved) = 4 bytes (extraNonce) + 4 bytes (instanceId)
unfoldable pub reserve : Bytes → ℤ → ℕ → Bytes → Option Bytes
unfolding copy_from
reserve buffer (negsuc n) extra_nonce instance_id = none
reserve buffer (pos offset) extra_nonce instance_id =
    and_then (copy_from buffer offset (big_endian32 extra_nonce))
      λ b. copy_range b (offset + 4) (offset + 8) instance_id

unfoldable pub next_blob : Env → BlockTemplate → ℕ → Bytes → Option Bytes
next_blob env t extra_nonce instance_id =
    and_then (reserve t.buffer t.reserved_offset extra_nonce instance_id)
      λ b. some (hex_encode (env.convert_blob b))

-- `shareBuff` of processShare: the reserved bytes of the job, then the nonce at byte 39.
unfoldable pub share_buffer : BlockTemplate → Job → Endpoint → Bytes → Option Bytes
unfolding copy_from
share_buffer t job e nonce =
    and_then (reserve t.buffer t.reserved_offset job.extra_nonce e.instance_id)
      λ b. copy_from b 39 (hex_prefix nonce)
