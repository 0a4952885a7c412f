-- ===== src/Stratum/Blob/Layout.antt =====
-- The blob that a miner hashes and the blob that its share is checked against.
use xmrpool.Common.{ℕ, ◌+◌, ◌-◌, ◌≤◌, ◌≡◌, refl, some, ◌++◌, arith, length, take, drop}
use xmrpool.Common.Ints.{pos}
use xmrpool.Common.Texts.{Bytes, hex_encode, hex_prefix}
use xmrpool.Stratum.Types.{BlockTemplate, Job, Endpoint, Env}
use xmrpool.Stratum.Blob.{
  copy_over, copy_range, copy_from, big_endian32, reserve, next_blob, share_buffer,
}
use xmrpool.Stratum.Blob.Written.{
  Written, Written-append, length-Written, and_then-some, length-copy_range, copy_range-some,
  copy_range-Written, copy_from-Written,
}

-- `reserve` writes the big-endian extra nonce and then the instance id, at the reserved offset.
pub reserve-Written :
    (buffer after : Bytes) (offset : ℕ) (extra_nonce : ℕ) (instance_id : Bytes)
    → length instance_id ≡ 4
    → reserve buffer (pos offset) extra_nonce instance_id ≡ some after
    → Written buffer offset (big_endian32 extra_nonce ++ instance_id) after
unfolding reserve copy_from
reserve-Written buffer after offset extra_nonce instance_id four e =
    let (b, first, second) =
      and_then-some (copy_from buffer offset (big_endian32 extra_nonce))
        (λ b. copy_range b (offset + 4) (offset + 8) instance_id) after e in
    let same = length-copy_range buffer offset (length buffer) (big_endian32 extra_nonce) b first in
    let range = (copy_range-some b (offset + 4) (offset + 8) instance_id after second).0 in
    Written-append
      (copy_from-Written buffer offset (big_endian32 extra_nonce) b
        (omega (arith, range.high, same)) first)
      (copy_range-Written b (offset + 4) (offset + 8) instance_id after (omega (arith, four))
        second)

copy_range-fits :
    (dst : Bytes) (lo hi : ℕ) (src : Bytes)
    → lo ≤ hi
    → hi ≤ length dst
    → ((after : Bytes) × (copy_range dst lo hi src ≡ some after))
unfolding copy_range
copy_range-fits dst lo hi src h k =
    (take lo dst ++ (copy_over (take (hi - lo) (drop lo dst)) src ++ drop hi dst), ground arith)

reserve-fits :
    (buffer : Bytes) (offset extra_nonce : ℕ) (instance_id : Bytes)
    → offset + 8 ≤ length buffer
    → ((after : Bytes) × (reserve buffer (pos offset) extra_nonce instance_id ≡ some after))
unfolding reserve copy_from
reserve-fits buffer offset extra_nonce instance_id h =
    let (b, first) =
      copy_range-fits buffer offset (length buffer) (big_endian32 extra_nonce) (omega (arith, h))
        (omega arith) in
    let same = length-copy_range buffer offset (length buffer) (big_endian32 extra_nonce) b first in
    let (after, second) =
      copy_range-fits b (offset + 4) (offset + 8) instance_id (omega arith)
        (omega (arith, h, same)) in
    (after, rw first second)

-- The buffer behind the blob that a miner gets for a job, and the buffer that its share is checked
-- with: the second is the first with the nonce written at byte 39.
pub record SameBlob (env : Env) (t : BlockTemplate) (offset : ℕ) (job : Job) (e : Endpoint)
    (nonce : Bytes) : Type 0 where
  pub sent : Bytes
  pub checked : Bytes
  pub blob :
      next_blob env t job.extra_nonce e.instance_id ≡ some (hex_encode (env.convert_blob sent))
  pub share : share_buffer t job e nonce ≡ some checked
  pub reserved : Written t.buffer offset (big_endian32 job.extra_nonce ++ e.instance_id) sent
  pub nonce_at : Written sent 39 (hex_prefix nonce) checked

-- For a template whose eight reserved bytes and nonce lie inside the buffer, an instance id of four
-- bytes and a nonce that decodes to four, `next_blob` and `share_buffer` both succeed. The blob sent is
-- the converted buffer of the template in which only the reserved bytes are replaced, by the extra
-- nonce of the job and the instance id; the buffer checked is that same buffer in which only the four
-- bytes from 39 on are replaced, by the nonce.
pub share_buffer-next_blob :
    (env : Env) (t : BlockTemplate) (offset : ℕ) (job : Job) (e : Endpoint) (nonce : Bytes)
    → t.reserved_offset ≡ pos offset
    → offset + 8 ≤ length t.buffer
    → 43 ≤ length t.buffer
    → length e.instance_id ≡ 4
    → length (hex_prefix nonce) ≡ 4
    → SameBlob env t offset job e nonce
unfolding next_blob share_buffer copy_from
share_buffer-next_blob env t offset job e nonce at h k four four' =
    let (b, made) = reserve-fits t.buffer offset job.extra_nonce e.instance_id h in
    let first = reserve-Written t.buffer b offset job.extra_nonce e.instance_id four made in
    let same = length-Written first in
    let (s, second) =
      copy_range-fits b 39 (length b) (hex_prefix nonce) (omega (arith, same, k)) (omega arith) in
    record {
      sent = b;
      checked = s;
      blob = rw (at, made) refl;
      share = rw (at, made) second;
      reserved = first;
      nonce_at = copy_from-Written b 39 (hex_prefix nonce) s (omega (arith, same, k, four')) second;
    }
