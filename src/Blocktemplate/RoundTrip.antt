-- ===== src/Blocktemplate/RoundTrip.antt =====
-- Packing and unpacking block templates, and what `UnPack` does on input that is cut or hostile.
use xmrpool.Common.{
  ℕ, ◌*◌, ◌≤◌, ◌<◌, ◌≡◌, refl, [], ◌∷◌, ◌++◌, arith, length, drop, All, append-nil, take-all,
  drop-all,
}
use xmrpool.Common.Texts.{Bytes, hex_encode, hex_decode-encode, length-hex_encode}
use xmrpool.Common.Words.{IsByte, IsU64}
use xmrpool.Blocktemplate.Wire.{
  ok, panicked, buffer_write, read, read_into, make_slice, make_slice_fits, max_alloc,
}
use xmrpool.Blocktemplate.VarInt.{pack_var_int, unpack_var_int}
use xmrpool.Blocktemplate.VarInt.Encoding.{var_int_bytes, pack_var_int-buffer, var_int_bytes_shape}
use xmrpool.Blocktemplate.VarInt.Decode.{unpack_var_int-var_int_bytes}
use xmrpool.Blocktemplate.Crypto.{CryptoHash, HashFits, unpack_hash, hash_to_hex, hash_from_hex}
use xmrpool.Blocktemplate.Transaction.{tx_in_size, tx_out_size, unpack_miner_tx}
use xmrpool.Blocktemplate.Block.{
  BtcUtility, BlockTemplateBlob, BlockHashingBlob, pack_template_blob, unpack_template_blob,
  pack_hashing_blob, unpack_hashing_blob,
}
use xmrpool.Blocktemplate.Encoding.{
  block_bytes, hashing_blob_bytes, BtcUtilityLaws, BlockFits, HashingBlobFits,
}
use xmrpool.Blocktemplate.Packing.{pack_block-buffer, pack_hashing_blob-buffer}
use xmrpool.Blocktemplate.Unpacking.{
  unpack_block-block_bytes, unpack_hashing_blob-hashing_blob_bytes,
}

-- For every uint64, PackVarInt into a buffer succeeds, adds 1 to 10 bytes behind what was there, and
-- UnPackVarInt reads the same number back from them, leaving whatever follows.
pub unpack-pack_var_int :
    (v : ℕ) (out : Bytes)
    → IsU64 v
    → (bs : Bytes) × (pack_var_int buffer_write v out ≡ ok (out ++ bs))
      × (1 ≤ length bs)
      × (length bs ≤ 10)
      × All IsByte bs
      × ((rest : Bytes) → unpack_var_int (bs ++ rest) ≡ ok (v, rest))
unpack-pack_var_int v out h =
    let (bytes, lo, hi) = var_int_bytes_shape v h in
    (
      var_int_bytes v,
      pack_var_int-buffer v out h,
      lo,
      hi,
      bytes,
      λ rest. unpack_var_int-var_int_bytes v rest h,
    )

module _ (utility : BtcUtility) (laws : BtcUtilityLaws utility) where
  -- A block template whose fields fit their Go types is packed into a buffer without an error, and
  -- unpacking the bytes that were added, with anything behind them, into any receiver with a hash
  -- array of 32 bytes gives the template back and leaves the bytes behind.
  pub unpack-pack_template_blob :
      (b c : BlockTemplateBlob) (out : Bytes)
      → BlockFits b.block
      → HashFits c.block.block_header.prev_id
      → (bs : Bytes) × (pack_template_blob utility buffer_write b out ≡ ok (out ++ bs))
        × ((rest : Bytes) → unpack_template_blob utility c (bs ++ rest) ≡ ok (b, rest))
  unfolding pack_template_blob unpack_template_blob
  unpack-pack_template_blob b c out h g = (
    block_bytes utility b.block,
    pack_block-buffer utility laws b.block out h,
    λ rest. rw (unpack_block-block_bytes utility laws b.block c.block rest h g),
  )

  -- The same of a block hashing blob, with the receiver's two hash arrays of 32 bytes.
  unpack-pack_hashing_blob :
      (b c : BlockHashingBlob) (out : Bytes)
      → HashingBlobFits b
      → HashFits c.block_header.prev_id
      → HashFits c.tree_root_hash
      → (bs : Bytes) × (pack_hashing_blob utility buffer_write b out ≡ ok (out ++ bs))
        × ((rest : Bytes) → unpack_hashing_blob utility c (bs ++ rest) ≡ ok (b, rest))
  unpack-pack_hashing_blob b c out h g gt = (
    hashing_blob_bytes utility b,
    pack_hashing_blob-buffer utility laws b out h,
    λ rest. unpack_hashing_blob-hashing_blob_bytes utility laws b c rest h g gt,
  )

-- A hash printed in hexadecimal is read back by FromHex, into any receiver of the same size.
hash_from_hex-hash_to_hex :
    (c d : CryptoHash) → HashFits c → HashFits d → hash_from_hex d (hash_to_hex c) ≡ ok c
unfolding hash_from_hex hash_to_hex
hash_from_hex-hash_to_hex c d h g =
    let size : length (hex_encode c.hash_data) ≡ 64 =
      omega (arith, length-hex_encode c.hash_data, h.size) in
    let gone : drop (length c.hash_data) d.hash_data ≡ [] =
      drop-all (length c.hash_data) d.hash_data (omega (arith, h.size, g.size)) in
    rw (size, hex_decode-encode c.hash_data h.bytes, gone, append-nil c.hash_data) refl

short_read :
    (old bs : Bytes) (b : ℕ)
    → length (b ∷ bs) ≤ length old
    → read_into old (b ∷ bs) ≡ ok ((b ∷ bs) ++ drop (length (b ∷ bs)) old, [])
unfolding read_into read
short_read old bs b h = rw (take-all (length old) (b ∷ bs) h, drop-all (length old) (b ∷ bs) h) refl

-- A hash that is cut short, but not empty, is accepted: UnPack returns no error, and the bytes that
-- are missing keep the receiver's old content.
pub unpack_hash_short :
    (c : CryptoHash) (b : ℕ) (bs : Bytes)
    → length (b ∷ bs) ≤ length c.hash_data
    → unpack_hash c (b ∷ bs)
      ≡ ok (record { hash_data = (b ∷ bs) ++ drop (length (b ∷ bs)) c.hash_data }, [])
unfolding unpack_hash
unpack_hash_short c b bs h = rw (short_read c.hash_data bs b h) refl

too_large : (size n : ℕ) → max_alloc < size * n → make_slice size n ≡ panicked
unfolding make_slice
too_large size n h = ground arith

-- A template that announces so many inputs, or no input and so many outputs, that the slice for inputs
-- would exceed the address space makes UnPack panic, whatever follows the count.
pub unpack_miner_tx_panics :
    (version unlock_time n : ℕ) (rest : Bytes)
    → IsU64 version
    → IsU64 unlock_time
    → IsU64 n
    → max_alloc < tx_in_size * n
    → (unpack_miner_tx
          (var_int_bytes version ++ (var_int_bytes unlock_time ++ (var_int_bytes n ++ rest)))
        ≡ panicked)
      × (unpack_miner_tx (
            var_int_bytes version
            ++ (var_int_bytes unlock_time ++ (var_int_bytes 0 ++ (var_int_bytes n ++ rest))))
          ≡ panicked)
unfolding unpack_miner_tx xmrpool.Blocktemplate.Loops.unpack_each
unpack_miner_tx_panics version unlock_time n rest hv hu hn big = (
  rw
      (
        unpack_var_int-var_int_bytes version _ hv,
        unpack_var_int-var_int_bytes unlock_time _ hu,
        unpack_var_int-var_int_bytes n rest hn,
        too_large tx_in_size n big,
      )
      refl,
  rw
      (
        unpack_var_int-var_int_bytes version _ hv,
        unpack_var_int-var_int_bytes unlock_time _ hu,
        unpack_var_int-var_int_bytes 0 _ (omega arith),
        make_slice_fits tx_in_size 0 (omega arith),
        unpack_var_int-var_int_bytes n rest hn,
        too_large tx_out_size n (omega (arith, big)),
      )
      refl,
)
