-- ===== src/Blocktemplate/Unpacking.antt =====
-- `UnPack` reads back a binary form and leaves what follows it.
use xmrpool.Common.{
  ℕ, ◌≡◌, refl, sym, ◌∙◌, List, [], ◌∷◌, ◌++◌, append_assoc, arith, length, length-replicate,
  replicate, All,
}
use xmrpool.Common.Texts.{Bytes}
use xmrpool.Common.Words.{u8, u32, IsU32, IsU64}
use xmrpool.Blocktemplate.Wire.{Result, ok, read_into-append, make_slice_fits}
use xmrpool.Blocktemplate.VarInt.{unpack_var_int}
use xmrpool.Blocktemplate.VarInt.Encoding.{var_int_bytes}
use xmrpool.Blocktemplate.VarInt.Decode.{unpack_var_int-var_int_bytes}
use xmrpool.Blocktemplate.Crypto.{
  CryptoHash, CryptoPubKey, HashFits, PubKeyFits, unpack_hash, unpack_pub_key, zero_hash,
  zero_pub_key,
}
use xmrpool.Blocktemplate.Loops.{unpack_each}
use xmrpool.Blocktemplate.Transaction.{
  TxInGen, TxOutGen, MinerTransaction, zero_tx_out, unpack_tx_in, unpack_tx_out, unpack_miner_tx,
}
use xmrpool.Blocktemplate.Block.{
  BtcUtility, BlockHeader, Block, BlockHashingBlob, unpack_u32, unpack_header, unpack_block,
  unpack_hashing_blob,
}
use xmrpool.Blocktemplate.Encoding.{
  each_bytes, tx_in_bytes, tx_out_bytes, miner_tx_bytes, u32_bytes, header_bytes, block_bytes,
  hashing_blob_bytes, BtcUtilityLaws, TxInFits, TxOutFits, MinerTxFits, HeaderFits, BlockFits,
  HashingBlobFits,
}

-- A step that reads `a` as `x`, whatever follows.
abbrev pub Reads : {A : Type 0} → (Bytes → Result (A × Bytes)) → Bytes → A → Type 0
Reads u a x = (rest : Bytes) → u (a ++ rest) ≡ ok (x, rest)

var_int-Reads : (v : ℕ) → IsU64 v → Reads unpack_var_int (var_int_bytes v) v
var_int-Reads v h rest = unpack_var_int-var_int_bytes v rest h

pub_key-Reads :
    (c d : CryptoPubKey) → PubKeyFits c → PubKeyFits d → Reads (unpack_pub_key d) c.pub_key_data c
unfolding unpack_pub_key
pub_key-Reads c d h g rest =
    rw (read_into-append d.pub_key_data c.pub_key_data rest (g.size ∙ sym h.size)) refl

hash-Reads : (c d : CryptoHash) → HashFits c → HashFits d → Reads (unpack_hash d) c.hash_data c
unfolding unpack_hash
hash-Reads c d h g rest =
    rw (read_into-append d.hash_data c.hash_data rest (g.size ∙ sym h.size)) refl

unpack_each-Reads :
    {A : Type 0} (u : Bytes → Result (A × Bytes)) (bytes : A → Bytes) (P : A → Type 0)
    → ((x : A) → P x → Reads u (bytes x) x)
    → (xs : List A) → All P xs
    → Reads (unpack_each u (length xs)) (each_bytes bytes xs) xs
unfolding unpack_each
unpack_each-Reads u bytes P each [] h = λ rest. refl
unpack_each-Reads u bytes P each (x ∷ xs) (hx, h) =
    λ rest. rw (append_assoc, each x hx, unpack_each-Reads u bytes P each xs h) refl

tx_in-Reads : (t : TxInGen) → TxInFits t → Reads unpack_tx_in (tx_in_bytes t) t
unfolding unpack_tx_in
tx_in-Reads t h rest =
    let fits : u32 t.height ≡ t.height = omega arith in
    rw (var_int-Reads t.height (omega arith), fits) refl

zero_pub_key-Fits : PubKeyFits zero_pub_key
zero_pub_key-Fits = omega arith

zero_hash-Fits : HashFits zero_hash
zero_hash-Fits = omega arith

tx_out-Reads : (t : TxOutGen) → TxOutFits t → Reads (unpack_tx_out zero_tx_out) (tx_out_bytes t) t
unfolding unpack_tx_out
tx_out-Reads t h rest =
    rw
      (
        append_assoc,
        var_int-Reads t.amount h.amount,
        append_assoc,
        pub_key-Reads t.pub_key zero_pub_key h.pub_key zero_pub_key-Fits,
        read_into-append (replicate 1 0) (t.view_tag ∷ []) rest refl,
      )
      refl

pub miner_tx-Reads :
    (m : MinerTransaction) → MinerTxFits m → Reads unpack_miner_tx (miner_tx_bytes m) m
unfolding unpack_miner_tx
miner_tx-Reads m h rest =
    let fits : u8 m.rct_sig_type ≡ m.rct_sig_type = omega arith in
    rw
      (
        append_assoc,
        var_int-Reads m.version h.version,
        append_assoc,
        var_int-Reads m.unlock_time h.unlock_time,
        append_assoc,
        var_int-Reads (length m.vin) (omega arith),
        make_slice_fits 4 (length m.vin) h.vin_size,
        append_assoc,
        unpack_each-Reads unpack_tx_in tx_in_bytes TxInFits tx_in-Reads m.vin h.vin,
        append_assoc,
        var_int-Reads (length m.vout) (omega arith),
        make_slice_fits 48 (length m.vout) h.vout_size,
        append_assoc,
        unpack_each-Reads (unpack_tx_out zero_tx_out) tx_out_bytes TxOutFits tx_out-Reads m.vout
            h.vout,
        append_assoc,
        var_int-Reads (length m.extra) (omega arith),
        make_slice_fits 1 (length m.extra) (omega arith),
        append_assoc,
        read_into-append (replicate (length m.extra) 0) m.extra _
            (length-replicate (length m.extra) 0),
        var_int-Reads m.rct_sig_type (omega arith),
        fits,
      )
      refl

module _ (utility : BtcUtility) (laws : BtcUtilityLaws utility) where
  u32-Reads : (x : ℕ) → IsU32 x → Reads (unpack_u32 utility) (u32_bytes utility x) x
  unfolding unpack_u32
  u32-Reads x h rest =
      let le = laws.to_little_endian-IsU32 x h in
      rw
        (
          read_into-append (replicate 4 0) (u32_bytes utility x) rest (sym (laws.length-dump _ le)),
          laws.load-dump _ le,
          laws.from-to_little_endian x h,
        )
        refl

  header-Reads :
      (b c : BlockHeader)
      → HeaderFits b
      → HashFits c.prev_id
      → Reads (unpack_header utility c) (header_bytes utility b) b
  unfolding unpack_header
  header-Reads b c h g rest =
      let major : u8 b.major_version ≡ b.major_version = omega arith in
      let minor : u8 b.minor_version ≡ b.minor_version = omega arith in
      rw
        (
          append_assoc,
          var_int-Reads b.major_version (omega arith),
          append_assoc,
          var_int-Reads b.minor_version (omega arith),
          append_assoc,
          var_int-Reads b.timestamp h.timestamp,
          append_assoc,
          hash-Reads b.prev_id c.prev_id h.prev_id g,
          u32-Reads b.nonce h.nonce,
          major,
          minor,
        )
        refl

  -- A block is read back from its binary form, into any block whose hash array has its size, and
  -- the bytes that follow are left.
  pub unpack_block-block_bytes :
      (b c : Block) (rest : Bytes)
      → BlockFits b
      → HashFits c.block_header.prev_id
      → unpack_block utility c (block_bytes utility b ++ rest) ≡ ok (b, rest)
  unfolding unpack_block
  unpack_block-block_bytes b c rest h g =
      rw
        (
          append_assoc,
          header-Reads b.block_header c.block_header h.block_header g,
          append_assoc,
          miner_tx-Reads b.miner_tx h.miner_tx,
          append_assoc,
          var_int-Reads (length b.tx_hashes) (omega arith),
          make_slice_fits 32 (length b.tx_hashes) h.tx_hashes_size,
          unpack_each-Reads (unpack_hash zero_hash) (λ (x : CryptoHash). x.hash_data) HashFits
              (λ x hx. hash-Reads x zero_hash hx zero_hash-Fits) b.tx_hashes h.tx_hashes,
        )
        refl

  pub unpack_hashing_blob-hashing_blob_bytes :
      (b c : BlockHashingBlob) (rest : Bytes)
      → HashingBlobFits b
      → HashFits c.block_header.prev_id
      → HashFits c.tree_root_hash
      → unpack_hashing_blob utility c (hashing_blob_bytes utility b ++ rest) ≡ ok (b, rest)
  unfolding unpack_hashing_blob
  unpack_hashing_blob-hashing_blob_bytes b c rest h g gt =
      rw
        (
          append_assoc,
          header-Reads b.block_header c.block_header h.block_header g,
          append_assoc,
          hash-Reads b.tree_root_hash c.tree_root_hash h.tree_root_hash gt,
          var_int-Reads b.tx_hash_size h.tx_hash_size,
        )
        refl
