-- ===== src/Blocktemplate/Packing.antt =====
-- `Pack` into a buffer appends the binary form of the structure.
use xmrpool.Common.{
  ℕ, ◌≡◌, refl, sym, ap, List, [], ◌∷◌, ◌++◌, append-nil, append_assoc, arith, length, All,
}
use xmrpool.Common.Texts.{Bytes}
use xmrpool.Common.Words.{IsU32, IsU64}
use xmrpool.Blocktemplate.Wire.{Result, ok, buffer_write, ◌>>=◌}
use xmrpool.Blocktemplate.VarInt.{pack_var_int}
use xmrpool.Blocktemplate.VarInt.Encoding.{var_int_bytes, pack_var_int-buffer}
use xmrpool.Blocktemplate.Crypto.{CryptoHash, HashFits, pack_hash, pack_pub_key}
use xmrpool.Blocktemplate.Loops.{pack_each}
use xmrpool.Blocktemplate.Transaction.{
  TxInGen, TxOutGen, MinerTransaction, pack_tx_in, pack_tx_out, pack_miner_tx,
}
use xmrpool.Blocktemplate.Block.{
  BtcUtility, BlockHeader, Block, BlockHashingBlob, pack_u32, pack_header, pack_block,
  pack_hashing_blob,
}
use xmrpool.Blocktemplate.Encoding.{
  each_bytes, tx_in_bytes, tx_out_bytes, miner_tx_bytes, u32_bytes, header_bytes, block_bytes,
  hashing_blob_bytes, BtcUtilityLaws, TxInFits, TxOutFits, MinerTxFits, HeaderFits, BlockFits,
  HashingBlobFits,
}

-- A step that appends `a`, whatever stands in the buffer.
abbrev pub Appends : (Bytes → Result Bytes) → Bytes → Type 0
Appends m a = (out : Bytes) → m out ≡ ok (out ++ a)

Appends-then :
    (m k : Bytes → Result Bytes) (a b : Bytes)
    → Appends m a
    → Appends k b
    → Appends (λ out. m out >>= k) (a ++ b)
Appends-then m k a b hm hk out = rw (hm out, hk (out ++ a)) (ap ok (append_assoc out a b))

write-Appends : (bs : Bytes) → Appends (buffer_write bs) bs
write-Appends bs out = refl

var_int-Appends : (v : ℕ) → IsU64 v → Appends (pack_var_int buffer_write v) (var_int_bytes v)
var_int-Appends v h out = pack_var_int-buffer v out h

pack_each-Appends :
    {A : Type 0} (pack : A → Bytes → Result Bytes) (bytes : A → Bytes) (P : A → Type 0)
    → ((x : A) → P x → Appends (pack x) (bytes x))
    → (xs : List A) → All P xs
    → Appends (pack_each pack xs) (each_bytes bytes xs)
unfolding pack_each
pack_each-Appends pack bytes P each [] h = λ out. ap ok (sym (append-nil out))
pack_each-Appends pack bytes P each (x ∷ xs) (hx, h) =
    Appends-then (pack x) (pack_each pack xs) (bytes x) (each_bytes bytes xs) (each x hx)
      (pack_each-Appends pack bytes P each xs h)

tx_in-Appends : (t : TxInGen) → TxInFits t → Appends (pack_tx_in buffer_write t) (tx_in_bytes t)
unfolding pack_tx_in
tx_in-Appends t h = var_int-Appends t.height (omega arith)

tx_out-Appends :
    (t : TxOutGen) → TxOutFits t → Appends (pack_tx_out buffer_write t) (tx_out_bytes t)
unfolding pack_tx_out pack_pub_key
tx_out-Appends t h =
    Appends-then _ _ _ _ (var_int-Appends t.amount h.amount) (
      Appends-then _ _ _ _ (write-Appends t.pub_key.pub_key_data) (write-Appends (t.view_tag ∷ [])))

pub miner_tx-Appends :
    (m : MinerTransaction)
    → MinerTxFits m
    → Appends (pack_miner_tx buffer_write m) (miner_tx_bytes m)
unfolding pack_miner_tx
miner_tx-Appends m h = Appends-then _ _ _ _ (var_int-Appends m.version h.version) (
    Appends-then _ _ _ _ (var_int-Appends m.unlock_time h.unlock_time) (
      Appends-then _ _ _ _ (var_int-Appends (length m.vin) (omega arith)) (
        Appends-then _ _ _ _
          (pack_each-Appends (pack_tx_in buffer_write) tx_in_bytes TxInFits tx_in-Appends m.vin
            h.vin)
          (Appends-then _ _ _ _ (var_int-Appends (length m.vout) (omega arith)) (
            Appends-then _ _ _ _
              (pack_each-Appends (pack_tx_out buffer_write) tx_out_bytes TxOutFits tx_out-Appends
                m.vout h.vout)
              (Appends-then _ _ _ _ (var_int-Appends (length m.extra) (omega arith)) (
                Appends-then _ _ _ _ (write-Appends m.extra)
                  (var_int-Appends m.rct_sig_type (omega arith)))))))))

module _ (utility : BtcUtility) (laws : BtcUtilityLaws utility) where
  u32-Appends : (x : ℕ) → IsU32 x → Appends (pack_u32 utility buffer_write x) (u32_bytes utility x)
  unfolding pack_u32
  u32-Appends x h out =
      rw (laws.length-dump _ (laws.to_little_endian-IsU32 x h), laws.assert-true) refl

  header-Appends :
      (b : BlockHeader)
      → HeaderFits b
      → Appends (pack_header utility buffer_write b) (header_bytes utility b)
  unfolding pack_header pack_hash
  header-Appends b h = Appends-then _ _ _ _ (var_int-Appends b.major_version (omega arith)) (
      Appends-then _ _ _ _ (var_int-Appends b.minor_version (omega arith)) (
        Appends-then _ _ _ _ (var_int-Appends b.timestamp h.timestamp)
          (Appends-then _ _ _ _ (write-Appends b.prev_id.hash_data) (u32-Appends b.nonce h.nonce))))

  hash-Appends : (c : CryptoHash) → HashFits c → Appends (pack_hash buffer_write c) c.hash_data
  unfolding pack_hash
  hash-Appends c h = write-Appends c.hash_data

  -- Packing a block into a buffer succeeds and appends the block's binary form.
  pub pack_block-buffer :
      (b : Block) (out : Bytes)
      → BlockFits b
      → pack_block utility buffer_write b out ≡ ok (out ++ block_bytes utility b)
  unfolding pack_block
  pack_block-buffer b out h =
      Appends-then _ _ _ _ (header-Appends b.block_header h.block_header)
        (Appends-then _ _ _ _ (miner_tx-Appends b.miner_tx h.miner_tx) (
          Appends-then _ _ _ _ (var_int-Appends (length b.tx_hashes) (omega arith)) (
            pack_each-Appends (pack_hash buffer_write) (λ (c : CryptoHash). c.hash_data) HashFits
              hash-Appends b.tx_hashes h.tx_hashes)))
        out

  pub pack_hashing_blob-buffer :
      (b : BlockHashingBlob) (out : Bytes)
      → HashingBlobFits b
      → pack_hashing_blob utility buffer_write b out ≡ ok (out ++ hashing_blob_bytes utility b)
  unfolding pack_hashing_blob
  pack_hashing_blob-buffer b out h =
      Appends-then _ _ _ _ (header-Appends b.block_header h.block_header)
        (Appends-then _ _ _ _ (hash-Appends b.tree_root_hash h.tree_root_hash)
          (var_int-Appends b.tx_hash_size h.tx_hash_size))
        out
