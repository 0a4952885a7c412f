-- ===== src/Blocktemplate/Block.antt =====
-- blocktemplate/block.go, blocktemplateblob.go and blockhashingblob.go.
use xmrpool.Common.{ℕ, Bool, ◌==◌, List, length, replicate}
use xmrpool.Common.Texts.{Bytes}
use xmrpool.Common.Words.{u8}
use xmrpool.Blocktemplate.Wire.{Result, ok, ◌>>=◌, ◌>>◌, read_into, make_slice}
use xmrpool.Blocktemplate.VarInt.{pack_var_int, unpack_var_int}
use xmrpool.Blocktemplate.Crypto.{CryptoHash, zero_hash, pack_hash, unpack_hash}
use xmrpool.Blocktemplate.Loops.{pack_each, unpack_each}
use xmrpool.Blocktemplate.Transaction.{MinerTransaction, pack_miner_tx, unpack_miner_tx}

-- The functions of github.com/mutalisk999/bitcoin-lib that block.go calls.
pub record BtcUtility : Type 0 where
  pub convert_uint32_to_little_endian : ℕ → ℕ
  pub convert_uint32_from_little_endian : ℕ → ℕ
  pub dump_uint32_to_bytes : ℕ → Bytes
  pub load_uint32_from_bytes : Bytes → ℕ
  pub assert : Bool → Result (Unit {0})

pub record BlockHeader : Type 0 where
  pub major_version : ℕ  -- uint8
  pub minor_version : ℕ  -- uint8
  pub timestamp : ℕ  -- uint64
  pub prev_id : CryptoHash
  pub nonce : ℕ  -- uint32

pub record Block : Type 0 where
  pub block_header : BlockHeader
  pub miner_tx : MinerTransaction
  pub tx_hashes : List CryptoHash

pub record BlockTemplateBlob : Type 0 where
  pub block : Block

pub record BlockHashingBlob : Type 0 where
  pub block_header : BlockHeader
  pub tree_root_hash : CryptoHash
  pub tx_hash_size : ℕ  -- uint64

module _ (utility : BtcUtility) where
  open utility use {
    convert_uint32_to_little_endian, convert_uint32_from_little_endian, dump_uint32_to_bytes,
    load_uint32_from_bytes, assert,
  }

  module _ {Sink : Type 0} (write : Bytes → Sink → Result Sink) where
    unfoldable pub pack_u32 : ℕ → Sink → Result Sink
    pack_u32 data32 w =
        let bytes = dump_uint32_to_bytes (convert_uint32_to_little_endian data32) in
        assert (length bytes == 4) >> write bytes w

    unfoldable pub pack_header : BlockHeader → Sink → Result Sink
    pack_header b w = do
      w₁ ← pack_var_int write b.major_version w
      w₂ ← pack_var_int write b.minor_version w₁
      w₃ ← pack_var_int write b.timestamp w₂
      w₄ ← pack_hash write b.prev_id w₃
      pack_u32 b.nonce w₄

    unfoldable pub pack_block : Block → Sink → Result Sink
    pack_block b w = do
      w₁ ← pack_header b.block_header w
      w₂ ← pack_miner_tx write b.miner_tx w₁
      w₃ ← pack_var_int write (length b.tx_hashes) w₂
      pack_each (pack_hash write) b.tx_hashes w₃

    unfoldable pub pack_template_blob : BlockTemplateBlob → Sink → Result Sink
    pack_template_blob b w = pack_block b.block w

    unfoldable pub pack_hashing_blob : BlockHashingBlob → Sink → Result Sink
    pack_hashing_blob b w = do
      w₁ ← pack_header b.block_header w
      w₂ ← pack_hash write b.tree_root_hash w₁
      pack_var_int write b.tx_hash_size w₂

  unfoldable pub unpack_u32 : Bytes → Result (ℕ × Bytes)
  unpack_u32 r = do
    (bytes, rest) ← read_into (replicate 4 0) r
    ok (convert_uint32_from_little_endian (load_uint32_from_bytes bytes), rest)

  -- As `UnPack` does, these overwrite a receiver, their first argument.
  unfoldable pub unpack_header : BlockHeader → Bytes → Result (BlockHeader × Bytes)
  unpack_header b r = do
    (major, r₁) ← unpack_var_int r
    (minor, r₂) ← unpack_var_int r₁
    (timestamp, r₃) ← unpack_var_int r₂
    (prev_id, r₄) ← unpack_hash b.prev_id r₃
    (nonce, rest) ← unpack_u32 r₄
    ok (
      record {
        major_version = u8 major;
        minor_version = u8 minor;
        timestamp = timestamp;
        prev_id = prev_id;
        nonce = nonce;
      },
      rest,
    )

  unfoldable pub unpack_block : Block → Bytes → Result (Block × Bytes)
  unpack_block b r = do
    (header, r₁) ← unpack_header b.block_header r
    (miner_tx, r₂) ← unpack_miner_tx r₁
    (n, r₃) ← unpack_var_int r₂
    make_slice 32 n
    (hashes, rest) ← unpack_each (unpack_hash zero_hash) n r₃
    ok (record { block_header = header; miner_tx = miner_tx; tx_hashes = hashes }, rest)

  unfoldable pub unpack_template_blob :
      BlockTemplateBlob → Bytes → Result (BlockTemplateBlob × Bytes)
  unpack_template_blob b r = do
    (block, rest) ← unpack_block b.block r
    ok (record { block = block }, rest)

  unfoldable pub unpack_hashing_blob : BlockHashingBlob → Bytes → Result (BlockHashingBlob × Bytes)
  unpack_hashing_blob b r = do
    (header, r₁) ← unpack_header b.block_header r
    (tree_root, r₂) ← unpack_hash b.tree_root_hash r₁
    (size, rest) ← unpack_var_int r₂
    ok (record { block_header = header; tree_root_hash = tree_root; tx_hash_size = size }, rest)
