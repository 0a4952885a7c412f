-- ===== src/Blocktemplate/Encoding.antt =====
-- The binary form of each structure as a plain list of bytes, and which values of the Go types have
-- one that `UnPack` accepts.
use xmrpool.Common.{ℕ, ◌*◌, ◌≤◌, ◌≡◌, true, List, [], ◌∷◌, ◌++◌, length, All}
use xmrpool.Common.Texts.{Bytes}
use xmrpool.Common.Words.{IsByte, IsU32, IsU64}
use xmrpool.Blocktemplate.Wire.{ok, max_alloc}
use xmrpool.Blocktemplate.VarInt.Encoding.{var_int_bytes}
use xmrpool.Blocktemplate.Crypto.{CryptoHash, HashFits, PubKeyFits}
use xmrpool.Blocktemplate.Transaction.{TxInGen, TxOutGen, MinerTransaction, tx_in_size, tx_out_size}
use xmrpool.Blocktemplate.Block.{BtcUtility, BlockHeader, Block, BlockHashingBlob}

abbrev pub each_bytes : {A : Type 0} → (A → Bytes) → List A → Bytes
each_bytes f [] = []
each_bytes f (x ∷ xs) = f x ++ each_bytes f xs

abbrev pub tx_in_bytes : TxInGen → Bytes
tx_in_bytes t = var_int_bytes t.height

abbrev pub tx_out_bytes : TxOutGen → Bytes
tx_out_bytes t = var_int_bytes t.amount ++ (t.pub_key.pub_key_data ++ (t.view_tag ∷ []))

abbrev pub miner_tx_bytes : MinerTransaction → Bytes
miner_tx_bytes m =
    var_int_bytes m.version
    ++ (var_int_bytes m.unlock_time
        ++ (var_int_bytes (length m.vin)
            ++ (each_bytes tx_in_bytes m.vin
                ++ (var_int_bytes (length m.vout)
                    ++ (each_bytes tx_out_bytes m.vout
                        ++ (var_int_bytes (length m.extra)
                            ++ (m.extra ++ var_int_bytes m.rct_sig_type)))))))

module _ (utility : BtcUtility) where
  open utility use {
    convert_uint32_to_little_endian, convert_uint32_from_little_endian, dump_uint32_to_bytes,
    load_uint32_from_bytes, assert,
  }

  abbrev pub u32_bytes : ℕ → Bytes
  u32_bytes x = dump_uint32_to_bytes (convert_uint32_to_little_endian x)

  abbrev pub header_bytes : BlockHeader → Bytes
  header_bytes b =
      var_int_bytes b.major_version
      ++ (var_int_bytes b.minor_version
          ++ (var_int_bytes b.timestamp ++ (b.prev_id.hash_data ++ u32_bytes b.nonce)))

  abbrev pub block_bytes : Block → Bytes
  block_bytes b =
      header_bytes b.block_header
      ++ (miner_tx_bytes b.miner_tx
          ++ (var_int_bytes (length b.tx_hashes)
              ++ each_bytes (λ (c : CryptoHash). c.hash_data) b.tx_hashes))

  abbrev pub hashing_blob_bytes : BlockHashingBlob → Bytes
  hashing_blob_bytes b =
      header_bytes b.block_header ++ (b.tree_root_hash.hash_data ++ var_int_bytes b.tx_hash_size)

  -- What block.go relies on: the two conversions of a uint32 are inverse to each other, four bytes
  -- hold one, and the assertion passes a true condition.
  pub record BtcUtilityLaws : Type 0 where
    pub to_little_endian-IsU32 : (x : ℕ) → IsU32 x → IsU32 (convert_uint32_to_little_endian x)
    pub from-to_little_endian :
        (x : ℕ)
        → IsU32 x
        → convert_uint32_from_little_endian (convert_uint32_to_little_endian x) ≡ x
    pub length-dump : (x : ℕ) → IsU32 x → length (dump_uint32_to_bytes x) ≡ 4
    pub load-dump : (x : ℕ) → IsU32 x → load_uint32_from_bytes (dump_uint32_to_bytes x) ≡ x
    pub assert-true : assert true ≡ ok tt

abbrev pub TxInFits : TxInGen → Type 0
TxInFits t = IsU32 t.height

pub record TxOutFits (t : TxOutGen) : Type 0 where
  pub amount : IsU64 t.amount
  pub pub_key : PubKeyFits t.pub_key
  pub view_tag : IsByte t.view_tag

pub record MinerTxFits (m : MinerTransaction) : Type 0 where
  pub version : IsU64 m.version
  pub unlock_time : IsU64 m.unlock_time
  pub vin : All TxInFits m.vin
  pub vin_size : tx_in_size * length m.vin ≤ max_alloc
  pub vout : All TxOutFits m.vout
  pub vout_size : tx_out_size * length m.vout ≤ max_alloc
  pub extra : All IsByte m.extra
  pub extra_size : length m.extra ≤ max_alloc
  pub rct_sig_type : IsByte m.rct_sig_type

pub record HeaderFits (b : BlockHeader) : Type 0 where
  pub major_version : IsByte b.major_version
  pub minor_version : IsByte b.minor_version
  pub timestamp : IsU64 b.timestamp
  pub prev_id : HashFits b.prev_id
  pub nonce : IsU32 b.nonce

pub record BlockFits (b : Block) : Type 0 where
  pub block_header : HeaderFits b.block_header
  pub miner_tx : MinerTxFits b.miner_tx
  pub tx_hashes : All HashFits b.tx_hashes
  pub tx_hashes_size : 32 * length b.tx_hashes ≤ max_alloc

pub record HashingBlobFits (b : BlockHashingBlob) : Type 0 where
  pub block_header : HeaderFits b.block_header
  pub tree_root_hash : HashFits b.tree_root_hash
  pub tx_hash_size : IsU64 b.tx_hash_size
