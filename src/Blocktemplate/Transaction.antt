-- ===== src/Blocktemplate/Transaction.antt =====
-- blocktemplate/transaction.go: the miner transaction of a block.
use xmrpool.Common.{ℕ, List, [], ◌∷◌, length, replicate}
use xmrpool.Common.Texts.{Bytes}
use xmrpool.Common.Words.{u8, u32}
use xmrpool.Blocktemplate.Wire.{Result, ok, ◌>>=◌, ◌>>◌, read_into, make_slice}
use xmrpool.Blocktemplate.VarInt.{pack_var_int, unpack_var_int}
use xmrpool.Blocktemplate.Crypto.{CryptoPubKey, zero_pub_key, pack_pub_key, unpack_pub_key}
use xmrpool.Blocktemplate.Loops.{pack_each, unpack_each}

pub record TxInGen : Type 0 where
  pub height : ℕ  -- uint32

pub record TxOutGen : Type 0 where
  pub amount : ℕ  -- uint64
  pub pub_key : CryptoPubKey
  pub view_tag : ℕ  -- byte

pub record MinerTransaction : Type 0 where
  pub version : ℕ  -- uint64
  pub unlock_time : ℕ  -- uint64
  pub vin : List TxInGen
  pub vout : List TxOutGen
  pub extra : Bytes
  pub rct_sig_type : ℕ  -- uint8

-- The sizes of TxInGen and TxOutGen in memory; the latter is 8 + 33 + 1 bytes, aligned to 8.
abbrev pub tx_in_size : ℕ
tx_in_size = 4

abbrev pub tx_out_size : ℕ
tx_out_size = 48

abbrev pub zero_tx_out : TxOutGen
zero_tx_out = record { amount = 0; pub_key = zero_pub_key; view_tag = 0 }

-- `s[0]` of a slice that is not empty.
abbrev pub first_byte : Bytes → ℕ
first_byte [] = 0
first_byte (b ∷ bs) = b

module _ {Sink : Type 0} (write : Bytes → Sink → Result Sink) where
  unfoldable pub pack_tx_in : TxInGen → Sink → Result Sink
  pack_tx_in t w = pack_var_int write t.height w

  unfoldable pub pack_tx_out : TxOutGen → Sink → Result Sink
  pack_tx_out t w = do
    w₁ ← pack_var_int write t.amount w
    w₂ ← pack_pub_key write t.pub_key w₁
    write (t.view_tag ∷ []) w₂

  unfoldable pub pack_miner_tx : MinerTransaction → Sink → Result Sink
  pack_miner_tx m w = do
    w₁ ← pack_var_int write m.version w
    w₂ ← pack_var_int write m.unlock_time w₁
    w₃ ← pack_var_int write (length m.vin) w₂
    w₄ ← pack_each pack_tx_in m.vin w₃
    w₅ ← pack_var_int write (length m.vout) w₄
    w₆ ← pack_each pack_tx_out m.vout w₅
    w₇ ← pack_var_int write (length m.extra) w₆
    w₈ ← write m.extra w₇
    pack_var_int write m.rct_sig_type w₈

unfoldable pub unpack_tx_in : Bytes → Result (TxInGen × Bytes)
unpack_tx_in r = do (v, rest) ← unpack_var_int r; ok (record { height = u32 v }, rest)

-- The receiver's old key matters where a read is short.
unfoldable pub unpack_tx_out : TxOutGen → Bytes → Result (TxOutGen × Bytes)
unpack_tx_out t r = do
  (amount, r₁) ← unpack_var_int r
  (key, r₂) ← unpack_pub_key t.pub_key r₁
  (s, rest) ← read_into (replicate 1 0) r₂
  ok (record { amount = amount; pub_key = key; view_tag = first_byte s }, rest)

unfoldable pub unpack_miner_tx : Bytes → Result (MinerTransaction × Bytes)
unpack_miner_tx r = do
  (version, r₁) ← unpack_var_int r
  (unlock_time, r₂) ← unpack_var_int r₁
  (ins, r₃) ← unpack_var_int r₂
  make_slice tx_in_size ins
  (vin, r₄) ← unpack_each unpack_tx_in ins r₃
  (outs, r₅) ← unpack_var_int r₄
  make_slice tx_out_size outs
  (vout, r₆) ← unpack_each (unpack_tx_out zero_tx_out) outs r₅
  (extras, r₇) ← unpack_var_int r₆
  make_slice 1 extras
  (extra, r₈) ← read_into (replicate extras 0) r₇
  (rct, rest) ← unpack_var_int r₈
  ok (
    record {
      version = version;
      unlock_time = unlock_time;
      vin = vin;
      vout = vout;
      extra = extra;
      rct_sig_type = u8 rct;
    },
    rest,
  )
