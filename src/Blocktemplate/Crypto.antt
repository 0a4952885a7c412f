-- ===== src/Blocktemplate/Crypto.antt =====
-- blocktemplate/serialize.go: CryptoHash and CryptoPubKey, byte arrays of fixed size.
use xmrpool.Common.{
  ℕ, ◌*◌, ◌≡◌, ◌++◌, Option, none, some, not, ◌==◌, if◌then◌else◌, length, drop, replicate, All,
}
use xmrpool.Common.Texts.{Bytes, hex_encode, hex_decode}
use xmrpool.Common.Words.{IsByte}
use xmrpool.Blocktemplate.Wire.{Result, ok, err, bad_length, bad_hex, ◌>>=◌, read_into}

abbrev pub crypto_hash_size : ℕ
crypto_hash_size = 32

abbrev pub crypto_pub_key_size : ℕ
crypto_pub_key_size = 33

pub record CryptoHash : Type 0 where
  pub hash_data : Bytes  -- [CRYPTOHASHSIZE]byte

pub record CryptoPubKey : Type 0 where
  pub pub_key_data : Bytes  -- [CRYPTOPUBKEYSIZE]byte

-- What the Go types give: the size of the array, and bytes in it.
pub record HashFits (c : CryptoHash) : Type 0 where
  pub size : length c.hash_data ≡ crypto_hash_size
  pub bytes : All IsByte c.hash_data

pub record PubKeyFits (c : CryptoPubKey) : Type 0 where
  pub size : length c.pub_key_data ≡ crypto_pub_key_size
  pub bytes : All IsByte c.pub_key_data

-- The zero values that `make` and `var` give.
abbrev pub zero_hash : CryptoHash
zero_hash = record { hash_data = replicate crypto_hash_size 0 }

abbrev pub zero_pub_key : CryptoPubKey
zero_pub_key = record { pub_key_data = replicate crypto_pub_key_size 0 }

module _ {Sink : Type 0} (write : Bytes → Sink → Result Sink) where
  unfoldable pub pack_hash : CryptoHash → Sink → Result Sink
  pack_hash c w = write c.hash_data w

  unfoldable pub pack_pub_key : CryptoPubKey → Sink → Result Sink
  pack_pub_key c w = write c.pub_key_data w

-- `UnPack` overwrites its receiver, which the first argument is.
unfoldable pub unpack_hash : CryptoHash → Bytes → Result (CryptoHash × Bytes)
unpack_hash c r = do (d, rest) ← read_into c.hash_data r; ok (record { hash_data = d }, rest)

unfoldable pub unpack_pub_key : CryptoPubKey → Bytes → Result (CryptoPubKey × Bytes)
unpack_pub_key c r = do
  (d, rest) ← read_into c.pub_key_data r
  ok (record { pub_key_data = d }, rest)

unfoldable pub hash_to_hex : CryptoHash → Bytes
hash_to_hex c = hex_encode c.hash_data

unfoldable pub pub_key_to_hex : CryptoPubKey → Bytes
pub_key_to_hex c = hex_encode c.pub_key_data

-- `hex.DecodeString` with its error.
abbrev pub decoded : Option Bytes → Result Bytes
decoded none = err bad_hex
decoded (some b) = ok b

-- `copy(dst, src)` for a source that is not longer.
abbrev pub overwritten : Bytes → Bytes → Bytes
overwritten dst src = src ++ drop (length src) dst

unfoldable pub hash_from_hex : CryptoHash → Bytes → Result CryptoHash
hash_from_hex c s =
    if not (length s == 2 * crypto_hash_size)
    then err bad_length
    else (do b ← decoded (hex_decode s); ok (record { hash_data = overwritten c.hash_data b }))

unfoldable pub pub_key_from_hex : CryptoPubKey → Bytes → Result CryptoPubKey
pub_key_from_hex c s = if not (length s == 2 * crypto_pub_key_size) then err bad_length else (do
  b ← decoded (hex_decode s)
  ok (record { pub_key_data = overwritten c.pub_key_data b }))
