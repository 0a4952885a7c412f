-- ===== src/Blocktemplate/Tests.antt =====
-- Runs of the block template code, and its theorems at concrete inputs.
use xmrpool.Common.{
  ℕ, ◌+◌, ◌*◌, ◌/◌, ◌%◌, ◌^◌, ◌≤◌, ◌≡◌, refl, true, false, [], ◌∷◌, ◌++◌, arith, length, replicate,
  lt_wf, All,
}
use xmrpool.Common.Texts.{Bytes}
use xmrpool.Common.Words.{IsByte}
use xmrpool.Blocktemplate.Wire.{ok, panicked, buffer_write}
use xmrpool.Blocktemplate.VarInt.{pack_loop, pack_var_int, unpack_var_int}
use xmrpool.Blocktemplate.VarInt.Encoding.{var_int_bytes}
use xmrpool.Blocktemplate.VarInt.Decode.{group_value, unpack_var_int-groups}
use xmrpool.Blocktemplate.Crypto.{HashFits, zero_hash, zero_pub_key, unpack_hash}
use xmrpool.Blocktemplate.Transaction.{unpack_miner_tx}
use xmrpool.Blocktemplate.Block.{
  BtcUtility, BlockHeader, BlockTemplateBlob, pack_template_blob, unpack_template_blob,
}
use xmrpool.Blocktemplate.Encoding.{BtcUtilityLaws, BlockFits}
use xmrpool.Blocktemplate.RoundTrip.{
  unpack-pack_var_int, unpack-pack_template_blob, unpack_hash_short, unpack_miner_tx_panics,
}
use native.Mathlib.Decide.{dec_lt}

-- A little-endian machine: the conversions do nothing, and the lowest byte comes first.
abbrev four_bytes : Bytes → ℕ
four_bytes (a ∷ b ∷ c ∷ d ∷ rest) = a + 256 * b + 65536 * c + 16777216 * d
four_bytes other = 0

abbrev little : BtcUtility
little = record {
  convert_uint32_to_little_endian = λ x. x;
  convert_uint32_from_little_endian = λ x. x;
  dump_uint32_to_bytes = λ x. x % 256 ∷ x / 256 % 256 ∷ x / 65536 % 256 ∷ x / 16777216 ∷ [];
  load_uint32_from_bytes = four_bytes;
  assert = λ b. elim b [ true ↦ ok tt | false ↦ panicked ];
}

little-BtcUtilityLaws : BtcUtilityLaws little
little-BtcUtilityLaws = record {
  to_little_endian-IsU32 = λ x h. h;
  from-to_little_endian = λ x h. refl;
  length-dump = λ x h. refl;
  load-dump = λ x h. omega arith;
  assert-true = refl;
}

abbrev header : BlockHeader
header = record {
  major_version = 16;
  minor_version = 16;
  timestamp = 1700000000;
  prev_id = record { hash_data = replicate 32 7 };
  nonce = 0x01020304;
}

abbrev template : BlockTemplateBlob
template = record {
  block = record {
    block_header = header;
    miner_tx = record {
      version = 2;
      unlock_time = 3000060;
      vin = record { height = 3000000 } ∷ [];
      vout = record { amount = 600000000000; pub_key = zero_pub_key; view_tag = 9 } ∷ [];
      extra = 1 ∷ 2 ∷ 3 ∷ [];
      rct_sig_type = 0;
    };
    tx_hashes = zero_hash ∷ zero_hash ∷ [];
  };
}

template-BlockFits : BlockFits template.block
template-BlockFits = omega arith

hash_bytes-HashFits : HashFits header.prev_id
hash_bytes-HashFits = omega arith

-- 300 takes two bytes.
pack_300 : pack_var_int buffer_write 300 [] ≡ ok (0xac ∷ 0x02 ∷ [])
unfolding pack_var_int pack_loop lt_wf dec_lt
pack_300 = refl

-- Eleven groups are accepted, and what is above 64 bits is dropped.
eleven_groups : unpack_var_int (replicate 10 0x80 ++ (1 ∷ 5 ∷ [])) ≡ ok (0, 5 ∷ [])
unfolding unpack_var_int
eleven_groups = refl

unpack-pack_var_int_example :
    (bs : Bytes) × (pack_var_int buffer_write 300 (1 ∷ []) ≡ ok ((1 ∷ []) ++ bs))
    × (1 ≤ length bs)
    × (length bs ≤ 10)
    × All IsByte bs
    × ((rest : Bytes) → unpack_var_int (bs ++ rest) ≡ ok (300, rest))
unpack-pack_var_int_example = unpack-pack_var_int 300 (1 ∷ []) (omega arith)

unpack_var_int-groups_example : unpack_var_int (0x80 ∷ 0x80 ∷ 1 ∷ 5 ∷ []) ≡ ok (16384, 5 ∷ [])
unfolding group_value
unpack_var_int-groups_example =
    unpack_var_int-groups (0x80 ∷ 0x80 ∷ []) 1 (5 ∷ []) (omega arith) (omega arith)

unpack-pack_template_blob_example :
    (bs : Bytes) × (pack_template_blob little buffer_write template [] ≡ ok ([] ++ bs))
    × ((rest : Bytes) → unpack_template_blob little template (bs ++ rest) ≡ ok (template, rest))
unpack-pack_template_blob_example =
    unpack-pack_template_blob little little-BtcUtilityLaws template template [] template-BlockFits
      hash_bytes-HashFits

unpack_hash_short_example :
    unpack_hash zero_hash (7 ∷ 8 ∷ []) ≡ ok (record { hash_data = 7 ∷ 8 ∷ replicate 30 0 }, [])
unpack_hash_short_example = unpack_hash_short zero_hash 7 (8 ∷ []) (omega arith)

unpack_miner_tx_panics_example :
    (unpack_miner_tx (var_int_bytes 2 ++ (var_int_bytes 60 ++ (var_int_bytes (2 ^ 47) ++ [])))
      ≡ panicked)
    × (unpack_miner_tx (
          var_int_bytes 2
          ++ (var_int_bytes 60 ++ (var_int_bytes 0 ++ (var_int_bytes (2 ^ 47) ++ []))))
        ≡ panicked)
unpack_miner_tx_panics_example =
    unpack_miner_tx_panics 2 60 (2 ^ 47) [] (omega arith) (omega arith) (omega arith) (omega arith)
