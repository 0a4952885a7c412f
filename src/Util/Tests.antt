-- ===== src/Util/Tests.antt =====
-- The theorem about difficulties at a concrete hash.
use xmrpool.Common.{ℕ, ◌*◌, ◌≤◌, ◌≡◌, ◌↔◌, none, some, [], ◌∷◌}
use xmrpool.Common.Texts.{Bytes}
use xmrpool.Common.{refl, ◌==◌, ==_iff, length}
use xmrpool.Util.Ae64.{
  Crypto, IsCrypto, ok, panic, unpadding, ae64_encode, ae64_decode, ae64_decode-ae64_encode,
}
use xmrpool.Util.Difficulty.{diff1, get_hash_difficulty, hash_value, get_hash_difficulty-meets}

abbrev small_hash : Bytes
small_hash = 0 ∷ 0 ∷ 3 ∷ []

get_hash_difficulty-meets_example :
    ((get_hash_difficulty small_hash ≡ none) ↔ (hash_value small_hash ≡ 0))
    × ((q d : ℕ)
        → get_hash_difficulty small_hash ≡ some q
        → (d ≤ q) ↔ (hash_value small_hash * d ≤ diff1))
get_hash_difficulty-meets_example = get_hash_difficulty-meets small_hash

-- A cipher and a base64 that leave everything as it is.
abbrev plain : Crypto
plain = record {
  is_key = λ key. length key == 16;
  encrypt_blocks = λ key src. src;
  decrypt_blocks = λ key src. src;
  encode_to_string = λ src. src;
  decode_string = λ str. some str;
}

plain-IsCrypto : IsCrypto plain
plain-IsCrypto = record {
  takes = λ key h. (==_iff (length key) 16).1 h;
  decrypts = λ key src h. refl;
  keeps_length = λ key src. refl;
  decodes = λ src. refl;
}

ae64_decode-ae64_encode_example :
    (str : Bytes) × (ae64_encode plain (7 ∷ 8 ∷ []) (9 ∷ []) ≡ ok str)
    × (ae64_decode plain str (9 ∷ []) ≡ ok (7 ∷ 8 ∷ []))
ae64_decode-ae64_encode_example = ae64_decode-ae64_encode plain (7 ∷ 8 ∷ []) (9 ∷ []) plain-IsCrypto

-- Bytes that end in no padding, as a wrong password gives them.
unpadding_wrong : unpadding (1 ∷ 2 ∷ 9 ∷ []) ≡ panic
unfolding unpadding
unpadding_wrong = refl
