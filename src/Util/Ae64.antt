-- ===== src/Util/Ae64.antt =====
-- util/ae64.go: passwords kept under AES in CBC mode and base64. The cipher and base64 are Go's, and
-- parameters here.
use xmrpool.Common.{
  ℕ, zero, suc, ◌+◌, ◌-◌, ◌%◌, ◌<◌, ◌≡◌, refl, ap, ◌∙◌, sym, Bool, true, false, Option, none, some,
  [], ◌∷◌, ◌++◌, if◌then◌else◌, ◌==◌, leb, ltb, length, take, replicate, arith, length-take,
  take-append, length-append, length-replicate, Bool-cases, inl, inr,
}
use native.Mathlib.Nat.{mod-lt, mod-add-mod, mod_self}
use xmrpool.Common.Words.{u8}
use xmrpool.Common.Texts.{Bytes}

-- An error, or a panic of an index out of range.
pub data Result (A : Type 0) : Type 0 where
  ok : A → Result A
  error : Result A
  panic : Result A

abbrev pub and_then : {A B : Type 0} → Result A → (A → Result B) → Result B
and_then (ok a) f = f a
and_then error f = error
and_then panic f = panic

-- CBC mode of AES for a key, which is also the vector that it starts from: whether the key is of a size
-- that `aes.NewCipher` takes, and the two directions, on whole blocks; and base64's.
pub record Crypto : Type 0 where
  pub is_key : Bytes → Bool
  pub encrypt_blocks : Bytes → Bytes → Bytes
  pub decrypt_blocks : Bytes → Bytes → Bytes
  pub encode_to_string : Bytes → Bytes
  pub decode_string : Bytes → Option Bytes

abbrev pub block_size : ℕ
block_size = 16

unfoldable pub padding : Bytes → ℕ → Bytes
padding src size = let pad_num = size - length src % size in src ++ replicate pad_num (u8 pad_num)

abbrev pub cut : Bytes → Option ℕ → Result Bytes
cut src none = panic
cut src (some n) = if ltb (length src) n then panic else ok (take (length src - n) src)

-- The last byte, which says how many to drop; there is none where src is empty.
abbrev pub last_byte : Bytes → Option ℕ
last_byte [] = none
last_byte (c ∷ []) = some c
last_byte (c ∷ d ∷ s) = last_byte (d ∷ s)

unfoldable pub unpadding : Bytes → Result Bytes
unpadding src = cut src (last_byte src)

unfoldable pub pad_key : Bytes → Bytes
pad_key key = if leb (length key) 16 then key ++ replicate (16 - length key) b' ' else take 16 key

module _ (crypto : Crypto) where
  -- `CryptBlocks` panics on a part of a block.
  abbrev pub crypt_blocks : (Bytes → Bytes → Bytes) → Bytes → Bytes → Result Bytes
  crypt_blocks crypt key src = if length src % block_size == 0 then ok (crypt key src) else panic

  unfoldable pub encrypt_aes : Bytes → Bytes → Result Bytes
  unfolding padding
  encrypt_aes src key =
      if crypto.is_key key
      then crypt_blocks crypto.encrypt_blocks key (padding src block_size)
      else error

  unfoldable pub decrypt_aes : Bytes → Bytes → Result Bytes
  unfolding unpadding
  decrypt_aes src key =
      if crypto.is_key key
      then and_then (crypt_blocks crypto.decrypt_blocks key src) unpadding
      else error

  unfoldable pub ae64_encode : Bytes → Bytes → Result Bytes
  unfolding encrypt_aes pad_key
  ae64_encode src key =
      and_then (encrypt_aes src (pad_key key)) (λ bytes. ok (crypto.encode_to_string bytes))

  decrypt_decoded : Bytes → Option Bytes → Result Bytes
  decrypt_decoded key none = error
  decrypt_decoded key (some decoded) = decrypt_aes decoded key

  unfoldable pub ae64_decode : Bytes → Bytes → Result Bytes
  unfolding decrypt_decoded pad_key
  ae64_decode str key = decrypt_decoded (pad_key key) (crypto.decode_string str)

-- What the two libraries promise: each direction undoes the other, on whole blocks, and keeps their
-- length; a key of sixteen bytes is taken.
pub record IsCrypto (crypto : Crypto) : Type 0 where
  pub takes : (key : Bytes) → length key ≡ 16 → crypto.is_key key ≡ true
  pub decrypts :
      (key src : Bytes)
      → length src % 16 ≡ 0
      → crypto.decrypt_blocks key (crypto.encrypt_blocks key src) ≡ src
  pub keeps_length : (key src : Bytes) → length (crypto.encrypt_blocks key src) ≡ length src
  pub decodes : (src : Bytes) → crypto.decode_string (crypto.encode_to_string src) ≡ some src

last_byte-replicate : (n c : ℕ) → last_byte (replicate (suc n) c) ≡ some c
last_byte-replicate zero c = refl
last_byte-replicate (suc n) c = last_byte-replicate n c

last_byte-append : (xs : Bytes) (n c : ℕ) → last_byte (xs ++ replicate (suc n) c) ≡ some c
last_byte-append [] n c = last_byte-replicate n c
last_byte-append (x ∷ []) n c = last_byte-replicate n c
last_byte-append (x ∷ y ∷ xs) n c = last_byte-append (y ∷ xs) n c

-- Behind k bytes of padding that each say k.
cut_padding :
    (src : Bytes) (k : ℕ) → 0 < k → k < 256 → unpadding (src ++ replicate k (u8 k)) ≡ ok src
unfolding unpadding
cut_padding src zero some_pad small = absurd (omega arith)
cut_padding src (suc k) some_pad small =
    let byte : u8 (suc k) ≡ suc k = omega arith in
    let long : length (src ++ replicate (suc k) (suc k)) ≡ length src + suc k =
      length-append src (replicate (suc k) (suc k))
      ∙ ap (λ (n : ℕ). length src + n) (length-replicate (suc k) (suc k)) in
    let fits : ltb (length src + suc k) (suc k) ≡ false = ground arith in
    let kept : length src + suc k - suc k ≡ length src = omega arith in
    rw (byte, last_byte-append src k (suc k), long, fits, kept)
      (ap ok (take-append src (replicate (suc k) (suc k))))

-- Padding to blocks of fewer than 256 bytes makes whole blocks, and is taken off again.
pub unpadding-padding :
    (src : Bytes) (size : ℕ)
    → 0 < size
    → size < 256
    → (unpadding (padding src size) ≡ ok src) × (length (padding src size) % size ≡ 0)
unfolding padding
unpadding-padding src size some_size small =
    let rest : length src % size < size = mod-lt (length src) some_size in
    let long : length (src ++ replicate (size - length src % size) (u8 (size - length src % size)))
        ≡ length src + (size - length src % size) =
      length-append src (replicate (size - length src % size) (u8 (size - length src % size)))
      ∙ ap (λ (n : ℕ). length src + n)
          (length-replicate (size - length src % size) (u8 (size - length src % size))) in
    let whole : length src % size + (size - length src % size) ≡ size = omega arith in
    (
      cut_padding src (size - length src % size) (omega arith) (omega arith),
      ap (λ (n : ℕ). n % size) long
          ∙ sym (mod-add-mod (length src) size (size - length src % size))
          ∙ ap (λ (n : ℕ). n % size) whole
          ∙ mod_self size,
    )

length-pad_key : (key : Bytes) → length (pad_key key) ≡ 16
unfolding pad_key
length-pad_key key = elim (Bool-cases (leb (length key) 16)) [
  | inl short ↦
      rw
        (
          short,
          length-append key (replicate (16 - length key) b' '),
          length-replicate {A = ℕ} (16 - length key) b' ',
        )
        (ground arith)
  | inr long ↦ rw (long, length-take 16 key) (ground arith)
]

-- What Ae64Encode made of any bytes with any key, Ae64Decode reads back with that key, of a cipher and a
-- base64 that undo themselves.
pub ae64_decode-ae64_encode :
    (crypto : Crypto) (src key : Bytes)
    → IsCrypto crypto
    → (str : Bytes) × (ae64_encode crypto src key ≡ ok str) × (ae64_decode crypto str key ≡ ok src)
unfolding ae64_encode ae64_decode encrypt_aes decrypt_aes decrypt_decoded
ae64_decode-ae64_encode crypto src key laws =
    let (undone, whole) = unpadding-padding src 16 (omega arith) (omega arith) in
    let taken = laws.takes (pad_key key) (length-pad_key key) in
    let blocks : (length (padding src 16) % 16 == 0) ≡ true = rw whole refl in
    let blocks' : (length (crypto.encrypt_blocks (pad_key key) (padding src 16)) % 16 == 0) ≡ true =
      rw (laws.keeps_length (pad_key key) (padding src 16)) blocks in
    (
      crypto.encode_to_string (crypto.encrypt_blocks (pad_key key) (padding src 16)),
      rw (taken, blocks) refl,
      rw
          (
            laws.decodes (crypto.encrypt_blocks (pad_key key) (padding src 16)),
            taken,
            blocks',
            laws.decrypts (pad_key key) (padding src 16) whole,
          )
          undone,
    )
