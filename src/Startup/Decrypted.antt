-- ===== src/Startup/Decrypted.antt =====
-- Which configurations main.go starts with.
use xmrpool.Common.{
  ◌≡◌, refl, sym, ap, ◌∙◌, Bool, true, false, not, some, if◌then◌else◌, Bool-cases, inl, inr,
}
use xmrpool.Common.Texts.{Bytes}
use xmrpool.Util.Ae64.{Crypto, IsCrypto, ok, ae64_encode, ae64_decode, ae64_decode-ae64_encode}
use xmrpool.Startup.{
  PoolConfig, fine, fails, decrypt_address, check_address, decrypt_redis, decrypt_failover,
  decrypt_pool_configure, redis_client, failover_client, choose_backend, exits, after_decrypt,
  started, start_up,
}

-- A configuration whose address, and whose passwords where they are used, were encoded.
pub record IsEncoded (crypto : Crypto) (pass address redis_password failover_password : Bytes)
    (cfg : PoolConfig) : Type 0 where
  pub for_address : ae64_encode crypto address pass ≡ ok cfg.address_encrypted
  pub for_redis :
      cfg.redis.enabled ≡ true
      → ae64_encode crypto redis_password pass ≡ ok cfg.redis.password_encrypted
  pub for_failover :
      cfg.redis_failover.enabled ≡ true
      → ae64_encode crypto failover_password pass ≡ ok cfg.redis_failover.password_encrypted

-- The configuration with all of them in the clear.
abbrev pub in_the_clear : Bytes → Bytes → Bytes → PoolConfig → PoolConfig
in_the_clear address redis_password failover_password cfg = record cfg {
  address = address;
  redis = if cfg.redis.enabled then record (cfg.redis) { password = redis_password } else cfg.redis;
  redis_failover =
      if cfg.redis_failover.enabled
      then record (cfg.redis_failover) { password = failover_password }
      else cfg.redis_failover;
}

unok : {a b : Bytes} → ok a ≡ ok b → a ≡ b
unok e = cc e

module _ (crypto : Crypto) (laws : IsCrypto crypto) (pass : Bytes) where
  decoded :
      (src str : Bytes)
      → ae64_encode crypto src pass ≡ ok str
      → ae64_decode crypto str pass ≡ ok src
  decoded src str e =
      let (str', encoded, back) = ae64_decode-ae64_encode crypto src pass laws in
      ap (λ (s : Bytes). ae64_decode crypto s pass) (unok (sym e ∙ encoded)) ∙ back

  module _ (validate_address : Bytes → Bool) where
    decrypt_redis-clear :
        (password : Bytes) (c : PoolConfig)
        → (c.redis.enabled ≡ true
            → ae64_encode crypto password pass ≡ ok c.redis.password_encrypted)
        → decrypt_redis crypto validate_address pass c ≡ (
          fine,
          record c {
            redis = if c.redis.enabled then record (c.redis) { password = password } else c.redis;
          },
        )
    unfolding decrypt_redis
    decrypt_redis-clear password c h = elim (Bool-cases c.redis.enabled) [
      | inl on ↦ simp (on, decoded password c.redis.password_encrypted (h on)) refl
      | inr off ↦ simp off refl
    ]

    decrypt_failover-clear :
        (password : Bytes) (c : PoolConfig)
        → (c.redis_failover.enabled ≡ true
            → ae64_encode crypto password pass ≡ ok c.redis_failover.password_encrypted)
        → decrypt_failover crypto validate_address pass c ≡ (
          fine,
          record c {
            redis_failover =
                if c.redis_failover.enabled
                then record (c.redis_failover) { password = password }
                else c.redis_failover;
          },
        )
    unfolding decrypt_failover
    decrypt_failover-clear password c h = elim (Bool-cases c.redis_failover.enabled) [
      | inl on ↦ simp (on, decoded password c.redis_failover.password_encrypted (h on)) refl
      | inr off ↦ simp off refl
    ]

    check_address-valid :
        (c : PoolConfig)
        → validate_address c.address ≡ true
        → check_address crypto validate_address pass c ≡ (fine, c)
    unfolding check_address
    check_address-valid c valid = rw valid refl

    check_address-invalid :
        (c : PoolConfig)
        → validate_address c.address ≡ false
        → check_address crypto validate_address pass c ≡ (fails, c)
    unfolding check_address
    check_address-invalid c invalid = rw invalid refl

    module _ (address redis_password failover_password : Bytes) (cfg : PoolConfig)
        (enc : IsEncoded crypto pass address redis_password failover_password cfg) where
      decrypt_address-clear :
          decrypt_address crypto validate_address pass cfg
          ≡ (fine, record cfg { address = address })
      unfolding decrypt_address
      decrypt_address-clear = rw (decoded address cfg.address_encrypted enc.for_address) refl

      decrypt_pool_configure-valid :
          validate_address address ≡ true
          → decrypt_pool_configure crypto validate_address pass cfg
            ≡ (fine, in_the_clear address redis_password failover_password cfg)
      unfolding decrypt_pool_configure
      decrypt_pool_configure-valid valid =
          rw
            (
              decrypt_address-clear,
              check_address-valid (record cfg { address = address }) valid,
              decrypt_redis-clear redis_password (record cfg { address = address }) enc.for_redis,
            )
            (decrypt_failover-clear failover_password _ enc.for_failover)

      decrypt_pool_configure-invalid :
          validate_address address ≡ false
          → decrypt_pool_configure crypto validate_address pass cfg
            ≡ (fails, record cfg { address = address })
      unfolding decrypt_pool_configure
      decrypt_pool_configure-invalid invalid =
          rw
            (
              decrypt_address-clear,
              check_address-invalid (record cfg { address = address }) invalid,
            )
            refl

      chosen : after_decrypt (fine, in_the_clear address redis_password failover_password cfg) ≡ (
          let clear = in_the_clear address redis_password failover_password cfg in
          if cfg.redis.enabled
          then started clear
              (redis_client (record (cfg.redis) { password = redis_password }) cfg.coin)
          else if cfg.redis_failover.enabled
          then started clear (
              failover_client
                (record (cfg.redis_failover) { password = failover_password })
                cfg.coin)
          else exits)
      unfolding choose_backend
      chosen = elim (Bool-cases cfg.redis.enabled) [
        | inl on ↦ simp on refl
        | inr off ↦ elim (Bool-cases cfg.redis_failover.enabled) [
          | inl on ↦ simp (off, on) refl
          | inr off' ↦ simp (off, off') refl
        ]
      ]

      -- Under a cipher and a base64 that undo themselves: the configuration's address, and the passwords
      -- of the backends it enables, were encoded with the password that is typed in. If the address is
      -- not valid, main exits. If it is, and a backend is enabled, main goes on with all of these in the
      -- clear and the rest as it was read, and with a client for the first of the two backends that is
      -- enabled; if none is, it exits.
      pub start_up-IsEncoded : start_up crypto validate_address (some pass) cfg ≡ (
          let clear = in_the_clear address redis_password failover_password cfg in
          if not (validate_address address)
          then exits
          else if cfg.redis.enabled
          then started clear
              (redis_client (record (cfg.redis) { password = redis_password }) cfg.coin)
          else if cfg.redis_failover.enabled
          then started clear (
              failover_client
                (record (cfg.redis_failover) { password = failover_password })
                cfg.coin)
          else exits)
      unfolding start_up
      start_up-IsEncoded = elim (Bool-cases (validate_address address)) [
        | inl valid ↦ rw valid (ap after_decrypt (decrypt_pool_configure-valid valid) ∙ chosen)
        | inr invalid ↦ rw invalid (ap after_decrypt (decrypt_pool_configure-invalid invalid))
      ]
