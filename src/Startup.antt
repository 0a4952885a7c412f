-- ===== src/Startup.antt =====
-- pool/pool.go and main.go: the configuration, its passwords, and the choice of the backend.
pub mod Decrypted
pub mod Server
mod Tests
use xmrpool.Common.{
  ℕ, ◌++◌, Bool, true, false, not, Option, none, some, List, [], ◌∷◌, if◌then◌else◌,
}
use xmrpool.Common.Ints.{ℤ, pos, ltb_ℤ}
use xmrpool.Common.Texts.{Bytes}
use xmrpool.Util.Ae64.{Crypto, Result, ok, error, panic, ae64_decode}

pub record StorageConfig : Type 0 where
  pub enabled : Bool
  pub endpoint : Bytes
  pub password_encrypted : Bytes
  pub password : Bytes
  pub database : ℤ
  pub pool_size : ℤ

pub record StorageConfigFailover : Type 0 where
  pub enabled : Bool
  pub master_name : Bytes
  pub sentinel_endpoints : List Bytes
  pub password_encrypted : Bytes
  pub password : Bytes
  pub database : ℤ
  pub pool_size : ℤ

pub record PortConfig : Type 0 where
  pub difficulty : ℤ
  pub host : Bytes
  pub port : ℤ
  pub max_conn : ℤ

pub record StratumConfig : Type 0 where
  pub enabled : Bool
  pub timeout : Bytes
  pub ports : List PortConfig

pub record StratumTls : Type 0 where
  pub enabled : Bool
  pub timeout : Bytes
  pub ports : List PortConfig
  pub tls_cert : Bytes
  pub tls_key : Bytes

pub record Upstream : Type 0 where
  pub name : Bytes
  pub host : Bytes
  pub port : ℤ
  pub timeout : Bytes

pub record Frontend : Type 0 where
  pub enabled : Bool
  pub listen : Bytes
  pub login : Bytes
  pub password : Bytes
  pub hide_ip : Bool

-- The log level is the one field of Log; of UnlockerConfig the unlocker's own model has what it reads.
pub record PoolConfig : Type 0 where
  pub address_encrypted : Bytes
  pub address : Bytes
  pub bypass_address_validation : Bool
  pub bypass_share_validation : Bool
  pub log_set_level : ℤ
  pub stratum : StratumConfig
  pub stratum_tls : StratumTls
  pub block_refresh_interval : Bytes
  pub upstream_check_interval : Bytes
  pub upstream : List Upstream
  pub estimation_window : Bytes
  pub luck_window : Bytes
  pub large_luck_window : Bytes
  pub hash_rate_expiration : Bytes
  pub purge_interval : Bytes
  pub hashrate_window : Bytes
  pub hashrate_large_window : Bytes
  pub threads : ℤ
  pub frontend : Frontend
  pub coin : Bytes
  pub redis : StorageConfig
  pub redis_failover : StorageConfigFailover
  pub unlocker_enabled : Bool

-- What a step of the start-up comes to, beside the configuration that it has written to.
pub data Step : Type 0 where
  fine : Step
  fails : Step
  panics : Step

abbrev pub and_step : Step × PoolConfig → (PoolConfig → Step × PoolConfig) → Step × PoolConfig
and_step (fine, cfg) f = f cfg
and_step (fails, cfg) f = (fails, cfg)
and_step (panics, cfg) f = (panics, cfg)

-- A decoded field is stored; an error leaves the configuration as it was.
abbrev pub store_decoded : Result Bytes → (Bytes → PoolConfig) → PoolConfig → Step × PoolConfig
store_decoded (ok b) put cfg = (fine, put b)
store_decoded error put cfg = (fails, cfg)
store_decoded panic put cfg = (panics, cfg)

module _ (crypto : Crypto) (validate_address : Bytes → Bool) (pass : Bytes) where
  unfoldable pub decrypt_address : PoolConfig → Step × PoolConfig
  decrypt_address cfg =
      store_decoded (ae64_decode crypto cfg.address_encrypted pass)
        (λ b. record cfg { address = b }) cfg

  unfoldable pub check_address : PoolConfig → Step × PoolConfig
  check_address cfg = if not (validate_address cfg.address) then (fails, cfg) else (fine, cfg)

  unfoldable pub decrypt_redis : PoolConfig → Step × PoolConfig
  decrypt_redis cfg =
      if cfg.redis.enabled
      then store_decoded (ae64_decode crypto cfg.redis.password_encrypted pass)
          (λ b. record cfg { redis = record (cfg.redis) { password = b } }) cfg
      else (fine, cfg)

  unfoldable pub decrypt_failover : PoolConfig → Step × PoolConfig
  decrypt_failover cfg =
      if cfg.redis_failover.enabled
      then store_decoded (ae64_decode crypto cfg.redis_failover.password_encrypted pass)
          (λ b. record cfg { redis_failover = record (cfg.redis_failover) { password = b } }) cfg
      else (fine, cfg)

  unfoldable pub decrypt_pool_configure : PoolConfig → Step × PoolConfig
  unfolding decrypt_address check_address decrypt_redis decrypt_failover
  decrypt_pool_configure cfg =
      and_step (and_step (and_step (decrypt_address cfg) check_address) decrypt_redis)
        decrypt_failover

-- The client that main makes, with the coin as the prefix of its keys.
pub data Backend : Type 0 where
  redis_client : StorageConfig → Bytes → Backend
  failover_client : StorageConfigFailover → Bytes → Backend

unfoldable pub choose_backend : PoolConfig → Option Backend
choose_backend cfg =
    if cfg.redis.enabled
    then some (redis_client cfg.redis cfg.coin)
    else if cfg.redis_failover.enabled
    then some (failover_client cfg.redis_failover cfg.coin)
    else none

-- How far main gets: it exits, panics, or goes on with a backend. A password that cannot be read is
-- `none`.
pub data Started : Type 0 where
  exits : Started
  crashes : Started
  started : PoolConfig → Backend → Started

abbrev pub with_backend : PoolConfig → Option Backend → Started
with_backend cfg none = exits
with_backend cfg (some b) = started cfg b

abbrev pub after_decrypt : Step × PoolConfig → Started
after_decrypt (fails, cfg) = exits
after_decrypt (panics, cfg) = crashes
after_decrypt (fine, cfg) = with_backend cfg (choose_backend cfg)

unfoldable pub start_up : Crypto → (Bytes → Bool) → Option Bytes → PoolConfig → Started
unfolding decrypt_pool_configure choose_backend
start_up crypto validate_address none cfg = exits
start_up crypto validate_address (some pass) cfg =
    after_decrypt (decrypt_pool_configure crypto validate_address pass cfg)

-- What startStratum sets going, in order.
pub data Action : Type 0 where
  set_procs : ℤ → Action
  front_end : Action
  listen_tls : Action
  listen : Action

unfoldable pub start_stratum : ℤ → PoolConfig → List Action
start_stratum num_cpu cfg =
    set_procs (if ltb_ℤ (pos 0) cfg.threads then cfg.threads else num_cpu)
    ∷ ((if cfg.frontend.enabled then front_end ∷ [] else [])
        ++ (if cfg.stratum_tls.enabled then listen_tls ∷ [] else [])
        ++ (if cfg.stratum.enabled then listen ∷ [] else []))
