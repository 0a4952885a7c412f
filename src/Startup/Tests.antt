-- ===== src/Startup/Tests.antt =====
-- A start with a password, under a cipher that does nothing.
use xmrpool.Common.{
  ◌-◌, ◌++◌, length, replicate, ◌≡◌, refl, Bool, true, false, not, Option, some, [], ◌∷◌,
  if◌then◌else◌,
}
use xmrpool.Common.Ints.{ℤ, pos}
use xmrpool.Common.Texts.{Bytes, codes}
use xmrpool.Util.Ae64.{Crypto, IsCrypto, ok, ae64_encode}
use xmrpool.Rpc.Client.{new_client}
use xmrpool.Startup.{
  PoolConfig, exits, started, redis_client, failover_client, start_up, start_stratum, set_procs,
  listen,
}
use xmrpool.Startup.Decrypted.{IsEncoded, in_the_clear, start_up-IsEncoded}
use xmrpool.Startup.Server.{made, new_world, new_stratum}

abbrev plain : Crypto
plain = record {
  is_key = λ key. true;
  encrypt_blocks = λ key src. src;
  decrypt_blocks = λ key src. src;
  encode_to_string = λ src. src;
  decode_string = λ src. some src;
}

plain-IsCrypto : IsCrypto plain
plain-IsCrypto = record {
  takes = λ key h. refl;
  decrypts = λ key src h. refl;
  keeps_length = λ key src. refl;
  decodes = λ src. refl;
}

abbrev padded : Bytes → Bytes
padded s = s ++ replicate (16 - length s) (16 - length s)

abbrev cfg : PoolConfig
cfg = record {
  address_encrypted = padded (codes "4A");
  address = [];
  bypass_address_validation = false;
  bypass_share_validation = false;
  log_set_level = pos 10;
  stratum = record { enabled = true; timeout = codes "1m"; ports = [] };
  stratum_tls = record { enabled = false; timeout = []; ports = []; tls_cert = []; tls_key = [] };
  block_refresh_interval = codes "1s";
  upstream_check_interval = codes "5s";
  upstream =
      record { name = codes "a"; host = codes "h"; port = pos 80; timeout = codes "1s" } ∷ [];
  estimation_window = codes "15m";
  luck_window = codes "24h";
  large_luck_window = codes "72h";
  hash_rate_expiration = codes "3h";
  purge_interval = codes "10m";
  hashrate_window = codes "15m";
  hashrate_large_window = codes "3h";
  threads = pos 4;
  frontend = record { enabled = false; listen = []; login = []; password = []; hide_ip = false };
  coin = codes "xmr";
  redis = record {
    enabled = true;
    endpoint = [];
    password_encrypted = padded (codes "pw");
    password = [];
    database = pos 0;
    pool_size = pos 10;
  };
  redis_failover = record {
    enabled = false;
    master_name = [];
    sentinel_endpoints = [];
    password_encrypted = [];
    password = [];
    database = pos 0;
    pool_size = pos 10;
  };
  unlocker_enabled = true;
}

cfg-IsEncoded : IsEncoded plain (codes "key") (codes "4A") (codes "pw") [] cfg
unfolding ae64_encode xmrpool.Util.Ae64.encrypt_aes xmrpool.Util.Ae64.padding
    xmrpool.Util.Ae64.pad_key
cfg-IsEncoded = record { for_address = refl; for_redis = λ on. refl; for_failover = λ on. cc }

abbrev is_address : Bytes → Bool
is_address s = true

start_up-IsEncoded_example : start_up plain is_address (some (codes "key")) cfg ≡ (
    let clear = in_the_clear (codes "4A") (codes "pw") [] cfg in
    if not (is_address (codes "4A"))
    then exits
    else if cfg.redis.enabled
    then started clear (redis_client (record (cfg.redis) { password = codes "pw" }) cfg.coin)
    else if cfg.redis_failover.enabled
    then started clear (failover_client (record (cfg.redis_failover) { password = [] }) cfg.coin)
    else exits)
start_up-IsEncoded_example =
    start_up-IsEncoded plain plain-IsCrypto (codes "key") is_address (codes "4A") (codes "pw") []
      cfg cfg-IsEncoded

listens_only : start_stratum (pos 8) cfg ≡ set_procs (pos 4) ∷ listen ∷ []
unfolding start_stratum
listens_only = refl

abbrev any_url : Bytes → ℤ → Bool
any_url host port = true

abbrev some_time : Bytes → Option ℤ
some_time s = some (pos 60000000000)

starts_empty :
    new_stratum any_url some_time cfg
    ≡ made (new_world (new_client (codes "a") ∷ [])) (record {
      timeout = pos 60000000000;
      estimation_window = pos 60000000000;
      hashrate_expiration = pos 60000000000;
      hashrate_window = pos 60000000000;
      hashrate_large_window = pos 60000000000;
      luck_window = pos 60000;
      luck_large_window = pos 60000;
      refresh_intv = pos 60000000000;
      purge_intv = pos 60000000000;
      check_intv = pos 60000000000;
    })
unfolding new_stratum new_client xmrpool.Stratum.Upstreams.rpc
starts_empty = refl
