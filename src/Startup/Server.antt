-- ===== src/Startup/Server.antt =====
-- stratum/stratum.go: `NewStratum` up to its timers, on the configuration of pool/pool.go, and
-- `purgeStale`, which one of the timers calls.
use xmrpool.Common.{ℕ, Bool, if◌then◌else◌, Option, none, some, List, [], ◌∷◌}
use xmrpool.Common.Ints.{ℤ, pos, quot_ℤ}
use xmrpool.Common.Texts.{Bytes}
use xmrpool.Rpc.Client.{RpcClient, new_client}
use xmrpool.Stratum.Upstreams.{rpc}
use xmrpool.Stratum.MinersMap.{new_miners_map}
use xmrpool.Stratum.Types.{World}
use xmrpool.Storage.Redis.{Redis}
use xmrpool.Storage.Stale.{Flushed, flush_stale_stats}
use xmrpool.Startup.{Upstream, PoolConfig}

-- In nanoseconds, but for the windows of the luck, which are in milliseconds.
pub record Timing : Type 0 where
  pub timeout : ℤ
  pub estimation_window : ℤ
  pub hashrate_expiration : ℤ
  pub hashrate_window : ℤ
  pub hashrate_large_window : ℤ
  pub luck_window : ℤ
  pub luck_large_window : ℤ
  pub refresh_intv : ℤ
  pub purge_intv : ℤ
  pub check_intv : ℤ

-- `parse` is time.ParseDuration, whose error is dropped, with a duration of 0.
unfoldable pub duration_of : (Bytes → Option ℤ) → Bytes → ℤ
duration_of parse s = elim (parse s) [ none ↦ pos 0 | some d ↦ d ]

-- `none` is the panic.
unfoldable pub must_parse_duration : (Bytes → Option ℤ) → Bytes → Option ℤ
must_parse_duration parse s = parse s

-- The panic is that of the purge interval.
unfoldable pub timing_of : (Bytes → Option ℤ) → PoolConfig → Option Timing
unfolding duration_of must_parse_duration
timing_of parse cfg = elim (must_parse_duration parse cfg.purge_interval) [
  | none ↦ none
  | some purge_intv ↦ some record {
    timeout = duration_of parse cfg.stratum.timeout;
    estimation_window = duration_of parse cfg.estimation_window;
    hashrate_expiration = duration_of parse cfg.hash_rate_expiration;
    hashrate_window = duration_of parse cfg.hashrate_window;
    hashrate_large_window = duration_of parse cfg.hashrate_large_window;
    luck_window = quot_ℤ (duration_of parse cfg.luck_window) 1000000;
    luck_large_window = quot_ℤ (duration_of parse cfg.large_luck_window) 1000000;
    refresh_intv = duration_of parse cfg.block_refresh_interval;
    purge_intv = purge_intv;
    check_intv = duration_of parse cfg.upstream_check_interval;
  }
]

-- NewRPCClient for each upstream. `is_url` says whether url.Parse takes the URL of a host and a port;
-- `none` is the exit where it does not.
unfoldable pub make_clients : (Bytes → ℤ → Bool) → List Upstream → Option (List RpcClient)
make_clients is_url [] = some []
make_clients is_url (v ∷ vs) =
    let rest = make_clients is_url vs in
    if is_url v.host v.port
    then elim rest [ none ↦ none | some clients ↦ some (new_client v.name ∷ clients) ]
    else none

unfoldable pub new_world : List RpcClient → World
new_world clients = record {
  miners = new_miners_map;
  block_template = none;
  round_shares = pos 0;
  block_stats = [];
  upstreams = record { upstream = 0; upstreams = clients; upstreams_states = [] };
  sessions = [];
  session_of = [];
  endpoint_of = [];
  ticks = 0;
  calls = [];
}

pub data NewStratum : Type 0 where
  exits : NewStratum
  crashes : NewStratum
  made : World → Timing → NewStratum

abbrev pub with_timing : World → Option RpcClient → Option Timing → NewStratum
with_timing w (some client) (some timing) = made w timing
with_timing w _ _ = crashes

-- Without an upstream, `rpc()` is an index out of range.
unfoldable pub new_stratum : (Bytes → ℤ → Bool) → (Bytes → Option ℤ) → PoolConfig → NewStratum
unfolding timing_of make_clients new_world
new_stratum is_url parse cfg = elim (make_clients is_url cfg.upstream) [
  | none ↦ exits
  | some clients ↦
      with_timing (new_world clients) (rpc (new_world clients).upstreams) (timing_of parse cfg)
]

-- What the backend answers is only logged. `fuel` is that of FlushStaleStats.
unfoldable pub purge_stale :
    (redis : Redis) → Bytes → Timing → ℤ → ℕ → redis.Db → Option Flushed × redis.Db
purge_stale redis prefix timing now fuel =
    flush_stale_stats redis prefix now timing.hashrate_window timing.hashrate_large_window fuel
