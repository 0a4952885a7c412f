-- ===== src/Stratum/Api/Reported.antt =====
-- What StatsIndex of stratum/api.go reports, and what it leaves of the state.
use xmrpool.Common.{
  ℕ, suc, ◌+◌, ◌*◌, ◌≡◌, Bool, Option, none, some, List, [], ◌∷◌, ◌==◌, if◌then◌else◌, length, take,
  All, get_elem?,
}
use xmrpool.Common.Ints.{ℤ}
use xmrpool.Common.Texts.{Bytes}
use xmrpool.Rpc.Client.{RpcClient}
use xmrpool.Stratum.MinersMap.{MinersMap, iter}
use xmrpool.Stratum.Types.{Miner, BlockTemplate, Env, World}
use xmrpool.Stratum.Api.Miners.{ButShares}
use xmrpool.Stratum.Api.Windows.{within, IsLuck}
use xmrpool.Stratum.Api.Rows.{Rows}
use xmrpool.Stratum.Api.{Settings, MinerRow, UpstreamRow, Stats, TemplateRow}

abbrev pub count_rows : (MinerRow → Bool) → List MinerRow → ℕ
count_rows f [] = 0
count_rows f (r ∷ rows) = let rest = count_rows f rows in if f r then suc rest else rest

-- What is shown of an upstream, and of the i-th one where the `current` one is in use.
abbrev pub shown : RpcClient → UpstreamRow
shown u = record {
  name = u.name;
  sick = u.sick;
  accepts = u.accepts;
  rejects = u.rejects;
  last_submission_at = u.last_submission_at;
  fails_count = u.fails_count;
}

abbrev pub marked : ℕ → ℕ → Option RpcClient → Option (UpstreamRow × Bool)
marked current i none = none
marked current i (some u) = some (shown u, current == i)

-- What is shown of the template.
abbrev pub shown_template : ℤ → Option BlockTemplate → Option TemplateRow
shown_template shares none = none
shown_template shares (some t) = some record {
  height = t.height;
  diff = t.diff_int64;
  variance = (shares, t.diff_int64);
  prev_hash = take 8 t.prev_hash;
}

module _ (env : Env) (settings : Settings) where
  -- What the miners' loop reports, and what it leaves alone.
  record Visited (now : ℤ) (xs : List (Bytes × Miner)) (w : World) (r : (List MinerRow × ℕ) × World)
      : Type 0 where
    miners : MinersMap Miner
    ticks : ℕ
    clock : ticks ≡ w.ticks + 2 * length xs
    state : r.1 ≡ record w { ticks = ticks; miners = miners }
    online : r.0.1 + count_rows (λ row. row.timed_out) r.0.0 ≡ length r.0.0
    all_rows : length r.0.0 ≡ length xs

  -- What a request for the statistics reports, and the state after it. The clock is read once, twice for
  -- each miner, and three times more.
  pub record Reported (w : World) (client : RpcClient) (stats : Stats) (w' : World) : Type 0 where
    pub ticks : ℕ
    pub clock : ticks ≡ w.ticks + 1 + 2 * length (iter w.miners)
    pub now : stats.now ≡ env.make_timestamp ticks
    pub rows :
        Rows env settings (env.make_timestamp w.ticks) (w.ticks + 1) (iter w.miners) stats.miners
    pub total : stats.total_miners ≡ length (iter w.miners)
    pub late : stats.timed_out ≡ count_rows (λ row. row.timed_out) stats.miners
    pub online : stats.total_online + stats.timed_out ≡ stats.total_miners
    pub upstreams :
        (i : ℕ)
        → get_elem? stats.upstreams i
          ≡ marked w.upstreams.upstream i (get_elem? w.upstreams.upstreams i)
    pub current : stats.current ≡ shown client
    pub template : stats.template ≡ shown_template w.round_shares w.block_template
    pub luck :
        IsLuck
          (within (env.make_timestamp (ticks + 1)) settings.luck_window w.block_stats)
          (within (env.make_timestamp (ticks + 1)) settings.luck_large_window w.block_stats)
          stats.luck
    pub blocks :
        stats.blocks
        ≡ within
            (env.make_timestamp (ticks + 1 + 1))
            settings.luck_large_window
            (within (env.make_timestamp (ticks + 1)) settings.luck_large_window w.block_stats)
    pub miners_after : MinersMap Miner
    pub miners_kept : All (ButShares (iter w.miners)) (iter miners_after)
    pub state :
        w'
        ≡ record w { miners = miners_after; ticks = ticks + 1 + 1 + 1; block_stats = stats.blocks }
