-- ===== src/Stratum/Api.antt =====
-- stratum/api.go: `StatsIndex` and what it collects. A ratio is a float64 quotient; its operands are kept,
-- and a sum of quotients as the list of them.
pub mod Miners
pub mod Rows
pub mod Windows
pub mod Reported
use xmrpool.Common.{
  ℕ, suc, ◌+◌, ◌-◌, Bool, true, false, Option, none, some, List, [], ◌∷◌, ◌++◌, ltb, ◌==◌,
  if◌then◌else◌, length, take,
}
use xmrpool.Common.Ints.{ℤ, pos, ◌-ℤ◌, ltb_ℤ, leb_ℤ, quot_ℤ}
use xmrpool.Common.Words.{wrap64}
use xmrpool.Common.Texts.{Bytes}
use xmrpool.Common.Assoc.{Assoc}
use xmrpool.Rpc.Client.{RpcClient}
use xmrpool.Stratum.Upstreams.{Upstreams, rpc}
use xmrpool.Stratum.MinersMap.{set, iter}
use xmrpool.Stratum.Types.{Miner, BlockTemplate, BlockEntry, Env, World, Run, returned, crashed}
use xmrpool.Stratum.Share.Hashrate.{hashrate, get_last_beat}

-- What the statistics read of the server's settings, in nanoseconds; the windows of the luck are in
-- milliseconds.
pub record Settings : Type 0 where
  pub timeout : ℤ
  pub estimation_window : ℤ
  pub luck_window : ℤ
  pub luck_large_window : ℤ
  pub hide_ip : Bool

pub record MinerRow : Type 0 where
  pub name : Bytes
  pub hashrate : ℤ × ℤ
  pub hashrate24h : ℤ × ℤ
  pub last_beat : ℤ
  pub valid_shares : ℤ
  pub stale_shares : ℤ
  pub invalid_shares : ℤ
  pub accepts : ℤ
  pub rejects : ℤ
  pub ip : Option Bytes
  pub warning : Bool
  pub timed_out : Bool

-- The sums of the luck: the ratios within each of the windows.
pub record Luck : Type 0 where
  pub ratios : List (ℤ × ℤ)
  pub blocks_count : ℕ
  pub total_ratios : List (ℤ × ℤ)
  pub total_blocks_count : ℕ

abbrev pub is_within : ℤ → ℤ → ℤ → Bool
is_within now window k = leb_ℤ (wrap64 (now -ℤ window)) k

-- `now-lastBeat > int64(d) / 1000000`
abbrev pub is_late : ℤ → ℤ → ℤ → Bool
is_late now last_beat d = ltb_ℤ (quot_ℤ d 1000000) (wrap64 (now -ℤ last_beat))

module _ (env : Env) (settings : Settings) where
  abbrev pub now_of : World → ℤ
  now_of w = env.make_timestamp w.ticks

  abbrev pub seconds_at : ℕ → ℤ
  seconds_at n = quot_ℤ (env.make_timestamp n) 1000

  -- One miner of the loop of collectMinersStats: each rate asks for the time, and forgets old shares.
  unfoldable pub visit_miner : ℤ → Bytes × Miner → World → MinerRow × World
  visit_miner now (key, m) w =
      let (rate, m1) =
        hashrate (seconds_at w.ticks) (quot_ℤ settings.estimation_window 1000000000) m in
      let (rate24h, m2) = hashrate (seconds_at (w.ticks + 1)) (pos 86400) m1 in
      (
        record {
          name = key;
          hashrate = rate;
          hashrate24h = rate24h;
          last_beat = get_last_beat m;
          valid_shares = m.valid_shares;
          stale_shares = m.stale_shares;
          invalid_shares = m.invalid_shares;
          accepts = m.accepts;
          rejects = m.rejects;
          ip = if settings.hide_ip then none else some m.ip;
          warning = is_late now (get_last_beat m) (quot_ℤ settings.timeout 2);
          timed_out = is_late now (get_last_beat m) settings.timeout;
        },
        record w { ticks = w.ticks + 2; miners = set key m2 w.miners },
      )

  -- The rows, how many miners are online, and the state afterwards.
  unfoldable pub visit_miners : ℤ → List (Bytes × Miner) → World → (List MinerRow × ℕ) × World
  unfolding visit_miner
  visit_miners now [] w = (([], 0), w)
  visit_miners now (x ∷ xs) w =
      let (row, w1) = visit_miner now x w in
      let (rest, w2) = visit_miners now xs w1 in
      ((row ∷ rest.0, if row.timed_out then rest.1 else suc rest.1), w2)

  unfoldable pub collect_miners_stats : World → (List MinerRow × ℕ) × World
  unfolding visit_miners
  collect_miners_stats w =
      visit_miners (now_of w) (iter w.miners) (record w { ticks = w.ticks + 1 })

  abbrev pub ratio_of : BlockEntry → ℤ × ℤ
  ratio_of b = (b.round_shares, b.diff_int64)

  abbrev pub count_small : ℤ → ℤ → BlockEntry → Luck → Luck
  count_small now k v luck =
      if is_within now settings.luck_window k
      then record luck { ratios = ratio_of v ∷ luck.ratios; blocks_count = suc luck.blocks_count }
      else luck

  -- The loop of getLuckStats, which deletes what is out of the larger window.
  unfoldable pub visit_luck : ℤ → Assoc ℤ BlockEntry → Luck × Assoc ℤ BlockEntry
  visit_luck now [] =
      (record { ratios = []; blocks_count = 0; total_ratios = []; total_blocks_count = 0 }, [])
  visit_luck now ((k, v) ∷ rest) =
      let (luck, kept) = visit_luck now rest in
      let small = count_small now k v luck in
      if is_within now settings.luck_large_window k
      then (
        record small {
          total_ratios = ratio_of v ∷ small.total_ratios;
          total_blocks_count = suc small.total_blocks_count;
        },
        (k, v) ∷ kept,
      )
      else (small, kept)

  unfoldable pub get_luck_stats : World → Luck × World
  unfolding visit_luck
  get_luck_stats w =
      let (luck, kept) = visit_luck (now_of w) w.block_stats in
      (luck, record w { ticks = w.ticks + 1; block_stats = kept })

  -- The blocks within the larger window, with their times; the others are deleted.
  unfoldable pub recent_blocks : ℤ → Assoc ℤ BlockEntry → Assoc ℤ BlockEntry
  recent_blocks now [] = []
  recent_blocks now ((k, v) ∷ rest) =
      let kept = recent_blocks now rest in
      if is_within now settings.luck_large_window k then (k, v) ∷ kept else kept

  unfoldable pub get_blocks_stats : World → Assoc ℤ BlockEntry × World
  unfolding recent_blocks
  get_blocks_stats w =
      let kept = recent_blocks (now_of w) w.block_stats in
      (kept, record w { ticks = w.ticks + 1; block_stats = kept })

pub record UpstreamRow : Type 0 where
  pub name : Bytes
  pub sick : Bool
  pub accepts : ℤ
  pub rejects : ℤ
  pub last_submission_at : ℤ
  pub fails_count : ℤ

unfoldable pub convert_upstream : RpcClient → UpstreamRow
convert_upstream u = record {
  name = u.name;
  sick = u.sick;
  accepts = u.accepts;
  rejects = u.rejects;
  last_submission_at = u.last_submission_at;
  fails_count = u.fails_count;
}

-- The rows of all upstreams, from index `i` on, with the mark of the one in use.
unfoldable pub upstream_rows : ℕ → ℕ → List RpcClient → List (UpstreamRow × Bool)
unfolding convert_upstream
upstream_rows current i [] = []
upstream_rows current i (u ∷ us) =
    (convert_upstream u, current == i) ∷ upstream_rows current (suc i) us

pub record TemplateRow : Type 0 where
  pub height : ℤ
  pub diff : ℤ
  pub variance : ℤ × ℤ
  pub prev_hash : Bytes

-- `prevHash[0:8]` panics on a shorter string.
unfoldable pub template_row : ℤ → BlockTemplate → Option TemplateRow
template_row round_shares t =
    if ltb (length t.prev_hash) 8
    then none
    else some (record {
      height = t.height;
      diff = t.diff_int64;
      variance = (round_shares, t.diff_int64);
      prev_hash = take 8 t.prev_hash;
    })

pub record Stats : Type 0 where
  pub now : ℤ
  pub miners : List MinerRow
  pub total_miners : ℕ
  pub total_online : ℕ
  pub timed_out : ℕ
  pub upstreams : List (UpstreamRow × Bool)
  pub current : UpstreamRow
  pub luck : Luck
  pub blocks : Assoc ℤ BlockEntry
  pub template : Option TemplateRow

-- The row of the template, if there is one; `none` is the panic.
abbrev pub template_part : ℤ → Option BlockTemplate → Option (Option TemplateRow)
template_part round_shares none = some none
template_part round_shares (some t) = elim (template_row round_shares t) [
  | none ↦ none
  | some row ↦ some (some row)
]

unfoldable pub make_stats :
    ℤ
    → List MinerRow
    → ℕ
    → Upstreams
    → Luck
    → Assoc ℤ BlockEntry
    → RpcClient
    → Option TemplateRow
    → Stats
unfolding upstream_rows convert_upstream
make_stats now rows online upstreams luck blocks client row = record {
  now = now;
  miners = rows;
  total_miners = length rows;
  total_online = online;
  timed_out = length rows - online;
  upstreams = upstream_rows upstreams.upstream 0 upstreams.upstreams;
  current = convert_upstream client;
  luck = luck;
  blocks = blocks;
  template = row;
}

-- An upstream in use that is out of range, or a hash that is too short, is a panic.
abbrev pub finish_stats :
    Option RpcClient
    → Option (Option TemplateRow)
    → (RpcClient → Option TemplateRow → Stats)
    → World
    → Run Stats
finish_stats (some client) (some row) make w = returned (make client row) w
finish_stats _ _ make w = crashed

module _ (env : Env) (settings : Settings) where
  -- StatsIndex once the miners are collected.
  unfoldable pub stats_from : (List MinerRow × ℕ) × World → Run Stats
  unfolding get_luck_stats get_blocks_stats template_row make_stats
  stats_from ((rows, online), w1) =
      let w2 = record w1 { ticks = w1.ticks + 1 } in
      let (luck, w3) = get_luck_stats env settings w2 in
      let (blocks, w4) = get_blocks_stats env settings w3 in
      finish_stats (rpc w2.upstreams) (template_part w4.round_shares w4.block_template)
        (make_stats (now_of env settings w1) rows online w2.upstreams luck blocks) w4

  unfoldable pub stats_index : World → Run Stats
  unfolding collect_miners_stats stats_from
  stats_index w = stats_from (collect_miners_stats env settings w)
