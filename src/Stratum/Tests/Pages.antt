-- ===== src/Stratum/Tests/Pages.antt =====
-- The statistics of a server with one miner and two found blocks.
use xmrpool.Common.{true, some, [], ◌∷◌}
use xmrpool.Common.Ints.{pos}
use xmrpool.Common.Texts.{codes}
use xmrpool.Stratum.Types.{BlockEntry, World}
use xmrpool.Stratum.Api.{Settings}
use xmrpool.Stratum.Api.Reported.{Reported}
use xmrpool.Stratum.Tests.{world, template}

abbrev settings : Settings
settings = record {
  timeout = pos 900000000000;
  estimation_window = pos 900000000000;
  luck_window = pos 86400000;
  luck_large_window = pos 259200000;
  hide_ip = true;
}

abbrev found : BlockEntry
found = record {
  height = pos 3000000;
  round_shares = pos 900;
  diff_int64 = pos 1000;
  hash = codes "cd";
}

abbrev busy : World
busy = record world {
  block_template = some (record template { prev_hash = codes "abcdef012345" });
  block_stats = (pos 1699999999999, found) ∷ (pos 1600000000000, found) ∷ [];
}
