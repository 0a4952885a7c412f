-- ===== src/Stratum/Tests/Parts.antt =====
-- The theorems about the parts that stratum/handlers.go uses, at concrete inputs.
use xmrpool.Common.{
  ℕ, zero, suc, ◌+◌, ◌-◌, ◌≤◌, ◌≡◌, refl, ap, Bool, true, false, ◌&&◌, Option, none, some, List, [],
  ◌∷◌, ◌++◌, arith, leb, if◌then◌else◌, length, drop, replicate,
}
use xmrpool.Common.Ints.{ℤ, pos}
use xmrpool.Common.Assoc.{nat_key, bytes_key, int_key}
use xmrpool.Common.Texts.{codes, bytes_eq}
use xmrpool.Rpc.Client.{
  GetBlockTemplateReply, new_client, Answer, no_response, response, object, check,
  get_block_template, do_post, mark_sick, mark_alive,
}
use xmrpool.Stratum.Upstreams.{
  Upstreams, running, fatal_exit, window, all_true, record_state, check_upstreams,
}
use xmrpool.Stratum.Upstreams.Choice.{
  first_passing, checked, latest, check_upstreams-first_passing, record_state-latest,
}
use xmrpool.Stratum.MinersMap.{get, set, remove, new_miners_map}
use xmrpool.Stratum.MinersMap.Refinement.{IsSharded, get-set-remove}
use xmrpool.Stratum.Handlers.Logins.{Split, extract_worker_id-Split}
use xmrpool.Stratum.Handlers.{Reply, accepted, refused, new_miner, handle_submit}
use xmrpool.Stratum.Tests.{good_reply}

extract_worker_id-Split_example : Split (codes "4A.rig.1") (codes "4A") (codes "rig.1")
unfolding xmrpool.Stratum.Handlers.extract_worker_id
extract_worker_id-Split_example = extract_worker_id-Split (codes "4A.rig.1")

abbrev five : ℕ
five = 5

get-set-remove_example :
    (get {M = ℕ} (codes "a") (set (codes "b") five new_miners_map) ≡ (
      if bytes_eq (codes "b") (codes "a") then some 5 else get {M = ℕ} (codes "a") new_miners_map))
    × (get {M = ℕ} (codes "a") (remove (codes "b") new_miners_map) ≡ (
        if bytes_eq (codes "b") (codes "a") then none else get {M = ℕ} (codes "a") new_miners_map))
    × IsSharded (set (codes "b") five new_miners_map)
    × IsSharded (remove {M = ℕ} (codes "b") new_miners_map)
    × IsSharded {M = ℕ} new_miners_map
    × (get {M = ℕ} (codes "a") new_miners_map ≡ none)
unfolding new_miners_map
get-set-remove_example = get-set-remove (codes "a") (codes "b") five new_miners_map refl

abbrev two_daemons : Upstreams
two_daemons = record {
  upstream = 0;
  upstreams = new_client (codes "a") ∷ new_client (codes "b") ∷ [];
  upstreams_states = [];
}

-- The first daemon does not answer, the second does.
abbrev second_answers : ℕ → Answer (Option GetBlockTemplateReply)
second_answers zero = no_response
second_answers (suc n) = response 200 (object none (some (some good_reply)))

abbrev raw : Option GetBlockTemplateReply → Option GetBlockTemplateReply
raw r = r

check_upstreams-first_passing_example :
    ((check_upstreams raw second_answers two_daemons).0.upstreams
      ≡ checked raw second_answers 0 two_daemons.upstreams)
    × ((check_upstreams raw second_answers two_daemons).0.upstream ≡ 1)
unfolding first_passing check get_block_template do_post mark_sick mark_alive new_client
    xmrpool.Common.Words.wrap64 xmrpool.Common.Ints.◌+ℤ◌
check_upstreams-first_passing_example =
    check_upstreams-first_passing raw second_answers two_daemons (refl, (refl, tt))

record_state-latest_example : record_state true (latest (replicate 70 true)) ≡ (
  latest (replicate 70 true ++ true ∷ []),
  if leb window (length (replicate 70 true) + 1)
        && all_true (latest (replicate 70 true ++ true ∷ []))
      then fatal_exit
      else running,
)
record_state-latest_example = record_state-latest (replicate 70 true) true
