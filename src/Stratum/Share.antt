-- ===== src/Stratum/Share.antt =====
-- stratum/miner.go: processShare and what it calls.
pub mod Accepted
pub mod Books
pub mod Hashrate
use xmrpool.Common.{
  ℕ, Bool, true, false, not, ◌&&◌, Option, none, some, List, [], ◌∷◌, if◌then◌else◌, length,
}
use xmrpool.Common.Ints.{ℤ, pos, ◌+ℤ◌, leb_ℤ, ltb_ℤ, quot_ℤ}
use xmrpool.Common.Words.{u8, wrap64, pattern64}
use xmrpool.Common.Texts.{Bytes, bytes_eq, hex_encode, hex_prefix}
use xmrpool.Common.Assoc.{int_key, lookup, insert}
use xmrpool.Util.Difficulty.{get_hash_difficulty}
use xmrpool.Rpc.Client.{RpcClient, CallResult, done, failed, panicked, submit_block}
use xmrpool.Stratum.Upstreams.{rpc}
use xmrpool.Stratum.MinersMap.{get, set}
use xmrpool.Stratum.Types.{
  Job, Miner, BlockTemplate, Session, Endpoint, BackendCall, write_share, write_block,
  write_invalid_share, write_reject_share, Stored, stored, exists, store_failed, Env, World, Run,
  returned, crashed, ◌>>=◌, ◌>>◌, pure, gets, modify, or_crash, ask,
}
use xmrpool.Stratum.Blob.{big_endian32, share_buffer}
use xmrpool.Stratum.Refresh.{put_rpc, refresh_block_template}

abbrev pub add64 : ℤ → ℤ → ℤ
add64 a b = wrap64 (a +ℤ b)

-- A write through the pointer to the miner with this key.
abbrev pub on_miner : Bytes → (Miner → Miner) → World → Run (Unit {0})
on_miner key f = modify λ w. elim (get key w.miners) [
  | none ↦ w
  | some m ↦ record w { miners = set key (f m) w.miners }
]

abbrev pub heartbeat : Env → Bytes → World → Run (Unit {0})
heartbeat env key = do now ← ask env.make_timestamp; on_miner key λ m. record m { last_beat = now }

abbrev pub amount_at : ℤ → List (ℤ × ℤ) → ℤ
amount_at k shares = elim (lookup k shares) [ none ↦ pos 0 | some v ↦ v ]

abbrev pub store_share : Env → Bytes → ℤ → World → Run (Unit {0})
store_share env key diff = do
  ms ← ask env.make_timestamp
  let now = quot_ℤ ms 1000
  on_miner key λ m. record m { shares = insert now (add64 (amount_at now m.shares) diff) m.shares }

abbrev pub add_invalid : Bytes → World → Run (Unit {0})
add_invalid key = on_miner key λ m. record m { invalid_shares = add64 m.invalid_shares (pos 1) }

abbrev pub call_backend : BackendCall → World → Run (Unit {0})
call_backend c = modify λ w. record w { calls = c ∷ w.calls }

-- hashing.FastHash and RxHash; the latter takes the address of the first byte of the seed hash.
unfoldable pub fast_hash : Env → Bytes → Bytes
fast_hash env blob = env.cryptonight_fast_hash (u8 (length blob) ∷ blob)

unfoldable pub rx_hash_of : Env → Bytes → Bytes → Option Bytes
rx_hash_of env blob [] = none
rx_hash_of env blob (b ∷ seed) = some (env.rx_hash blob (b ∷ seed))

module _ (env : Env) (key : Bytes) (cs : Session) (e : Endpoint) (t : BlockTemplate) where
  -- The end of processShare.
  unfoldable pub credit : World → Run Bool
  credit = do
    modify λ w. record w { round_shares = add64 w.round_shares e.config_difficulty }
    on_miner key λ m. record m { valid_shares = add64 m.valid_shares (pos 1) }
    store_share env key e.config_difficulty
    pure true

  -- A share that the backend has already; the error of the write is only logged.
  unfoldable pub record_duplicate : World → Run Bool
  record_duplicate = do
    ms ← ask env.make_timestamp
    call_backend (write_invalid_share ms (quot_ℤ ms 1000) cs.login cs.id e.difficulty)
    ignored ← ask env.write_fails
    pure false

  -- A share below the difficulty of the port.
  unfoldable pub reject_share : World → Run Bool
  reject_share = do
    ms ← ask env.make_timestamp
    call_backend (write_reject_share ms (quot_ℤ ms 1000) cs.login cs.id e.difficulty)
    fails ← ask env.write_fails
    (λ w. if fails then returned false w else (add_invalid key >> pure false) w)

  module _ (params : List Bytes) where
    unfoldable pub write_normal_share : World → Run Bool
    unfolding credit record_duplicate
    write_normal_share = do
      call_backend (write_share cs.login cs.id params e.difficulty (pattern64 t.height))
      answer ← ask env.stored
      (λ w. elim answer [
        | exists ↦ record_duplicate w
        | stored ↦ credit w
        | store_failed ↦ credit w
      ])

    -- The daemon took the block.
    unfoldable pub block_accepted : RpcClient → Bytes → World → Run Bool
    unfolding credit record_duplicate
    block_accepted r share = do
      now ← ask env.make_timestamp
      (λ w. returned tt (record w {
        round_shares = pos 0;
        block_stats =
            insert now
              (record {
                height = t.height;
                round_shares = w.round_shares;
                diff_int64 = t.diff_int64;
                hash = hex_encode (fast_hash env (env.convert_blob share));
              })
              w.block_stats;
      }))
      on_miner key λ m. record m { accepts = add64 m.accepts (pos 1) }
      put_rpc (record r { accepts = add64 r.accepts (pos 1); last_submission_at = now })
      call_backend (
          write_block cs.login cs.id params e.difficulty t.diff_int64 (pattern64 t.height)
            t.block_reward t.tx_total_fee)
      answer ← ask env.stored
      (λ w. elim answer [
        | exists ↦ record_duplicate w
        | stored ↦ (refresh_block_template env true >> credit) w
        | store_failed ↦ (refresh_block_template env true >> credit) w
      ])

    unfoldable pub submit_found_block : Bytes → World → Run Bool
    unfolding block_accepted credit
    submit_found_block share = do
      r ← (λ w. or_crash (rpc w.upstreams) w)
      answer ← ask env.submit_answer
      let (r', result) = submit_block r answer
      (λ w. elim result [
        | done reply ↦ (put_rpc r' >> block_accepted r' share) w
        | failed x ↦
            (do
              put_rpc (record r' { rejects = add64 r'.rejects (pos 1) })
              on_miner key λ m. record m { rejects = add64 m.rejects (pos 1) }
              credit)
              w
        | panicked ↦ crashed
      ])

    -- Which of the three the hash is: a block, a share that is too easy, or a share.
    unfoldable pub grade : Bytes → ℕ → World → Run Bool
    grade share hash_diff w =
        if leb_ℤ t.difficulty (pos hash_diff)
        then submit_found_block share w
        else if ltb_ℤ (pos hash_diff) e.difficulty
        then reject_share w
        else write_normal_share w

  -- The hash that the share stands for; `none` is a panic.
  unfoldable pub share_hash : Bytes → Bytes → Option Bytes
  unfolding rx_hash_of
  share_hash share result =
      if env.config.bypass_share_validation
      then some (hex_prefix result)
      else rx_hash_of env (env.convert_blob share) t.seed_hash

  unfoldable pub judge : List Bytes → Bytes → Bytes → Bytes → World → Run Bool
  judge params share hash result w =
      if not env.config.bypass_share_validation && not (bytes_eq (hex_encode hash) result)
      then (add_invalid key >> pure false) w
      else elim (get_hash_difficulty hash) [
        | none ↦ (add_invalid key >> pure false) w
        | some hash_diff ↦ grade params share hash_diff w
      ]

  unfoldable pub process_share : Job → Bytes → Bytes → World → Run Bool
  unfolding share_hash judge grade
  process_share job nonce result = do
    r ← (λ w. or_crash (rpc w.upstreams) w)
    share ← or_crash (share_buffer t job e nonce)
    hash ← or_crash (share_hash share result)
    let params =
        hex_encode (hex_prefix nonce)
        ∷ hex_encode (big_endian32 job.extra_nonce)
        ∷ hex_encode e.instance_id
        ∷ []
    judge params share hash result
