-- ===== src/Stratum/Types.antt =====
-- The state of the mining server: the types of stratum/stratum.go, miner.go, blocks.go and
-- proto.go, the objects that its goroutines share, and what the outside world answers.
use xmrpool.Common.{ℕ, suc, Bool, Option, none, some, List}
use xmrpool.Common.Ints.{ℤ}
use xmrpool.Common.Texts.{Bytes}
use xmrpool.Common.Assoc.{Assoc, nat_key, lookup, insert}
use xmrpool.Blocktemplate.Block.{BtcUtility}
use xmrpool.Rpc.Client.{GetBlockTemplateReply, Answer}
use xmrpool.Stratum.Upstreams.{Upstreams}
use xmrpool.Stratum.MinersMap.{MinersMap}

pub record Job : Type 0 where
  pub height : ℤ
  pub id : Bytes
  pub extra_nonce : ℕ  -- uint32
  pub submissions : List Bytes

pub record Miner : Type 0 where
  pub last_beat : ℤ
  pub started_at : ℤ
  pub valid_shares : ℤ
  pub invalid_shares : ℤ
  pub stale_shares : ℤ
  pub accepts : ℤ
  pub rejects : ℤ
  pub shares : Assoc ℤ ℤ
  pub id : Bytes
  pub ip : Bytes

pub record BlockTemplate : Type 0 where
  pub diff_int64 : ℤ
  pub height : ℤ
  pub difficulty : ℤ
  pub reserved_offset : ℤ
  pub prev_hash : Bytes
  pub buffer : Bytes
  pub seed_hash : Bytes
  pub block_reward : ℤ
  pub tx_total_fee : ℤ
  pub next_seed_hash : Bytes

-- The ratio of a block entry is a float64 quotient; its two operands are kept.
pub record BlockEntry : Type 0 where
  pub height : ℤ
  pub round_shares : ℤ
  pub diff_int64 : ℤ
  pub hash : Bytes

pub record Endpoint : Type 0 where
  pub job_sequence : ℕ  -- uint64
  pub config_difficulty : ℤ
  pub difficulty : ℤ
  pub instance_id : Bytes
  pub extra_nonce : ℕ  -- uint32
  pub target_hex : Bytes

pub record Session : Type 0 where
  pub last_block_height : ℤ
  pub ip : Bytes
  pub login : Bytes
  pub id : Bytes
  pub endpoint : ℕ  -- the endpoint that this session points to
  pub valid_jobs : List Job

pub record JobReplyData : Type 0 where
  pub algo : Bytes
  pub blob : Bytes
  pub height : ℤ
  pub job_id : Bytes
  pub target : Bytes
  pub seed_hash : Bytes
  pub next_seed_hash : Bytes

pub record SubmitParams : Type 0 where
  pub id : Bytes
  pub job_id : Bytes
  pub nonce : Bytes
  pub result : Bytes

-- What is asked of the storage backend. The expiration, which is the same in all, is left out.
pub data BackendCall : Type 0 where
  write_share : Bytes → Bytes → List Bytes → ℤ → ℕ → BackendCall
  write_block : Bytes → Bytes → List Bytes → ℤ → ℤ → ℕ → ℤ → ℤ → BackendCall
  write_invalid_share : ℤ → ℤ → Bytes → Bytes → ℤ → BackendCall
  write_reject_share : ℤ → ℤ → Bytes → Bytes → ℤ → BackendCall

-- The pair (exist, err) of WriteShare and WriteBlock.
pub data Stored : Type 0 where
  stored exists store_failed : Stored

pub record Config : Type 0 where
  pub address : Bytes
  pub bypass_address_validation : Bool
  pub bypass_share_validation : Bool

-- The outside: answers are numbered in the order in which they are asked for. The functions of the
-- C libraries and of bitcoin-lib are parameters too.
pub record Env : Type 0 where
  pub config : Config
  pub make_timestamp : ℕ → ℤ
  pub template_answer : ℕ → Answer (Option GetBlockTemplateReply)
  pub submit_answer : ℕ → Answer (Unit {0})
  pub stored : ℕ → Stored
  pub write_fails : ℕ → Bool
  pub push_fails : ℕ → Bool
  pub validate_address : Bytes → Bool
  pub convert_blob : Bytes → Bytes
  pub rx_hash : Bytes → Bytes → Bytes
  pub cryptonight_fast_hash : Bytes → Bytes
  pub utility : BtcUtility

-- A pointer to a session or an endpoint is its number in the store.
pub record World : Type 0 where
  pub miners : MinersMap Miner
  pub block_template : Option BlockTemplate
  pub round_shares : ℤ
  pub block_stats : Assoc ℤ BlockEntry
  pub upstreams : Upstreams
  pub sessions : List ℕ
  pub session_of : Assoc ℕ Session
  pub endpoint_of : Assoc ℕ Endpoint
  pub ticks : ℕ
  pub calls : List BackendCall

-- A call returns a value and the new state, or the process panics.
pub data Run (A : Type 0) : Type 0 where
  returned : A → World → Run A
  crashed : Run A

infixl 5 ◌>>=◌
abbrev pub ◌>>=◌ : {A B : Type 0} → (World → Run A) → (A → World → Run B) → World → Run B
◌>>=◌ m f w = elim (m w) [ returned a w' ↦ f a w' | crashed ↦ crashed ]

infixl 5 ◌>>◌
abbrev pub ◌>>◌ : {B : Type 0} → (World → Run (Unit {0})) → (World → Run B) → World → Run B
m >> k = m >>= λ _. k

abbrev pub pure : {A : Type 0} → A → World → Run A
pure a w = returned a w

abbrev pub gets : {A : Type 0} → (World → A) → World → Run A
gets f w = returned (f w) w

abbrev pub modify : (World → World) → World → Run (Unit {0})
modify f w = returned tt (f w)

-- A nil pointer or an index out of range.
abbrev pub or_crash : {A : Type 0} → Option A → World → Run A
or_crash none w = crashed
or_crash (some a) w = returned a w

-- The next answer from outside.
abbrev pub ask : {A : Type 0} → (ℕ → A) → World → Run A
ask answers w = returned (answers w.ticks) (record w { ticks = suc w.ticks })

abbrev pub session_at : ℕ → World → Run Session
session_at sid w = or_crash (lookup sid w.session_of) w

abbrev pub endpoint_at : ℕ → World → Run Endpoint
endpoint_at e w = or_crash (lookup e w.endpoint_of) w

abbrev pub put_session : ℕ → Session → World → Run (Unit {0})
put_session sid cs = modify (λ w. record w { session_of = insert sid cs w.session_of })

abbrev pub put_endpoint : ℕ → Endpoint → World → Run (Unit {0})
put_endpoint i e = modify (λ w. record w { endpoint_of = insert i e w.endpoint_of })
