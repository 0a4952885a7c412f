-- ===== src/Stratum/Upstreams.antt =====
-- stratum/stratum.go: checkUpstreams and rpc, which choose the daemon that the server works with.
pub mod Choice
use xmrpool.Common.{
  ℕ, zero, suc, ◌+◌, ◌-◌, Bool, true, false, not, ◌&&◌, Option, none, some, List, [], ◌∷◌, ◌++◌,
  leb, if◌then◌else◌, length, drop, get_elem?, ◌==◌,
}
use xmrpool.Rpc.Client.{
  RpcClient, GetBlockTemplateReply, Answer, CallResult, done, failed, panicked, check,
}

-- The fields of StratumServer that this code reads and writes.
pub record Upstreams : Type 0 where
  pub upstream : ℕ  -- int32
  pub upstreams : List RpcClient
  pub upstreams_states : List Bool

pub data Outcome : Type 0 where
  running : Outcome
  fatal_exit : Outcome  -- Error.Fatal ends the process
  run_time_panic : Outcome

-- What a check says of its daemon, and whether it took the process down.
abbrev pub passes : CallResult Bool → Bool
passes (done b) = b
passes (failed e) = false
passes panicked = false

abbrev pub crashed : CallResult Bool → Bool
crashed (done b) = false
crashed (failed e) = false
crashed panicked = true

module _ {R : Type 0} (unmarshal : R → Option GetBlockTemplateReply) (answers : ℕ → Answer R) where
  -- The first loop, at index `i`; the i-th daemon replies `answers i`. It returns the clients,
  -- `candidate`, and whether a check panicked, which ends the loop and the process.
  unfoldable pub check_each : ℕ → ℕ → Bool → List RpcClient → List RpcClient × ℕ × Bool
  check_each i candidate backup [] = ([], candidate, false)
  check_each i candidate backup (v ∷ vs) =
      let (v', result) = check unmarshal v (answers i) in
      let switch = passes result && not backup in
      let (vs', chosen, broken) =
        check_each (suc i) (if switch then i else candidate) (if switch then true else backup) vs in
      if crashed result then (v' ∷ vs, candidate, true) else (v' ∷ vs', chosen, broken)

-- The two loops that look for a false value.
unfoldable pub all_sick : List RpcClient → Bool
all_sick [] = true
all_sick (v ∷ vs) = if not v.sick then false else all_sick vs

unfoldable pub all_true : List Bool → Bool
all_true [] = true
all_true (v ∷ vs) = if not v then false else all_true vs

abbrev pub window : ℕ
window = 60

-- `append`, the cut to the latest 60 states, and the exit if all of them are sick.
unfoldable pub record_state : Bool → List Bool → List Bool × Outcome
unfolding all_true
record_state sick states =
    let appended = states ++ sick ∷ [] in
    if leb window (length appended)
    then (let recent = drop (length appended - window) appended in
        (recent, if all_true recent then fatal_exit else running))
    else (appended, running)

unfoldable pub check_upstreams :
    {R : Type 0}
    → (R → Option GetBlockTemplateReply)
    → (ℕ → Answer R)
    → Upstreams
    → Upstreams × Outcome
unfolding check_each record_state all_sick
check_upstreams unmarshal answers s =
    let (clients, candidate, broken) = check_each unmarshal answers 0 0 false s.upstreams in
    let (states, outcome) = record_state (all_sick clients) s.upstreams_states in
    if broken then (record s { upstreams = clients }, run_time_panic) else (
      record {
        upstream = if not (s.upstream == candidate) then candidate else s.upstream;
        upstreams = clients;
        upstreams_states = states;
      },
      outcome,
    )

-- `rpc()`: the client in use; `none` is an index out of range.
unfoldable pub rpc : Upstreams → Option RpcClient
rpc s = get_elem? s.upstreams s.upstream
