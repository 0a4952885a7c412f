-- ===== src/Stratum/Connections.antt =====
-- stratum/stratum.go: `handleClient` and `handleTLSClient`, which read the lines of a connection, and
-- the accept loops of `Listen` and `ListenTLS` with the channel that bounds them.
pub mod Kept
pub mod Requests
pub mod Turns
pub mod Seats
pub mod Ports
pub mod Steps
pub mod Admission
pub mod Closing
use xmrpool.Common.{
  ℕ, zero, suc, ◌+◌, ◌-◌, ◌≡◌, Bool, true, false, not, ◌&&◌, Option, none, some, List, [], ◌∷◌,
  ◌++◌, ltb, ◌==◌, if◌then◌else◌, length,
}
use xmrpool.Common.Ints.{ℤ, pos, ◌+ℤ◌}
use xmrpool.Common.Texts.{Bytes}
use xmrpool.Common.Assoc.{nat_key, lookup, insert}
use xmrpool.Rpc.Client.{GetBlockTemplateReply, Answer}
use xmrpool.Stratum.Upstreams.{check_upstreams, running as goes_on}
use xmrpool.Stratum.Types.{Session, Env, World, Run, returned, crashed, ◌>>=◌, pure, modify, ask}
use xmrpool.Stratum.Refresh.{remove_session, refresh_block_template}
use xmrpool.Stratum.Messages.{JsonRpcReq, Sent, Unmarshal, handle_message}

pub data ReadError : Type 0 where
  eof other : ReadError

-- The results of one `ReadLine`: the line, whether it did not fit the buffer, and the error.
pub record Line : Type 0 where
  pub data_read : Bytes
  pub is_prefix : Bool
  pub err : Option ReadError

-- Whether `handleClient` waits for the next line, or has removed the session and closed the connection.
pub data Phase : Type 0 where
  reading closed : Phase

-- `decode` is json.Unmarshal at JSONRpcReq; `timeout` is in milliseconds, and a deadline is the time at
-- which a read fails.
module _ {P : Type 0} (env : Env) (unmarshal : Unmarshal P) (decode : Bytes → Option (JsonRpcReq P))
    (timeout : ℤ) (sid : ℕ) where
  unfoldable pub set_deadline : World → Run ℤ
  set_deadline = do now ← ask env.make_timestamp; pure (now +ℤ timeout)

  -- A line that is long enough. The Boolean says whether the loop goes on.
  unfoldable pub on_request : Option (JsonRpcReq P) → ℤ → World → Run (Bool × ℤ)
  unfolding set_deadline
  on_request none deadline = pure (false, deadline)
  on_request (some req) deadline = do
    later ← set_deadline
    (sent, drop) ← handle_message env sid unmarshal req
    pure (not drop, later)

  unfoldable pub on_line : Line → ℤ → World → Run (Bool × ℤ)
  unfolding on_request
  on_line line deadline w = if line.is_prefix then returned (false, deadline) w else elim line.err [
    | some e ↦ returned (false, deadline) w
    | none ↦
        if ltb 1 (length line.data_read)
        then on_request (decode line.data_read) deadline w
        else returned (true, deadline) w
  ]

  -- What follows a line: after the loop the session is removed.
  unfoldable pub after_line : Bool × ℤ → World → Run (Bool × ℤ)
  after_line (true, deadline) w = returned (true, deadline) w
  after_line (false, deadline) w =
      returned (false, deadline) (record w { sessions = remove_session sid w.sessions })

  unfoldable pub turn : Line → ℤ → World → Run (Bool × ℤ)
  unfolding on_line after_line
  turn line deadline = on_line line deadline >>= after_line

  unfoldable pub go_on : (ℤ → World → Run (Phase × ℤ)) → Bool × ℤ → World → Run (Phase × ℤ)
  go_on rest (true, deadline) = rest deadline
  go_on rest (false, deadline) = pure (closed, deadline)

  -- The loop over the lines that have come so far; those after its end are not read.
  unfoldable pub serve : List Line → ℤ → World → Run (Phase × ℤ)
  unfolding turn go_on
  serve [] deadline = pure (reading, deadline)
  serve (line ∷ lines) deadline = turn line deadline >>= go_on (λ d. serve lines d)

  unfoldable pub handle_client : List Line → World → Run (Phase × ℤ)
  unfolding set_deadline serve
  handle_client lines = set_deadline >>= serve lines

  -- The same code, copied for a connection over TLS.
  unfoldable pub handle_tls_client : List Line → World → Run (Phase × ℤ)
  unfolding set_deadline serve
  handle_tls_client lines = set_deadline >>= serve lines

-- An endpoint that listens: the channel `accept` holds `tokens` of at most `max_conn` values; a session
-- may wait to send to it, those of `running` are served, and `leaving` goroutines have served theirs and
-- not received yet.
pub record Port : Type 0 where
  pub max_conn : ℕ
  pub accepted : ℕ  -- n
  pub tokens : ℕ
  pub waiting : Option ℕ
  pub running : List ℕ
  pub leaving : ℕ

abbrev pub new_port : ℕ → Port
new_port max_conn = record {
  max_conn = max_conn;
  accepted = 0;
  tokens = 0;
  waiting = none;
  running = [];
  leaving = 0;
}

abbrev pub new_session : ℕ → Bytes → Session
new_session endpoint ip = record {
  last_block_height = pos 0;
  ip = ip;
  login = [];
  id = [];
  endpoint = endpoint;
  valid_jobs = [];
}

-- In the functions below `none` is a call that blocks. AcceptTCP is called once the loop has sent.
unfoldable pub accept_conn : ℕ → Port → Option Port
accept_conn sid p = elim p.waiting [
  | none ↦ some (record p { waiting = some sid; accepted = suc p.accepted })
  | some other_sid ↦ none
]

-- `accept <- n` and `go`. A channel without a buffer takes a value only from hand to hand.
unfoldable pub send : Port → Option Port
send p = elim p.waiting [
  | none ↦ none
  | some sid ↦
      if ltb p.tokens p.max_conn
      then some (record p { waiting = none; tokens = suc p.tokens; running = sid ∷ p.running })
      else if p.max_conn == 0 && ltb 0 p.leaving
      then some (record p { waiting = none; leaving = p.leaving - 1; running = sid ∷ p.running })
      else none
]

-- `<-accept`
unfoldable pub receive : Port → Option Port
receive p =
    if ltb 0 p.leaving && ltb 0 p.tokens
    then some (record p { leaving = p.leaving - 1; tokens = p.tokens - 1 })
    else none

-- All that goroutines share, and the ports.
pub record Server : Type 0 where
  pub world : World
  pub ports : List Port

module _ {P : Type 0} (env : Env) (unmarshal : Unmarshal P) (decode : Bytes → Option (JsonRpcReq P))
    (timeout : ℤ) where
  -- A step of one port, in which at most one session is served one line.
  pub data PortStep (w : World) (p : Port) (w' : World) (p' : Port) : Type 0 where
    accepts :
        (sid endpoint : ℕ) (ip : Bytes)
        → lookup sid w.session_of ≡ none
        → w' ≡ record w { session_of = insert sid (new_session endpoint ip) w.session_of }
        → accept_conn sid p ≡ some p'
        → PortStep w p w' p'
    sends : w' ≡ w → send p ≡ some p' → PortStep w p w' p'
    receives : w' ≡ w → receive p ≡ some p' → PortStep w p w' p'
    serves :
        (sid : ℕ) (before after : List ℕ) (line : Line) (d d' : ℤ)
        → p.running ≡ before ++ sid ∷ after
        → turn env unmarshal decode timeout sid line d w ≡ returned (true, d') w'
        → p' ≡ p
        → PortStep w p w' p'
    stops :
        (sid : ℕ) (before after : List ℕ) (line : Line) (d d' : ℤ)
        → p.running ≡ before ++ sid ∷ after
        → turn env unmarshal decode timeout sid line d w ≡ returned (false, d') w'
        → p' ≡ record p { running = before ++ after; leaving = suc p.leaving }
        → PortStep w p w' p'

  -- A step of the server: of one of its ports, or of the timers. The timer of purgeStale changes nothing
  -- of it.
  pub data ServerStep (s t : Server) : Type 0 where
    at_port :
        (before after : List Port) (p p' : Port) (w' : World)
        → s.ports ≡ before ++ p ∷ after
        → PortStep s.world p w' p'
        → t ≡ record { world = w'; ports = before ++ p' ∷ after }
        → ServerStep s t
    refreshes :
        (bcast : Bool) (w' : World)
        → refresh_block_template env bcast s.world ≡ returned tt w'
        → t ≡ record s { world = w' }
        → ServerStep s t
    checks :
        (answers : ℕ → Answer (Option GetBlockTemplateReply))
        → (check_upstreams
            (λ (raw : Option GetBlockTemplateReply). raw)
            answers
            s.world.upstreams).1
          ≡ goes_on
        → t ≡ record s {
          world = record (s.world) {
            upstreams =
                (check_upstreams
                  (λ (raw : Option GetBlockTemplateReply). raw)
                  answers
                  s.world.upstreams).0;
          };
        }
        → ServerStep s t

  pub data ServerSteps (s : Server) : Server → Type 0 where
    start : ServerSteps s s
    later : {t u : Server} → ServerSteps s t → ServerStep t u → ServerSteps s u
