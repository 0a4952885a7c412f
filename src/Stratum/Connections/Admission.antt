-- ===== src/Stratum/Connections/Admission.antt =====
-- The invariant of the connections of stratum/stratum.go: who is registered, and how many are served.
use xmrpool.Common.{
  ℕ, ◌+◌, ◌≤◌, ◌≡◌, refl, ap, ◌∙◌, true, Option, List, [], ◌∷◌, length, All, arith, map,
}
use xmrpool.Common.Ints.{ℤ}
use xmrpool.Common.Texts.{Bytes}
use xmrpool.Stratum.Types.{Env, World}
use xmrpool.Stratum.Handlers.{is_active}
use xmrpool.Stratum.Messages.{JsonRpcReq, Unmarshal}
use xmrpool.Stratum.Connections.{Port, new_port, Server, ServerSteps}
use xmrpool.Stratum.Connections.Seats.{times, Within-length, times-active, active-times}
use xmrpool.Stratum.Connections.Ports.{
  served, seats, limits_of, seats-limits, IsAdmitted, length-served,
}
use xmrpool.Stratum.Connections.Steps.{ServerSteps-IsSeated}

-- The ports with these limits, before the first connection.
abbrev pub started : List ℕ → List Port
started limits = map new_port limits

-- What holds of a server whose ports have these limits.
pub record Limited (limits : List ℕ) (t : Server) : Type 0 where
  pub same : limits_of t.ports ≡ limits
  pub few : length t.world.sessions ≤ seats (started limits)
  pub at_ports : All (λ (p : Port). length p.running + p.leaving ≤ p.max_conn) t.ports
  pub live :
      (sid : ℕ) → is_active sid t.world.sessions ≡ true → is_active sid (served t.ports) ≡ true

started-IsAdmitted : (limits : List ℕ) → All IsAdmitted (started limits)
started-IsAdmitted [] = tt
started-IsAdmitted (n ∷ limits) =
    (record { held = omega arith; few = omega arith }, started-IsAdmitted limits)

limits_of-started : (limits : List ℕ) → limits_of (started limits) ≡ limits
limits_of-started [] = refl
limits_of-started (n ∷ limits) = ap (λ (ns : List ℕ). n ∷ ns) (limits_of-started limits)

few_at_ports :
    (ps : List Port)
    → All IsAdmitted ps
    → All (λ (p : Port). length p.running + p.leaving ≤ p.max_conn) ps
few_at_ports [] h = tt
few_at_ports (p ∷ ps) h = (omega (arith, h.0.held, h.0.few), few_at_ports ps h.1)

module _ {P : Type 0} (env : Env) (unmarshal : Unmarshal P) (decode : Bytes → Option (JsonRpcReq P))
    (timeout : ℤ) where
  -- A server starts with no session, and its ports have these limits. After any steps, in whatever order
  -- connections are accepted, let in, served a line, closed and let go, and templates and upstreams are
  -- refreshed: the ports have the same limits, and at each port no more goroutines serve than its limit;
  -- at most as many sessions are registered as the limits add up to; and every session that is
  -- registered is served.
  pub ServerSteps-Limited :
      (limits : List ℕ) (w : World) (t : Server)
      → w.sessions ≡ []
      → ServerSteps env unmarshal decode timeout (record { world = w; ports = started limits }) t
      → Limited limits t
  ServerSteps-Limited limits w t none_yet run =
      let (seated, same) = ServerSteps-IsSeated env unmarshal decode timeout run (record {
        within = λ x. omega (arith, ap (times x) none_yet);
        ports = started-IsAdmitted limits;
      }) in
      record {
        same = same ∙ limits_of-started limits;
        few = omega (
          arith,
          Within-length t.world.sessions (served t.ports) seated.within,
          length-served t.ports seated.ports,
          seats-limits t.ports (started limits) same,
        );
        at_ports = few_at_ports t.ports seated.ports;
        live = λ sid active.
            active-times sid (served t.ports)
              (omega (arith, times-active sid t.world.sessions active, seated.within sid));
      }
