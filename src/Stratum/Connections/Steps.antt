-- ===== src/Stratum/Connections/Steps.antt =====
-- One step of the server of stratum/stratum.go, and any steps, keep the invariant of its connections.
use xmrpool.Common.{
  ℕ, suc, ◌≤◌, ◌≡◌, refl, ap, sym, ◌∙◌, Bool, true, false, Option, some, List, ◌∷◌, ◌++◌, length,
  length-append, All, arith,
}
use mathlib.Core.Path.{subst}
use xmrpool.Common.Ints.{ℤ}
use xmrpool.Common.Texts.{Bytes}
use xmrpool.Stratum.Types.{Env, World, returned}
use xmrpool.Stratum.Runs.{bind-returned, Ends, Ends-returned}
use xmrpool.Stratum.Messages.{JsonRpcReq, Unmarshal}
use xmrpool.Stratum.Connections.{
  Line, on_line, after_line, turn, Port, Server, PortStep, accepts, sends, receives, serves, stops,
  ServerStep, at_port, refreshes, checks, ServerSteps, start, later,
}
use xmrpool.Stratum.Connections.Kept.{refresh_block_template-Stays}
use xmrpool.Stratum.Connections.Seats.{
  times, Within, times-append, times-remove_self, Within-remove_session, Within-register,
}
use xmrpool.Stratum.Connections.Turns.{on_line-Stays}
use xmrpool.Stratum.Connections.Ports.{
  served, IsAdmitted, times-served, limits_of, limits_of-step, All-at, All-put, Serves,
  accept_conn-Serves, send-Serves, receive-Serves, Serves-some,
}

-- The connections of a server: each session that is registered is served, and each port serves at most
-- as many as it may.
pub record IsSeated (s : Server) : Type 0 where
  pub within : Within (served s.ports) s.world.sessions
  pub ports : All IsAdmitted s.ports

-- How the sessions stand after a turn with this answer.
abbrev Turned : List ℕ → ℕ → Bool → List ℕ → Type 0
Turned live sid going ss = Within live ss × (going ≡ false → times sid ss ≡ 0)

module _ {P : Type 0} (env : Env) (unmarshal : Unmarshal P) (decode : Bytes → Option (JsonRpcReq P))
    (timeout : ℤ) where
  module _ (sid : ℕ) (live : List ℕ) where
    after_line-Ends :
        (a : Bool × ℤ) (w : World)
        → Within live w.sessions
        → Ends
            (λ (r : Bool × ℤ) (u : World). Turned live sid r.0 u.sessions)
            (after_line env unmarshal decode timeout sid a w)
    unfolding after_line
    after_line-Ends (true, d) w h = (h, λ e. cc)
    after_line-Ends (false, d) w h =
        (Within-remove_session live sid w.sessions h, λ e. times-remove_self sid w.sessions)

    after_line-Turned :
        (a b : Bool × ℤ) (w w' : World)
        → Within live w.sessions
        → after_line env unmarshal decode timeout sid a w ≡ returned b w'
        → Turned live sid b.0 w'.sessions
    unfolding after_line
    after_line-Turned a b w w' h e =
        Ends-returned (λ (r : Bool × ℤ) (u : World). Turned live sid r.0 u.sessions) _ b w'
          (after_line-Ends a w h) e

    turn-Turned :
        (line : Line) (d : ℤ) (b : Bool × ℤ) (w w' : World)
        → 1 ≤ times sid live
        → Within live w.sessions
        → turn env unmarshal decode timeout sid line d w ≡ returned b w'
        → Turned live sid b.0 w'.sessions
    unfolding turn
    turn-Turned line d b w w' alive h e =
        let (a, w1, ran, last) =
          bind-returned (on_line env unmarshal decode timeout sid line d)
            (after_line env unmarshal decode timeout sid) w b w' e in
        after_line-Turned a b w1 w'
          (Ends-returned (λ r u. Within live u.sessions) _ a w1
            (on_line-Stays (Within live) (Within-remove_session live) env sid
              (λ ss fresh. Within-register live sid ss alive fresh) unmarshal decode timeout line d
              w h)
            ran)
          last

  module _ (before after : List Port) (p : Port) where
    served-grow :
        (p' : Port) (ss : List ℕ)
        → ((x : ℕ) → times x p.running ≤ times x p'.running)
        → Within (served (before ++ p ∷ after)) ss
        → Within (served (before ++ p' ∷ after)) ss
    served-grow p' ss more h x =
        omega (arith, h x, more x, times-served x before after p, times-served x before after p')

    -- A step of the port that serves no line.
    served-step :
        (p' : Port) (o : Option Port) (w w' : World)
        → Serves p o
        → o ≡ some p'
        → w'.sessions ≡ w.sessions
        → IsSeated (record { world = w; ports = before ++ p ∷ after })
        → IsSeated (record { world = w'; ports = before ++ p' ∷ after })
          × (p'.max_conn ≡ p.max_conn)
    served-step p' o w w' serves_all e same h =
        let (moved, more) = Serves-some p p' o serves_all e in
        (
          record {
            within = rw same (served-grow p' w.sessions more h.within);
            ports = All-put IsAdmitted before after p p' moved.admitted h.ports;
          },
          moved.same_limit,
        )

    running-alive :
        (sid : ℕ) (xs ys : List ℕ)
        → p.running ≡ xs ++ sid ∷ ys
        → 1 ≤ times sid (served (before ++ p ∷ after))
    running-alive sid xs ys e =
        let here = times-append sid xs (sid ∷ ys) in
        let one : times sid (sid ∷ ys) ≡ suc (times sid ys) = ground arith in
        omega (arith, times-served sid before after p, ap (times sid) e, here, one)

    -- The port that serves the session no longer, in the state after its last turn.
    stopped-IsSeated :
        (sid : ℕ) (xs ys : List ℕ) (w w' : World)
        → p.running ≡ xs ++ sid ∷ ys
        → Turned (served (before ++ p ∷ after)) sid false w'.sessions
        → IsSeated (record { world = w; ports = before ++ p ∷ after })
        → IsSeated (record {
          world = w';
          ports = before ++ record p { running = xs ++ ys; leaving = suc p.leaving } ∷ after;
        })
    stopped-IsSeated sid xs ys w w' e (within, gone) h = record {
      within = λ x. fits x (within x);
      ports =
          All-put IsAdmitted before after p stopped
            (record {
              held =
                  let admitted = All-at IsAdmitted before after p h.ports in
                  omega (
                    arith,
                    length-append xs ys,
                    length-append xs (sid ∷ ys),
                    ap length e,
                    admitted.held,
                  );
              few = (All-at IsAdmitted before after p h.ports).few;
            })
            h.ports;
    }
      where
        stopped : Port
        stopped = record p { running = xs ++ ys; leaving = suc p.leaving }

        fits :
            (x : ℕ)
            → times x w'.sessions ≤ times x (served (before ++ p ∷ after))
            → times x w'.sessions ≤ times x (served (before ++ stopped ∷ after))
        fits x h' = ground (
          arith,
          gone refl,
          times-served x before after p,
          times-served x before after stopped,
          ap (times x) e,
          times-append x xs (sid ∷ ys),
          times-append x xs ys,
        )

    -- A step of a port among others.
    PortStep-IsSeated :
        (p' : Port) (w w' : World)
        → PortStep env unmarshal decode timeout w p w' p'
        → IsSeated (record { world = w; ports = before ++ p ∷ after })
        → IsSeated (record { world = w'; ports = before ++ p' ∷ after })
          × (p'.max_conn ≡ p.max_conn)
    PortStep-IsSeated p' w w' (accepts sid endpoint ip fresh e taken) h =
        served-step p' _ w w' (accept_conn-Serves sid p (All-at IsAdmitted before after p h.ports))
          taken (ap (λ (x : World). x.sessions) e) h
    PortStep-IsSeated p' w w' (sends e sent) h =
        served-step p' _ w w' (send-Serves p (All-at IsAdmitted before after p h.ports)) sent
          (ap (λ (x : World). x.sessions) e) h
    PortStep-IsSeated p' w w' (receives e received) h =
        served-step p' _ w w' (receive-Serves p (All-at IsAdmitted before after p h.ports)) received
          (ap (λ (x : World). x.sessions) e) h
    PortStep-IsSeated p' w w' (serves sid xs ys line d d' is e same) h =
        let (within, gone) =
          turn-Turned sid (served (before ++ p ∷ after)) line d (true, d') w w'
            (running-alive sid xs ys is) h.within e in
        rw same (record { within = within; ports = h.ports }, refl)
    PortStep-IsSeated p' w w' (stops sid xs ys line d d' is e next) h = rw next (
      stopped-IsSeated sid xs ys w w' is
          (turn-Turned sid (served (before ++ p ∷ after)) line d (false, d') w w'
            (running-alive sid xs ys is) h.within e)
          h,
      refl,
    )

  -- The limits of the ports do not change.
  ServerStep-IsSeated :
      {s t : Server}
      → ServerStep env unmarshal decode timeout s t
      → IsSeated s
      → IsSeated t × (limits_of t.ports ≡ limits_of s.ports)
  ServerStep-IsSeated {s} {t} (at_port before after p p' w' is step next) h =
      let (seated, same) =
        PortStep-IsSeated before after p p' s.world w' step
          (subst (λ (ps : List Port). IsSeated (record { world = s.world; ports = ps })) is h) in
      rw next (seated, limits_of-step before after p p' same ∙ ap limits_of (sym is))
  ServerStep-IsSeated {s} (refreshes bcast w' e next) h = rw next (
    record {
      within =
          Ends-returned (λ r u. Within (served s.ports) u.sessions) _ tt w'
            (refresh_block_template-Stays (Within (served s.ports))
              (Within-remove_session (served s.ports)) env bcast s.world h.within)
            e;
      ports = h.ports;
    },
    refl,
  )
  ServerStep-IsSeated (checks answers fine next) h =
      rw next (record { within = h.within; ports = h.ports }, refl)

  pub ServerSteps-IsSeated :
      {s t : Server}
      → ServerSteps env unmarshal decode timeout s t
      → IsSeated s
      → IsSeated t × (limits_of t.ports ≡ limits_of s.ports)
  ServerSteps-IsSeated start h = (h, refl)
  ServerSteps-IsSeated (later run step) h =
      let (seated, same) = ServerSteps-IsSeated run h in
      let (seated', same') = ServerStep-IsSeated step seated in (seated', same' ∙ same)
