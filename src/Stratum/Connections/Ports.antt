-- ===== src/Stratum/Connections/Ports.antt =====
-- The ports of stratum/stratum.go: the channel that bounds the goroutines of an accept loop.
use xmrpool.Common.{
  ℕ, ◌+◌, ◌≤◌, ◌≡◌, refl, ap, sym, ◌∙◌, map, Option, none, some, List, [], ◌∷◌, ◌++◌, length,
  length-append, append_assoc, All, arith,
}
use mathlib.Core.Path.{subst}
use xmrpool.Stratum.Connections.{Port, accept_conn, send, receive}
use xmrpool.Stratum.Connections.Seats.{times, times-append}

-- The sessions that the ports serve, and the most that they may.
abbrev pub served : List Port → List ℕ
served [] = []
served (p ∷ ps) = p.running ++ served ps

abbrev pub seats : List Port → ℕ
seats [] = 0
seats (p ∷ ps) = p.max_conn + seats ps

-- The tokens in the channel are those of the goroutines that run.
pub record IsAdmitted (p : Port) : Type 0 where
  pub held : length p.running + p.leaving ≡ p.tokens
  pub few : p.tokens ≤ p.max_conn

served-append : (ps qs : List Port) → served (ps ++ qs) ≡ served ps ++ served qs
served-append [] qs = refl
served-append (p ∷ ps) qs = rw (served-append ps qs, append_assoc) refl

-- The limits of the ports.
abbrev pub limits_of : List Port → List ℕ
limits_of ports = map (λ (p : Port). p.max_conn) ports

limits_of-append : (ps qs : List Port) → limits_of (ps ++ qs) ≡ limits_of ps ++ limits_of qs
limits_of-append [] qs = refl
limits_of-append (p ∷ ps) qs = ap (λ (ns : List ℕ). p.max_conn ∷ ns) (limits_of-append ps qs)

-- One port among others takes another state, but keeps its limit.
pub limits_of-step :
    (before after : List Port) (p p' : Port)
    → p'.max_conn ≡ p.max_conn
    → limits_of (before ++ p' ∷ after) ≡ limits_of (before ++ p ∷ after)
limits_of-step before after p p' e =
    rw (limits_of-append before (p' ∷ after), limits_of-append before (p ∷ after), e) refl

pub seats-limits : (ps qs : List Port) → limits_of ps ≡ limits_of qs → seats ps ≡ seats qs
seats-limits ps qs e = sym (seats-sum ps) ∙ ap sum e ∙ seats-sum qs
  where
    sum : List ℕ → ℕ
    sum [] = 0
    sum (n ∷ ns) = n + sum ns

    seats-sum : (ps : List Port) → sum (limits_of ps) ≡ seats ps
    seats-sum [] = refl
    seats-sum (p ∷ ps) = ap (λ n. p.max_conn + n) (seats-sum ps)

-- How often a session is served at one port among others.
pub times-served :
    (x : ℕ) (before after : List Port) (p : Port)
    → times x (served (before ++ p ∷ after))
      ≡ times x (served before) + (times x p.running + times x (served after))
times-served x before after p =
    rw
      (
        served-append before (p ∷ after),
        times-append x (served before) (p.running ++ served after),
        times-append x p.running (served after),
      )
      refl

module _ (Q : Port → Type 0) where
  pub All-at : (before after : List Port) (p : Port) → All Q (before ++ p ∷ after) → Q p
  All-at [] after p h = h.0
  All-at (q ∷ before) after p h = All-at before after p h.1

  pub All-put :
      (before after : List Port) (p p' : Port)
      → Q p'
      → All Q (before ++ p ∷ after)
      → All Q (before ++ p' ∷ after)
  All-put [] after p p' q h = (q, h.1)
  All-put (r ∷ before) after p p' q h = (h.0, All-put before after p p' q h.1)

pub length-served : (ps : List Port) → All IsAdmitted ps → length (served ps) ≤ seats ps
length-served [] h = omega arith
length-served (p ∷ ps) h =
    omega (arith, length-append p.running (served ps), length-served ps h.1, h.0.held, h.0.few)

-- What a step of a port leaves true of it.
pub record Moved (p p' : Port) : Type 0 where
  pub admitted : IsAdmitted p'
  pub same_limit : p'.max_conn ≡ p.max_conn

-- After a step that serves no line the port still serves all sessions that it served.
abbrev pub Serves : Port → Option Port → Type 0
Serves p none = Unit
Serves p (some p') = Moved p p' × ((x : ℕ) → times x p.running ≤ times x p'.running)

pub accept_conn-Serves : (sid : ℕ) (p : Port) → IsAdmitted p → Serves p (accept_conn sid p)
unfolding accept_conn
accept_conn-Serves sid p h = ground arith

pub send-Serves : (p : Port) → IsAdmitted p → Serves p (send p)
unfolding send
send-Serves p h = ground arith

pub receive-Serves : (p : Port) → IsAdmitted p → Serves p (receive p)
unfolding receive
receive-Serves p h = ground arith

pub Serves-some :
    (p p' : Port) (o : Option Port)
    → Serves p o
    → o ≡ some p'
    → Moved p p' × ((x : ℕ) → times x p.running ≤ times x p'.running)
Serves-some p p' o h e = subst (λ (x : Option Port). Serves p x) e h
