-- ===== src/Stratum/Runs.antt =====
-- Reading a finished run backwards, and what the small calls on the state leave alone.
use xmrpool.Common.{suc, ◌≡◌, refl, sym, ap, ◌∙◌, Option, none, some, arith, Option-cases, inl, inr}
use mathlib.Core.Path.{subst}
use xmrpool.Common.Texts.{Bytes}
use xmrpool.Stratum.MinersMap.{MinersMap, get, set}
use xmrpool.Stratum.Types.{Miner, Env, World, Run, returned, crashed, ◌>>=◌, ◌>>◌, or_crash}
use xmrpool.Stratum.Share.{on_miner, heartbeat}

abbrev pub continue : {A B : Type 0} → (A → World → Run B) → Run A → Run B
continue f r = elim r [ returned a w ↦ f a w | crashed ↦ crashed ]

continue-returned :
    {A B : Type 0} (f : A → World → Run B) (r : Run A) (b : B) (w' : World)
    → continue f r ≡ returned b w'
    → ((a : A) × (w : World) × (r ≡ returned a w) × (f a w ≡ returned b w'))
continue-returned f (returned a w) b w' e = (a, w, refl, e)
continue-returned f crashed b w' e = ground arith

-- A bind that returns: its first part returned, and its rest did from there.
pub bind-returned :
    {A B : Type 0} (m : World → Run A) (f : A → World → Run B) (w : World) (b : B) (w' : World)
    → (m >>= f) w ≡ returned b w'
    → ((a : A) × (w1 : World) × (m w ≡ returned a w1) × (f a w1 ≡ returned b w'))
bind-returned m f w b w' e = continue-returned f (m w) b w' e

-- A bind whose first part is known to return.
pub bind-run :
    {A B : Type 0} (m : World → Run A) (f : A → World → Run B) (w : World) (a : A) (w1 : World)
    → m w ≡ returned a w1
    → (m >>= f) w ≡ f a w1
bind-run m f w a w1 e = ap (continue f) e

-- What holds of a call that returns.
abbrev pub Ends : {A : Type 0} → (A → World → Type 0) → Run A → Type 0
Ends Q (returned a w) = Q a w
Ends Q crashed = Unit

pub Ends-returned :
    {A : Type 0} (Q : A → World → Type 0) (r : Run A) (a : A) (w : World)
    → Ends Q r
    → r ≡ returned a w
    → Q a w
Ends-returned {A} Q r a w h e = subst (λ (x : Run A). Ends Q x) e h

pub Ends-all :
    {A : Type 0} (Q : A → World → Type 0) (r : Run A) → ((a : A) (w : World) → Q a w) → Ends Q r
Ends-all Q (returned a w) k = k a w
Ends-all Q crashed k = tt

pub Ends-weaken :
    {A : Type 0} (Q R : A → World → Type 0) (r : Run A)
    → ((a : A) (w : World) → Q a w → R a w)
    → Ends Q r
    → Ends R r
Ends-weaken Q R (returned a w) k h = k a w h
Ends-weaken Q R crashed k h = tt

continue-Ends :
    {A B : Type 0} (Q : A → World → Type 0) (R : B → World → Type 0) (f : A → World → Run B)
    (r : Run A)
    → Ends Q r
    → ((a : A) (w1 : World) → Q a w1 → Ends R (f a w1))
    → Ends R (continue f r)
continue-Ends Q R f (returned a w) h k = k a w h
continue-Ends Q R f crashed h k = tt

pub bind-Ends :
    {A B : Type 0} (Q : A → World → Type 0) (R : B → World → Type 0) (m : World → Run A)
    (f : A → World → Run B) (w : World)
    → Ends Q (m w)
    → ((a : A) (w1 : World) → Q a w1 → Ends R (f a w1))
    → Ends R ((m >>= f) w)
bind-Ends Q R m f w h k = continue-Ends Q R f (m w) h k

pub or_crash-returned :
    {A : Type 0} (o : Option A) (w : World) (a : A) (w' : World)
    → or_crash o w ≡ returned a w'
    → (o ≡ some a) × (w' ≡ w)
or_crash-returned none w a w' e = ground arith
or_crash-returned (some x) w a w' e = (cc e, cc e)

-- A bind on a value that may be missing, and that returns: the value was there.
pub found-returned :
    {A B : Type 0} (o : Option A) (f : A → World → Run B) (w : World) (b : B) (w' : World)
    → (or_crash o >>= f) w ≡ returned b w'
    → ((a : A) × (o ≡ some a) × (f a w ≡ returned b w'))
found-returned none f w b w' e = ground arith
found-returned (some x) f w b w' e = (x, refl, e)

pub on_miner-keeps :
    (key : Bytes) (f : Miner → Miner) (w : World)
    → ((ms : MinersMap Miner) × (on_miner key f w ≡ returned tt (record w { miners = ms })))
on_miner-keeps key f w = elim (Option-cases (get key w.miners)) [
  | inl missing ↦ (w.miners, rw missing refl)
  | inr (m, there) ↦ (set key (f m) w.miners, rw there refl)
]

pub heartbeat-keeps :
    (env : Env) (key : Bytes) (w : World)
    → ((ms : MinersMap Miner) × (heartbeat env key w
          ≡ returned tt (record w { ticks = suc w.ticks; miners = ms })))
heartbeat-keeps env key w =
    on_miner-keeps key (λ m. record m { last_beat = env.make_timestamp w.ticks })
      (record w { ticks = suc w.ticks })

-- A call whose outcome is known, in front of the rest.
pub after-returned :
    {B : Type 0} (m : World → Run (Unit {0})) (k : World → Run B) (w w1 : World) (r : Run B)
    → m w ≡ returned tt w1
    → (m >> k) w ≡ r
    → k w1 ≡ r
after-returned m k w w1 r p q = sym (ap (continue (λ u. k)) p) ∙ q

pub return-after :
    {B : Type 0} (m : World → Run (Unit {0})) (k : World → Run B) (w w1 : World) (r : Run B)
    → m w ≡ returned tt w1
    → k w1 ≡ r
    → (m >> k) w ≡ r
return-after m k w w1 r p q = ap (continue (λ u. k)) p ∙ q

-- A value that is there, in front of the rest.
pub bind-found :
    {A B : Type 0} (o : Option A) (f : A → World → Run B) (w : World) (a : A)
    → o ≡ some a
    → (or_crash o >>= f) w ≡ f a w
bind-found {A} o f w a e = ap (λ (x : Option A). (or_crash x >>= f) w) e
