-- ===== src/Stratum/Connections/Seats.antt =====
-- Sessions that are registered, counted against those that are served.
use xmrpool.Common.{
  ℕ, suc, ◌+◌, ◌≤◌, ◌≡◌, refl, true, false, List, [], ◌∷◌, ◌++◌, ◌==◌, if◌then◌else◌, length, arith,
}
use xmrpool.Stratum.Refresh.{remove_session}
use xmrpool.Stratum.Handlers.{is_active}

abbrev pub times : ℕ → List ℕ → ℕ
times x [] = 0
times x (y ∷ ys) = let rest = times x ys in if y == x then suc rest else rest

-- Every session of the first list has a place of its own in the second.
abbrev pub Within : List ℕ → List ℕ → Type 0
Within live sessions = (x : ℕ) → times x sessions ≤ times x live

pub times-append : (x : ℕ) (xs ys : List ℕ) → times x (xs ++ ys) ≡ times x xs + times x ys
times-append x [] ys = omega arith
times-append x (y ∷ xs) ys = ground (arith, times-append x xs ys)

pub times-remove_session : (x s : ℕ) (ss : List ℕ) → times x (remove_session s ss) ≤ times x ss
times-remove_session x s [] = omega arith
times-remove_session x s (y ∷ ss) = ground (arith, times-remove_session x s ss)

pub times-remove_self : (s : ℕ) (ss : List ℕ) → times s (remove_session s ss) ≡ 0
times-remove_self s [] = refl
times-remove_self s (y ∷ ss) = ground (arith, times-remove_self s ss)

pub times-inactive : (s : ℕ) (ss : List ℕ) → is_active s ss ≡ false → times s ss ≡ 0
times-inactive s [] e = refl
times-inactive s (y ∷ ss) e = ground (arith, times-inactive s ss)

-- One occurrence taken out.
abbrev take_out : ℕ → List ℕ → List ℕ
take_out x [] = []
take_out x (y ∷ ys) = let rest = take_out x ys in if y == x then ys else y ∷ rest

times-take_out_self :
    (x : ℕ) (ys : List ℕ) → 1 ≤ times x ys → suc (times x (take_out x ys)) ≡ times x ys
times-take_out_self x [] h = absurd (omega arith)
times-take_out_self x (y ∷ ys) h = ground (arith, times-take_out_self x ys)

times-take_out_other :
    (x z : ℕ) (ys : List ℕ) → (z == x) ≡ false → times z (take_out x ys) ≡ times z ys
times-take_out_other x z [] h = refl
times-take_out_other x z (y ∷ ys) h = ground (arith, times-take_out_other x z ys)

length-take_out : (x : ℕ) (ys : List ℕ) → 1 ≤ times x ys → suc (length (take_out x ys)) ≡ length ys
length-take_out x [] h = absurd (omega arith)
length-take_out x (y ∷ ys) h = ground (arith, length-take_out x ys)

Within-take_out :
    (x : ℕ) (sessions live : List ℕ)
    → Within live (x ∷ sessions)
    → Within (take_out x live) sessions
Within-take_out x sessions live h z =
    ground (arith, h x, h z, times-take_out_self x live, times-take_out_other x z live)

-- There are at most as many.
pub Within-length : (sessions live : List ℕ) → Within live sessions → length sessions ≤ length live
Within-length [] live h = omega arith
Within-length (x ∷ sessions) live h =
    let rest = Within-length sessions (take_out x live) (Within-take_out x sessions live h) in
    ground (arith, h x, length-take_out x live, rest)

-- A session that is registered is served.
pub Within-remove_session :
    (live : List ℕ) (s : ℕ) (ss : List ℕ) → Within live ss → Within live (remove_session s ss)
Within-remove_session live s ss h x = omega (arith, h x, times-remove_session x s ss)

pub Within-register :
    (live : List ℕ) (s : ℕ) (ss : List ℕ)
    → 1 ≤ times s live
    → is_active s ss ≡ false
    → Within live ss
    → Within live (s ∷ ss)
Within-register live s ss served fresh h x = ground (arith, h x, times-inactive s ss)

pub times-active : (s : ℕ) (ss : List ℕ) → is_active s ss ≡ true → 1 ≤ times s ss
times-active s [] e = cc
times-active s (y ∷ ss) e = ground (arith, times-active s ss)

pub active-times : (s : ℕ) (ss : List ℕ) → 1 ≤ times s ss → is_active s ss ≡ true
active-times s [] h = absurd (omega arith)
active-times s (y ∷ ss) h = ground (arith, active-times s ss)

pub is_active-remove_session : (s : ℕ) (ss : List ℕ) → is_active s (remove_session s ss) ≡ false
is_active-remove_session s [] = refl
is_active-remove_session s (y ∷ ss) = ground (arith, is_active-remove_session s ss)
