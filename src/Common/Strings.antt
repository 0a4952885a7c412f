-- ===== src/Common/Strings.antt =====
-- `strings.Split` and `strings.Join` at a colon, and prefixes of byte strings.
use xmrpool.Common.Tests.{◌==◌, if◌then◌else◌}
use xmrpool.Common.Lists.{All}
use xmrpool.Common.Texts.{Bytes, bytes_eq}
use Prim.Native.Nat.{ℕ}
use mathlib.Core.Path.{◌≡◌, refl}
use mathlib.Core.Bool.{Bool, true, false, ◌&&◌}
use mathlib.Core.List.{List, [], ◌∷◌, ◌++◌, append_assoc}
use native.Mathlib.Omega.{arith}

-- A byte in front of the first part.
abbrev pub push_front : ℕ → List Bytes → List Bytes
push_front c [] = (c ∷ []) ∷ []
push_front c (p ∷ ps) = (c ∷ p) ∷ ps

unfoldable pub split : Bytes → List Bytes
split [] = [] ∷ []
split (c ∷ s) = let rest = split s in if c == b':' then [] ∷ rest else push_front c rest

unfoldable pub join_parts : List Bytes → Bytes
join_parts [] = []
join_parts (p ∷ []) = p
join_parts (p ∷ q ∷ ps) = p ++ b':' ∷ join_parts (q ∷ ps)

-- No colon.
abbrev pub IsPart : Bytes → Type 0
IsPart = All (λ c. (c == b':') ≡ false)

split-part : (p : Bytes) → IsPart p → split p ≡ p ∷ []
unfolding split
split-part [] h = refl
split-part (c ∷ p) (hc, h) = rw (hc, split-part p h) refl

split-part-colon : (p s : Bytes) → IsPart p → split (p ++ b':' ∷ s) ≡ p ∷ split s
unfolding split
split-part-colon [] s h = refl
split-part-colon (c ∷ p) s (hc, h) = rw (hc, split-part-colon p s h) refl

pub split-join_parts :
    (p : Bytes) (ps : List Bytes) → All IsPart (p ∷ ps) → split (join_parts (p ∷ ps)) ≡ p ∷ ps
unfolding join_parts
split-join_parts p [] (h, hs) = split-part p h
split-join_parts p (q ∷ ps) (h, hs) =
    rw (split-part-colon p (join_parts (q ∷ ps)) h, split-join_parts q ps hs) refl

abbrev pub starts_with : Bytes → Bytes → Bool
starts_with s [] = true
starts_with [] (c ∷ p) = false
starts_with (d ∷ s) (c ∷ p) = d == c && starts_with s p

pub starts_with-append : (p s q : Bytes) → starts_with (p ++ s) (p ++ q) ≡ starts_with s q
starts_with-append [] s q = refl
starts_with-append (c ∷ p) s q = ground (arith, starts_with-append p s q)

pub bytes_eq-append : (p s q : Bytes) → bytes_eq (p ++ s) (p ++ q) ≡ bytes_eq s q
bytes_eq-append [] s q = refl
bytes_eq-append (c ∷ p) s q = ground (arith, bytes_eq-append p s q)

join_parts-append :
    (p : Bytes) (s : Bytes) (ps : List Bytes)
    → join_parts ((p ++ s) ∷ ps) ≡ p ++ join_parts (s ∷ ps)
unfolding join_parts
join_parts-append p s [] = refl
join_parts-append p s (q ∷ qs) = append_assoc p s (b':' ∷ join_parts (q ∷ qs))

join_parts-cons :
    (p q : Bytes) (qs : List Bytes) → join_parts (p ∷ q ∷ qs) ≡ p ++ b':' ∷ join_parts (q ∷ qs)
unfolding join_parts
join_parts-cons p q qs = refl

-- Joining a list whose first part is itself joined.
pub join_parts-nested :
    (p : Bytes) (ps : List Bytes) (qs : List Bytes)
    → join_parts (join_parts (p ∷ ps) ∷ qs) ≡ join_parts (p ∷ ps ++ qs)
join_parts-nested p [] qs = unfold join_parts in refl
join_parts-nested p (r ∷ ps) qs =
    rw
      (
        join_parts-cons p r ps,
        join_parts-append p (b':' ∷ join_parts (r ∷ ps)) qs,
        join_parts-append (b':' ∷ []) (join_parts (r ∷ ps)) qs,
        join_parts-nested r ps qs,
        join_parts-cons p r (ps ++ qs),
      )
      refl
