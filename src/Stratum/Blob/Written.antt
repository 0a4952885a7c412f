-- ===== src/Stratum/Blob/Written.antt =====
-- `copy` into a slice of a buffer, as stratum/blocks.go and stratum/miner.go use it: what it overwrites.
use xmrpool.Common.{
  ℕ, ◌+◌, ◌-◌, ◌≤◌, ◌≡◌, refl, sym, ap, ◌∙◌, ◌&&◌, Option, none, some, ◌++◌, append_assoc, arith,
  leb, length, take, drop, length-append, length-take, length-drop, take-append, drop-append,
  take-append-drop, drop-append_le, drop-drop, take-all, Bool-cases, inl, inr,
}
use xmrpool.Common.Texts.{Bytes}
use xmrpool.Stratum.Blob.{copy_over, copy_range, copy_from, and_then}

-- `after` is `before` with `bs` written at `lo`: of the same length, the same in front of `lo` and
-- from `lo + length bs` on.
pub record Written (before : Bytes) (lo : ℕ) (bs after : Bytes) : Type 0 where
  pub fits : lo + length bs ≤ length before
  pub whole : after ≡ take lo before ++ (bs ++ drop (lo + length bs) before)

-- Cutting n bytes off and dropping fewer from them.
drop-take :
    (m n : ℕ) (ys : Bytes) → m ≤ n → n ≤ length ys → drop m (take n ys) ++ drop n ys ≡ drop m ys
drop-take m n ys h k =
    sym (drop-append_le m (take n ys) (drop n ys) (omega (arith, length-take n ys)))
    ∙ ap (drop m) (take-append-drop n ys)

copy_over-short :
    (dst src : Bytes) → length src ≤ length dst → copy_over dst src ≡ src ++ drop (length src) dst
copy_over-short dst src h = rw (take-all (length dst) src h) refl

pub record InRange (dst : Bytes) (lo hi : ℕ) : Type 0 where
  pub low : lo ≤ hi
  pub high : hi ≤ length dst

unsome : {A : Type 0} {a b : A} → some a ≡ some b → a ≡ b
unsome e = cc e

pub copy_range-some :
    (dst : Bytes) (lo hi : ℕ) (src after : Bytes)
    → copy_range dst lo hi src ≡ some after
    → InRange dst lo hi
      × (take lo dst ++ (copy_over (take (hi - lo) (drop lo dst)) src ++ drop hi dst) ≡ after)
unfolding copy_range
copy_range-some dst lo hi src after e = elim (Bool-cases (leb lo hi && leb hi (length dst))) [
  | inl good ↦ (ground arith, unsome (rw good at e))
  | inr bad ↦ ground arith
]

pub copy_range-Written :
    (dst : Bytes) (lo hi : ℕ) (src after : Bytes)
    → length src ≤ hi - lo
    → copy_range dst lo hi src ≡ some after
    → Written dst lo src after
copy_range-Written dst lo hi src after h e =
    let (range, whole) = copy_range-some dst lo hi src after e in
    let room = hi - lo in
    let tail = drop lo dst in
    let enough : room ≤ length tail = omega (arith, length-drop lo dst, range.low, range.high) in
    let behind : drop hi dst ≡ drop room tail =
      ap (λ (k : ℕ). drop k dst) (omega (arith, range.low)) ∙ sym (drop-drop room lo dst) in
    let kept : drop (length src) (take room tail) ++ drop hi dst ≡ drop (lo + length src) dst =
      ap (◌++◌ (drop (length src) (take room tail))) behind
      ∙ drop-take (length src) room tail h enough
      ∙ drop-drop (length src) lo dst in
    record {
      fits = omega (arith, range.low, range.high);
      whole =
          sym whole
          ∙ ap (λ (x : Bytes). take lo dst ++ (x ++ drop hi dst))
              (copy_over-short (take room tail) src (omega (arith, length-take room tail)))
          ∙ ap (◌++◌ (take lo dst)) (
              append_assoc src (drop (length src) (take room tail)) (drop hi dst)
              ∙ ap (◌++◌ src) kept);
    }

pub length-Written :
    {before after bs : Bytes} {lo : ℕ} → Written before lo bs after → length after ≡ length before
length-Written {before} {after} {bs} {lo} w =
    ap length w.whole
    ∙ omega (
      arith,
      length-append (take lo before) (bs ++ drop (lo + length bs) before),
      length-append bs (drop (lo + length bs) before),
      length-take lo before,
      length-drop (lo + length bs) before,
      w.fits,
    )

-- Two writes side by side are one.
pub Written-append :
    {a b c x y : Bytes} {lo : ℕ}
    → Written a lo x b
    → Written b (lo + length x) y c
    → Written a lo (x ++ y) c
Written-append {a} {b} {c} {x} {y} {lo} p q =
    let front = take lo a ++ x in
    let rest = drop (lo + length x) a in
    let size : length front ≡ lo + length x =
      omega (arith, length-append (take lo a) x, length-take lo a, p.fits) in
    let b_is : b ≡ front ++ rest = p.whole ∙ sym (append_assoc (take lo a) x rest) in
    let head : take (lo + length x) b ≡ front =
      ap (take (lo + length x)) b_is
      ∙ ap (λ (k : ℕ). take k (front ++ rest)) (sym size)
      ∙ take-append front rest in
    let tail : drop (lo + length x) b ≡ rest =
      ap (drop (lo + length x)) b_is
      ∙ ap (λ (k : ℕ). drop k (front ++ rest)) (sym size)
      ∙ drop-append front rest in
    let far : drop (lo + length x + length y) b ≡ drop (lo + length (x ++ y)) a =
      sym (drop-drop (length y) (lo + length x) b)
      ∙ ap (drop (length y)) tail
      ∙ drop-drop (length y) (lo + length x) a
      ∙ ap (λ (k : ℕ). drop k a) (omega (arith, length-append x y)) in
    record {
      fits = omega (arith, length-append x y, length-Written p, q.fits);
      whole =
          q.whole
          ∙ ap (λ (z : Bytes). z ++ (y ++ drop (lo + length x + length y) b)) head
          ∙ ap (λ (z : Bytes). front ++ (y ++ z)) far
          ∙ append_assoc (take lo a) x (y ++ drop (lo + length (x ++ y)) a)
          ∙ ap (◌++◌ (take lo a)) (sym (append_assoc x y (drop (lo + length (x ++ y)) a)));
    }

pub and_then-some :
    {A : Type 0} (o : Option Bytes) (f : Bytes → Option A) (a : A)
    → and_then o f ≡ some a
    → ((b : Bytes) × (o ≡ some b) × (f b ≡ some a))
and_then-some none f a e = ground arith
and_then-some (some b) f a e = (b, refl, e)

length-copy_over : (dst src : Bytes) → length (copy_over dst src) ≡ length dst
length-copy_over dst src = omega (
  arith,
  length-append (take (length dst) src) (drop (length src) dst),
  length-take (length dst) src,
  length-drop (length src) dst,
)

pub length-copy_range :
    (dst : Bytes) (lo hi : ℕ) (src after : Bytes)
    → copy_range dst lo hi src ≡ some after
    → length after ≡ length dst
length-copy_range dst lo hi src after e =
    let (range, whole) = copy_range-some dst lo hi src after e in
    let part = take (hi - lo) (drop lo dst) in
    ap length (sym whole)
    ∙ omega (
      arith,
      length-append (take lo dst) (copy_over part src ++ drop hi dst),
      length-append (copy_over part src) (drop hi dst),
      length-copy_over part src,
      length-take (hi - lo) (drop lo dst),
      length-drop lo dst,
      length-take lo dst,
      length-drop hi dst,
      range.low,
      range.high,
    )

pub copy_from-Written :
    (dst : Bytes) (lo : ℕ) (src after : Bytes)
    → lo + length src ≤ length dst
    → copy_from dst lo src ≡ some after
    → Written dst lo src after
unfolding copy_from
copy_from-Written dst lo src after h e =
    copy_range-Written dst lo (length dst) src after (omega (arith, h)) e
