-- ===== src/Storage/Books.antt =====
-- storage/redis.go: the fields of the miners and of the pool's finances, summed up.
pub mod Payments
pub mod Credits
mod Blocks
pub mod Queues
pub mod Undo
pub mod Taken
use xmrpool.Common.{
  sym, Option-cases, inl, inr, ◌≡◌, refl, Bool, true, false, ◌&&◌, ◌||◌, List, [], ◌∷◌, ◌++◌,
  if◌then◌else◌, arith, Bool-cases, append_assoc,
}
use xmrpool.Common.Ints.{ℤ, pos, ◌+ℤ◌, int_laws}
use xmrpool.Common.Texts.{Bytes, codes, bytes_eq}
use xmrpool.Common.Strings.{starts_with, starts_with-append, bytes_eq-append, join_parts}
use xmrpool.Storage.Types.{Arg, text, join, render, format_key, format_round}
use xmrpool.Storage.Redis.{Command, h_incr_by, net, rewrites, rewrites_one, amount_at}
use xmrpool.Storage.Payments.{miner_key, finances_key}

-- The hashes of the miners, and the one of the finances.
unfoldable pub is_miner : Bytes → Bytes → Bool
is_miner prefix key = starts_with key (prefix ++ codes ":miners:")

unfoldable pub is_finances : Bytes → Bytes → Bool
is_finances prefix key = bytes_eq key (prefix ++ codes ":finances")

-- The fields that both of them keep.
pub data Account : Type 0 where
  balance : Account
  pending : Account
  paid : Account
  immature : Account

abbrev pub field_of : Account → Bytes
field_of balance = codes "balance"
field_of pending = codes "pending"
field_of paid = codes "paid"
field_of immature = codes "immature"

pub zero_add : (x : ℤ) → x ≡ pos 0 +ℤ x
zero_add x = grind int_laws

pub add_assoc : (x y z : ℤ) → x +ℤ y +ℤ z ≡ x +ℤ (y +ℤ z)
add_assoc x y z = grind int_laws

-- Every key is recognised by what follows the prefix.
pub is_miner-format_key :
    (prefix : Bytes) (args : List Arg)
    → is_miner prefix (format_key prefix args) ≡ starts_with (join args) (codes "miners:")
unfolding is_miner format_key join_parts render join
is_miner-format_key prefix args =
    rw (starts_with-append prefix (b':' ∷ join args) (codes ":miners:")) refl

pub is_finances-format_key :
    (prefix : Bytes) (args : List Arg)
    → is_finances prefix (format_key prefix args) ≡ bytes_eq (join args) (codes "finances")
unfolding is_finances format_key join_parts render join
is_finances-format_key prefix args =
    rw (bytes_eq-append prefix (b':' ∷ join args) (codes ":finances")) refl

-- A queue leaves no field of an account set or dropped, and adds the same to both sides.
unfoldable pub IsBalanced : Bytes → List Command → Type 0
IsBalanced prefix cs =
    (a : Account)
    → (rewrites (is_miner prefix) (field_of a) cs ≡ false)
      × (rewrites (is_finances prefix) (field_of a) cs ≡ false)
      × (net (is_miner prefix) (field_of a) cs ≡ net (is_finances prefix) (field_of a) cs)

pub to-IsBalanced :
    (prefix : Bytes) (cs : List Command)
    → ((a : Account)
        → (rewrites (is_miner prefix) (field_of a) cs ≡ false)
          × (rewrites (is_finances prefix) (field_of a) cs ≡ false)
          × (net (is_miner prefix) (field_of a) cs ≡ net (is_finances prefix) (field_of a) cs))
    → IsBalanced prefix cs
unfolding IsBalanced
to-IsBalanced prefix cs h = h

pub net-append :
    (at : Bytes → Bool) (field : Bytes) (xs ys : List Command)
    → net at field (xs ++ ys) ≡ net at field xs +ℤ net at field ys
unfolding net
net-append at field [] ys = zero_add (net at field ys)
net-append at field (c ∷ xs) ys = elim (Option-cases (amount_at at field c)) [
  | inl e ↦ rw (e, net-append at field xs ys) refl
  | inr (n, e) ↦
      rw (e, net-append at field xs ys) (sym (add_assoc n (net at field xs) (net at field ys)))
]

pub rewrites-append :
    (at : Bytes → Bool) (field : Bytes) (xs ys : List Command)
    → rewrites at field (xs ++ ys) ≡ (rewrites at field xs || rewrites at field ys)
unfolding rewrites
rewrites-append at field [] ys = refl
rewrites-append at field (c ∷ xs) ys = elim (Bool-cases (rewrites_one at field c)) [
  | inl e ↦ rw e refl
  | inr e ↦ rw (e, rewrites-append at field xs ys) refl
]

-- Queues one behind the other.
pub append-IsBalanced :
    (prefix : Bytes) (xs ys : List Command)
    → IsBalanced prefix xs
    → IsBalanced prefix ys
    → IsBalanced prefix (xs ++ ys)
unfolding IsBalanced
append-IsBalanced prefix xs ys hx hy a =
    let (mx, fx, ex) = hx a in
    let (my, fy, ey) = hy a in
    (
      rw (rewrites-append (is_miner prefix) (field_of a) xs ys, mx, my) refl,
      rw (rewrites-append (is_finances prefix) (field_of a) xs ys, fx, fy) refl,
      rw
          (
            net-append (is_miner prefix) (field_of a) xs ys,
            net-append (is_finances prefix) (field_of a) xs ys,
            ex,
            ey,
          )
          refl,
    )

pub is_miner-miner_key : (prefix login : Bytes) → is_miner prefix (miner_key prefix login) ≡ true
unfolding join join_parts render
is_miner-miner_key prefix login = simp is_miner-format_key

pub is_finances-miner_key :
    (prefix login : Bytes) → is_finances prefix (miner_key prefix login) ≡ false
unfolding join join_parts render
is_finances-miner_key prefix login = simp is_finances-format_key

pub is_miner-finances_key : (prefix : Bytes) → is_miner prefix (finances_key prefix) ≡ false
unfolding join join_parts render
is_miner-finances_key prefix = simp is_miner-format_key

pub is_finances-finances_key : (prefix : Bytes) → is_finances prefix (finances_key prefix) ≡ true
unfolding join join_parts render
is_finances-finances_key prefix = simp is_finances-format_key
