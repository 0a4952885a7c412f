-- ===== src/Blocktemplate/VarInt/Decode.antt =====
-- `UnPackVarInt` on any input, and on what `PackVarInt` wrote.
use xmrpool.Common.{
  ℕ, zero, suc, ◌+◌, ◌*◌, ◌/◌, ◌%◌, ◌^◌, ◌≤◌, ◌<◌, ◌≡◌, refl, ap, ◌∙◌, [], ◌∷◌, ◌++◌, append_assoc,
  arith, ltb, if◌then◌else◌, All,
}
use xmrpool.Common.Masks.{low_seven}
use xmrpool.Common.Words.{u64, IsU64}
use xmrpool.Common.Texts.{Bytes}
use xmrpool.Blocktemplate.Wire.{ok, err, eof}
use xmrpool.Blocktemplate.VarInt.{read_groups, sum_groups, unpack_var_int}
use xmrpool.Blocktemplate.VarInt.Encoding.{leb128, var_int_bytes}
use native.Mathlib.Numerals.{towards_suc}

-- The number that a list of groups of seven bits stands for, with no bound on its size.
unfoldable pub group_value : Bytes → ℕ
group_value [] = 0
group_value (g ∷ gs) = g + 128 * group_value gs

next_shift : (i : ℕ) → 2 ^ ((i + 1) * 7) ≡ 128 * 2 ^ (i * 7)
next_shift i =
    let e : (i + 1) * 7 ≡ i * 7 + 7 = omega arith in rw e (simp towards_suc (omega arith))

sum_groups-group_value :
    (gs : Bytes) (i r : ℕ) → r < 2 ^ 64 → sum_groups i r gs ≡ u64 (r + group_value gs * 2 ^ (i * 7))
unfolding sum_groups group_value
sum_groups-group_value [] i r h = omega arith
sum_groups-group_value (g ∷ gs) i r h =
    sum_groups-group_value gs (i + 1) (u64 (r + u64 (g * 2 ^ (i * 7)))) (omega arith)
    ∙ omega (arith, ap (λ (t : ℕ). group_value gs * t) (next_shift i))

sum_groups_from_zero : (gs : Bytes) → sum_groups 0 0 gs ≡ u64 (group_value gs)
sum_groups_from_zero gs = omega (arith, sum_groups-group_value gs 0 0 (omega arith))

-- The groups that stand in continuation bytes `cs` and a last byte `z`, and their number.
abbrev pub groups : Bytes → ℕ → Bytes
groups [] z = z ∷ []
groups (c ∷ cs) z = c % 128 ∷ groups cs z

abbrev pub Continues : ℕ → Type 0
Continues b = 128 ≤ b

read_groups-groups :
    (cs : Bytes) (z : ℕ) (rest : Bytes)
    → All Continues cs
    → z < 128
    → read_groups (cs ++ (z ∷ rest)) ≡ ok (groups cs z, rest)
unfolding read_groups
read_groups-groups [] z rest h hz = ground (arith, low_seven z)
read_groups-groups (c ∷ cs) z rest (hc, h) hz =
    ground (arith, low_seven c, read_groups-groups cs z rest h hz)

read_groups_eof : (cs : Bytes) → All Continues cs → read_groups cs ≡ err eof
unfolding read_groups
read_groups_eof [] h = refl
read_groups_eof (c ∷ cs) (hc, h) = ground (arith, read_groups_eof cs h)

-- Continuation bytes followed by a last byte decode to the sum of their groups of seven bits,
-- modulo 2 ^ 64, whatever the number of bytes; and the rest is left unread.
pub unpack_var_int-groups :
    (cs : Bytes) (z : ℕ) (rest : Bytes)
    → All Continues cs
    → z < 128
    → unpack_var_int (cs ++ (z ∷ rest)) ≡ ok (u64 (group_value (groups cs z)), rest)
unfolding unpack_var_int
unpack_var_int-groups cs z rest h hz =
    rw (read_groups-groups cs z rest h hz) (rw sum_groups_from_zero refl)

-- A number without a last byte is an end of file.
pub unpack_var_int_eof : (cs : Bytes) → All Continues cs → unpack_var_int cs ≡ err eof
unfolding unpack_var_int
unpack_var_int_eof cs h = rw (read_groups_eof cs h)

-- The continuation bytes and the last byte of the encoding.
front : ℕ → ℕ → Bytes
front zero v = []
front (suc k) v = let more = front k (v / 128) in if ltb v 128 then [] else (v % 128 + 128) ∷ more

last : ℕ → ℕ → ℕ
last zero v = v
last (suc k) v = let more = last k (v / 128) in if ltb v 128 then v else more

record Split (k v : ℕ) : Type 0 where
  parts : leb128 k v ≡ front k v ++ (last k v ∷ [])
  continues : All Continues (front k v)
  ends : last k v < 128
  value : group_value (groups (front k v) (last k v)) ≡ v

leb128-Split : (k v : ℕ) → v < 128 ^ suc k → Split k v
unfolding leb128 front last group_value
leb128-Split zero v h = record {
  parts = refl;
  continues = tt;
  ends = omega arith;
  value = omega arith;
}
leb128-Split (suc k) v h = ground (arith, leb128-Split k (v / 128) (omega arith))

-- Unpacking what was packed gives the uint64 back and leaves what follows.
pub unpack_var_int-var_int_bytes :
    (v : ℕ) (rest : Bytes) → IsU64 v → unpack_var_int (var_int_bytes v ++ rest) ≡ ok (v, rest)
unfolding var_int_bytes
unpack_var_int-var_int_bytes v rest h =
    let s : Split 9 v = leb128-Split 9 v (omega arith) in
    rw (s.parts, append_assoc (front 9 v) (last 9 v ∷ []) rest)
      (unpack_var_int-groups (front 9 v) (last 9 v) rest s.continues s.ends
        ∙ ap (λ (x : ℕ). ok (x, rest)) (omega (arith, s.value)))
