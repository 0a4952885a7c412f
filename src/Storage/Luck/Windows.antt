-- ===== src/Storage/Luck/Windows.antt =====
-- CollectLuckStats of storage/redis.go against a summary of the newest blocks.
use xmrpool.Common.{
  ℕ, zero, suc, ◌+◌, ◌-◌, ◌^◌, ◌<◌, ◌≡◌, refl, sym, ap, ◌∙◌, Bool, true, false, List, [], ◌∷◌, ◌++◌,
  map, append-nil, append_assoc, ltb, leb, if◌then◌else◌, length, take, length-take, take-all, All,
  arith, Bool-cases, inl, inr,
}
use xmrpool.Common.Ints.{ℤ, pos, ◌+ℤ◌, ◌-ℤ◌, ltb_ℤ, int_laws}
use xmrpool.Common.Words.{wrap64, wrap64_id}
use xmrpool.Common.Texts.{Bytes}
use xmrpool.Common.Numbers.{format_int}
use xmrpool.Storage.Types.{BlockData}
use xmrpool.Storage.Luck.{LuckRow, no_luck, count_block, luck_from, calc_luck, luck_rows}

abbrev pub count_of : (BlockData → Bool) → List BlockData → ℕ
count_of f [] = 0
count_of f (b ∷ bs) = let rest = count_of f bs in if f b then suc rest else rest

-- A row for all of these blocks.
abbrev pub summary : List BlockData → LuckRow
summary blocks = record {
  total = pos (length blocks);
  shares_diff = map (λ b. (b.total_shares, b.difficulty)) blocks;
  uncles = pos (count_of (λ b. b.uncle) blocks);
  orphans = pos (count_of (λ b. b.orphan) blocks);
}

-- The windows up to the first one that is larger than the number of blocks.
abbrev pub up_to_unfilled : ℕ → List ℕ → List ℕ
up_to_unfilled n [] = []
up_to_unfilled n (w ∷ ws) = let rest = up_to_unfilled n ws in w ∷ (if ltb n w then [] else rest)

abbrev sum_rows : LuckRow → LuckRow → LuckRow
sum_rows r s = record {
  total = r.total +ℤ s.total;
  shares_diff = r.shares_diff ++ s.shares_diff;
  uncles = r.uncles +ℤ s.uncles;
  orphans = r.orphans +ℤ s.orphans;
}

row_of : ℤ → List (ℤ × ℤ) → ℤ → ℤ → LuckRow
row_of total shares_diff uncles orphans = record {
  total = total;
  shares_diff = shares_diff;
  uncles = uncles;
  orphans = orphans;
}

same_row :
    (t t' : ℤ) (d d' : List (ℤ × ℤ)) (u u' o o' : ℤ)
    → t ≡ t'
    → d ≡ d'
    → u ≡ u'
    → o ≡ o'
    → row_of t d u o ≡ row_of t' d' u' o'
same_row t t' d d' u u' o o' p q r s = rw (p, q, r, s) refl

last_index : (w i : ℕ) → w < 2 ^ 63 → ltb_ℤ (wrap64 (pos w -ℤ pos 1)) (pos i) ≡ leb w i
last_index zero i h = rw (wrap64_id (pos 0 -ℤ pos 1) (grind int_laws)) (grind int_laws)
last_index (suc w) i h =
    let is : pos (suc w) -ℤ pos 1 ≡ pos w = grind int_laws in
    rw (is, wrap64_id (pos w) (omega arith)) (ground arith)

one_more :
    (b : Bool) (x : ℤ) (n : ℕ)
    → (if b then x +ℤ pos 1 else x) +ℤ pos n ≡ x +ℤ pos (if b then suc n else n)
one_more true x n = grind int_laws
one_more false x n = refl

sum_rows-count :
    (b : BlockData) (bs : List BlockData) (r : LuckRow)
    → sum_rows (count_block b r) (summary bs) ≡ sum_rows r (summary (b ∷ bs))
unfolding row_of
sum_rows-count b bs r =
    same_row _ _ _ _ _ _ _ _ (one_more true r.total (length bs))
      (append_assoc r.shares_diff ((b.total_shares, b.difficulty) ∷ [])
        (map (λ x. (x.total_shares, x.difficulty)) bs))
      (one_more b.uncle r.uncles (count_of (λ x. x.uncle) bs))
      (one_more b.orphan r.orphans (count_of (λ x. x.orphan) bs))

sum_rows-nothing : (r : LuckRow) → sum_rows r (summary []) ≡ r
unfolding row_of
sum_rows-nothing r =
    same_row _ r.total _ r.shares_diff _ r.uncles _ r.orphans (grind int_laws)
      (append-nil r.shares_diff) (grind int_laws) (grind int_laws)

luck_from-summary :
    (w i : ℕ) (blocks : List BlockData) (r : LuckRow)
    → w < 2 ^ 63
    → luck_from (pos w) (pos i) blocks r ≡ sum_rows r (summary (take (w - i) blocks))
unfolding luck_from
luck_from-summary w i [] r h =
    rw (take-all {A = BlockData} (w - i) [] (omega arith)) (sym (sum_rows-nothing r))
luck_from-summary w i (b ∷ blocks) r h = elim (Bool-cases (leb w i)) [
  | inl over ↦
      (let none_left : w - i ≡ 0 = ground arith in
        rw (last_index w i h, over, none_left) (sym (sum_rows-nothing r)))
  | inr within ↦
      (let one_less : w - i ≡ suc (w - (i + 1)) = ground arith in
        let next : pos i +ℤ pos 1 ≡ pos (i + 1) = grind int_laws in
        rw (last_index w i h, within, one_less, next)
          (luck_from-summary w (i + 1) blocks (count_block b r) h
            ∙ sum_rows-count b (take (w - (i + 1)) blocks) r))
]

sum_rows-first : (bs : List BlockData) → sum_rows no_luck (summary bs) ≡ summary bs
unfolding row_of
sum_rows-first bs = same_row _ _ _ _ _ _ _ _ (grind int_laws) refl (grind int_laws) (grind int_laws)

calc_luck-summary :
    (w : ℕ) (blocks : List BlockData)
    → w < 2 ^ 63
    → calc_luck blocks (pos w) ≡ summary (take w blocks)
unfolding calc_luck
calc_luck-summary w blocks h =
    luck_from-summary w 0 blocks no_luck h
    ∙ sum_rows-first (take (w - 0) blocks)
    ∙ ap (λ (n : ℕ). summary (take n blocks)) (omega arith)

abbrev pub row_for : List BlockData → ℕ → Bytes × LuckRow
row_for blocks w = let row = summary (take w blocks) in (format_int row.total, row)

-- For windows that are int64 and not negative, CollectLuckStats makes one row for each window up to the first that
-- is larger than the number of blocks, and none after it; the row of a window summarises that many of
-- the newest blocks, or all where there are fewer: their number, under which it is kept, the quotients
-- of their shares and difficulties in order, and how many are uncles and orphans.
pub luck_rows-windows :
    (blocks : List BlockData) (windows : List ℕ)
    → All (λ w. w < 2 ^ 63) windows
    → luck_rows blocks (map pos windows)
      ≡ map (row_for blocks) (up_to_unfilled (length blocks) windows)
unfolding luck_rows
luck_rows-windows blocks [] h = refl
luck_rows-windows blocks (w ∷ windows) h =
    let tested : ltb_ℤ (pos (length (take w blocks))) (pos w) ≡ ltb (length blocks) w =
      ground (arith, length-take w blocks) in
    let row = calc_luck-summary w blocks h.0 in
    elim (Bool-cases (ltb (length blocks) w)) [
      | inl unfilled ↦ rw (row, tested ∙ unfilled, unfilled) refl
      | inr full ↦ rw (row, tested ∙ full, full, luck_rows-windows blocks windows h.1) refl
    ]
