-- ===== src/Tui/Views/BlockMap/Cells.antt =====
-- Where a cell of the block map stands to the bytes that have been read.
use native.Mathlib.Nat.{div-lt_iff_lt-mul, le-div_iff_mul-le, mul-div-le}
use tekflash.Common.{
  ℕ, zero, suc, ◌+◌, ◌-◌, ◌*◌, ◌/◌, ◌≤◌, ◌<◌, min, max, ◌≡◌, ◌∙◌, ap, true, false, List, Option,
  none, some, ltb, leb, ◌==◌, if◌then◌else◌, get_elem?, arith, trichotomy, ==_refl, inl, inr,
  lt→ltb,
}
use tekflash.Tui.Views.BlockMap.{
  Cell, full, partial, empty, Grid, cols_of, bytes_per_cell_of, bucket_of, cell_at, row_from,
  rows_from, block_map,
}

-- The cell of the `k`-th share of a source of which `bytes_in` bytes are read.
pub share : (bytes_in per_cell k : ℕ) → Cell
share bytes_in per_cell k =
    if leb ((k + 1) * per_cell) bytes_in
    then full
    else if leb (k * per_cell) bytes_in
    then partial (4 * (bytes_in - k * per_cell) / per_cell)
    else empty

le→leb : (a b : ℕ) → a ≤ b → leb a b ≡ true
le→leb a b h = ground arith

lt→not_leb : (a b : ℕ) → b < a → leb a b ≡ false
lt→not_leb a b h = ground arith

le→not_ltb : (a b : ℕ) → b ≤ a → ltb a b ≡ false
le→not_ltb a b h = ground arith

lt→not_== : (a b : ℕ) → b < a → (a == b) ≡ false
lt→not_== a b h = ground arith

quarter : (x d : ℕ) → x < d → 4 * x / d ≤ 3
quarter x d h =
    let e : 4 * x < 4 * d = omega arith in
    let q = div-lt_iff_lt-mul {k = d} {x = 4 * x} {y = 4} (omega arith) in omega (arith, q.1 e)

cell_at-share :
    (bytes_in per_cell cells k : ℕ)
    → 0 < per_cell
    → k < cells
    → cell_at bytes_in per_cell (min (bytes_in / per_cell) cells) k ≡ share bytes_in per_cell k
unfolding cell_at bucket_of share
cell_at-share bytes_in per_cell cells k p h =
    let q = bytes_in / per_cell in
    let more = le-div_iff_mul-le {k = per_cell} {x = k + 1} {y = bytes_in} p in
    let some_of = le-div_iff_mul-le {k = per_cell} {x = k} {y = bytes_in} p in
    let less =
      λ (y : ℕ) (l : q < y). (div-lt_iff_lt-mul {k = per_cell} {x = bytes_in} {y = y} p).0 l in
    let next : (k + 1) * per_cell ≡ k * per_cell + per_cell = grind arith in
    elim (trichotomy k q) [
      | inl lt ↦
          let f : k < min q cells = omega arith in
          let g : (k + 1) * per_cell ≤ bytes_in = more.0 (omega arith) in
          rw (lt→ltb _ _ f, le→leb _ _ g)
      | inr (inl e) ↦
          let m : min q cells ≡ k = omega arith in
          let u : bytes_in < (k + 1) * per_cell = less (k + 1) (omega arith) in
          let v : k * per_cell ≤ bytes_in = some_of.0 (omega arith) in
          let w : 4 * (bytes_in - k * per_cell) / per_cell ≤ 3 =
            quarter (bytes_in - k * per_cell) per_cell (omega arith) in
          rw (m, le→not_ltb k k (omega arith), ==_refl k, lt→not_leb _ _ u, le→leb _ _ v)
            (ap partial (omega arith))
      | inr (inr gt) ↦
          let m : min q cells ≡ q = omega arith in
          let u : bytes_in < k * per_cell = less k gt in
          let v : bytes_in < (k + 1) * per_cell = omega arith in
          rw (m, le→not_ltb k q (omega arith), lt→not_== k q gt, lt→not_leb _ _ v, lt→not_leb _ _ u)
    ]

module _ (bytes_in per_cell filled : ℕ) where
  row_from_lem :
      (cols idx c : ℕ)
      → c < cols
      → get_elem? (row_from bytes_in per_cell filled cols idx) c
        ≡ some (cell_at bytes_in per_cell filled (idx + c))
  unfolding row_from
  row_from_lem zero idx c h = absurd (omega arith)
  row_from_lem (suc cols) idx zero h =
      ap (λ i. some (cell_at bytes_in per_cell filled i)) (omega arith)
  row_from_lem (suc cols) idx (suc c) h =
      row_from_lem cols (suc idx) c (omega arith)
      ∙ ap (λ i. some (cell_at bytes_in per_cell filled i)) (omega arith)

  rows_from_lem :
      (cols rows idx r : ℕ)
      → r < rows
      → get_elem? (rows_from bytes_in per_cell filled cols rows idx) r
        ≡ some (row_from bytes_in per_cell filled cols (idx + r * cols))
  unfolding rows_from
  rows_from_lem cols zero idx r h = absurd (omega arith)
  rows_from_lem cols (suc rows) idx zero h =
      ap (λ i. some (row_from bytes_in per_cell filled cols i)) (omega arith)
  rows_from_lem cols (suc rows) idx (suc r) h =
      rows_from_lem cols rows (idx + cols) r (omega arith)
      ∙ ap (λ i. some (row_from bytes_in per_cell filled cols i)) (grind arith)

abbrev element : Option (List Cell) → ℕ → Option Cell
element none c = none
element (some line) c = get_elem? line c

-- The cell in row `r` and column `c`.
abbrev pub drawn : Option Grid → (r c : ℕ) → Option Cell
drawn none r c = none
drawn (some g) r c = element (get_elem? g.lines r) c

cell_below : (r c cols rows : ℕ) → r < rows → c < cols → r * cols + c < cols * rows
cell_below r c cols rows h k = grind arith

per_cell-pos : (total cells : ℕ) → 0 < bytes_per_cell_of total cells
unfolding bytes_per_cell_of
per_cell-pos total cells = omega arith

-- Row by row, each cell of the map shows its own share of the source: full where all of the share's
-- bytes are read, in quarters where the read has come into it, and empty else.
pub block_map-share :
    (width height total bytes_in r c : ℕ)
    → r < height
    → c < cols_of width
    → drawn (block_map width height (some total) bytes_in) r c
      ≡ some (
          share bytes_in (bytes_per_cell_of total (cols_of width * height)) (r * cols_of width + c))
unfolding block_map
block_map-share width height total bytes_in r c h k =
    let cols = cols_of width in
    let per_cell = bytes_per_cell_of total (cols * height) in
    let filled = min (bytes_in / per_cell) (cols * height) in
    ap (λ line. element line c) (rows_from_lem bytes_in per_cell filled cols height 0 r h)
    ∙ row_from_lem bytes_in per_cell filled cols (0 + r * cols) c k
    ∙ ap (λ i. some (cell_at bytes_in per_cell filled (i + c))) (omega arith)
    ∙ ap some (
        cell_at-share bytes_in per_cell (cols * height) (r * cols + c)
          (per_cell-pos total (cols * height)) (cell_below r c cols height h k))

share-full :
    (total cells k : ℕ)
    → k < cells
    → cells ≤ total
    → share total (bytes_per_cell_of total cells) k ≡ full
unfolding share bytes_per_cell_of
share-full total cells k h e =
    let q = total / cells in
    let m : max cells 1 ≡ cells = omega arith in
    let one : 1 ≤ q =
      (le-div_iff_mul-le {k = cells} {x = 1} {y = total} (omega arith)).1 (omega arith) in
    let n : max q 1 ≡ q = omega arith in
    let most : cells * q ≤ total = mul-div-le total cells in
    let fits : (k + 1) * q ≤ cells * q = grind arith in
    rw (m, n, le→leb ((k + 1) * q) total (omega arith))

-- Where the source has a byte for each cell and is read to its end, every cell is full.
pub block_map-full :
    (width height total r c : ℕ)
    → cols_of width * height ≤ total
    → r < height
    → c < cols_of width
    → drawn (block_map width height (some total) total) r c ≡ some full
block_map-full width height total r c e h k =
    block_map-share width height total total r c h k
    ∙ ap some (
        share-full total (cols_of width * height) (r * cols_of width + c)
          (cell_below r c (cols_of width) height h k) e)
