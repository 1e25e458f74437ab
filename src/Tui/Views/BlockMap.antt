-- ===== src/Tui/Views/BlockMap.antt =====
-- `render_block_map` of crates/tekflash/src/tui/views/progress.rs: the grid of cells that shows how much
-- of the source has been read. The area inside the border is its width and height; what is drawn round
-- the grid is left out.
pub mod Cells
use tekflash.Common.{
  ℕ, zero, suc, ◌+◌, ◌-◌, ◌*◌, ◌/◌, min, max, Bool, List, [], ◌∷◌, Option, none, some, ltb, leb,
  ◌==◌, if◌then◌else◌,
}

-- The shades of a cell, and how far the read has come into the current one, in quarters.
pub data Cell : Type 0 where
  full : Cell
  partial : (bucket : ℕ) → Cell
  empty : Cell

pub record Grid : Type 0 where
  pub cols : ℕ
  pub rows : ℕ
  pub bytes_per_cell : ℕ
  pub lines : List (List Cell)

unfoldable pub cols_of : (width : ℕ) → ℕ
cols_of width = max (width / 2) 1

unfoldable pub bytes_per_cell_of : (total cells : ℕ) → ℕ
bytes_per_cell_of total cells = max (total / max cells 1) 1

-- The quotient of two doubles times 4 and cut to an integer is that of the whole numbers, for cells
-- below 2 ^ 51 bytes.
unfoldable pub bucket_of : (into per_cell : ℕ) → ℕ
bucket_of into per_cell = min (4 * into / per_cell) 3

module _ (bytes_in per_cell filled : ℕ) where
  unfoldable pub cell_at : ℕ → Cell
  unfolding bucket_of
  cell_at idx =
      if ltb idx filled
      then full
      else if idx == filled
      then partial (bucket_of (bytes_in - filled * per_cell) per_cell)
      else empty

  -- The loop over the columns of a row from the cell `idx` on.
  unfoldable pub row_from : (cols : ℕ) → (idx : ℕ) → List Cell
  unfolding cell_at
  row_from zero idx = []
  row_from (suc cols) idx = cell_at idx ∷ row_from cols (suc idx)

  unfoldable pub rows_from : (cols rows : ℕ) → (idx : ℕ) → List (List Cell)
  unfolding row_from
  rows_from cols zero idx = []
  rows_from cols (suc rows) idx = row_from cols idx ∷ rows_from cols rows (idx + cols)

-- No grid where the size of the source is not known.
unfoldable pub block_map : (width height : ℕ) → Option ℕ → (bytes_in : ℕ) → Option Grid
unfolding cols_of bytes_per_cell_of rows_from
block_map width height none bytes_in = none
block_map width height (some total) bytes_in =
    let cols = cols_of width in
    let cells = cols * height in
    let per_cell = bytes_per_cell_of total cells in
    let filled = min (bytes_in / per_cell) cells in
    some (record {
      cols = cols;
      rows = height;
      bytes_per_cell = per_cell;
      lines = rows_from bytes_in per_cell filled cols height 0;
    })
