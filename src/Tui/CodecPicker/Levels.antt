-- ===== src/Tui/CodecPicker/Levels.antt =====
-- The levels of the codec picker stay in the ranges of its table, and what the encoders make of them.
use tekflash.Common.{
  ℕ, zero, suc, ◌+◌, ◌-◌, ◌/◌, ◌≤◌, ◌<◌, ◌≡◌, refl, Bool, true, false, List, [], ◌∷◌, arith,
  if◌then◌else◌, length, get_or, set, pos,
}
use tekflash.Pipeline.Compress.{
  Codec, none, zstd, lz4, brotli, xz, gzip, bzip2, encoder, EncoderChoice, plain, lz4_frame,
  zstd_level, brotli_quality, xz_preset, gzip_level, bzip2_level,
}
use tekflash.Tui.Action.{Action}
use tekflash.Tui.CodecPicker.{
  CodecPicker, CodecChoice, codec_table, no_compression, new, move_up, move_down, level_up,
  level_down, jump_max, jump_min, current, current_level, picked,
}

-- One level for each row, within the row's bounds.
unfoldable pub Levels : List CodecChoice → List ℕ → Type 0
Levels [] [] = Unit
Levels [] (l ∷ ls) = ⊥
Levels (c ∷ cs) [] = ⊥
Levels (c ∷ cs) (l ∷ ls) = (c.min_level ≤ l) × (l ≤ c.max_level) × Levels cs ls

unfoldable pub WellFormed : CodecPicker → Type 0
WellFormed p = (p.cursor < length codec_table) × Levels codec_table p.levels

Levels-set :
    (cs : List CodecChoice) (ls : List ℕ) (i v : ℕ)
    → Levels cs ls
    → (get_or cs i no_compression).min_level ≤ v
    → v ≤ (get_or cs i no_compression).max_level
    → Levels cs (set ls i v)
unfolding Levels
Levels-set [] [] i v h lo hi = h
Levels-set [] (l ∷ ls) i v h lo hi = elim h [ ]
Levels-set (c ∷ cs) [] i v h lo hi = elim h [ ]
Levels-set (c ∷ cs) (l ∷ ls) zero v h lo hi = (lo, hi, h.2)
Levels-set (c ∷ cs) (l ∷ ls) (suc i) v h lo hi = (h.0, h.1, Levels-set cs ls i v h.2 lo hi)

Levels-get_or :
    (cs : List CodecChoice) (ls : List ℕ) (i : ℕ)
    → Levels cs ls
    → i < length cs
    → ((get_or cs i no_compression).min_level ≤ get_or ls i 0)
      × (get_or ls i 0 ≤ (get_or cs i no_compression).max_level)
unfolding Levels
Levels-get_or [] [] i h lt = ground arith
Levels-get_or [] (l ∷ ls) i h lt = elim h [ ]
Levels-get_or (c ∷ cs) [] i h lt = elim h [ ]
Levels-get_or (c ∷ cs) (l ∷ ls) zero h lt = (h.0, h.1)
Levels-get_or (c ∷ cs) (l ∷ ls) (suc i) h lt = Levels-get_or cs ls i h.2 (ground arith)

-- The keys of the picker.
pub data Move : Type 0 where
  up down higher lower maximum minimum : Move

unfoldable pub move : Move → CodecPicker → CodecPicker
unfolding move_up move_down level_up level_down jump_max jump_min
move up p = move_up p
move down p = move_down p
move higher p = level_up p
move lower p = level_down p
move maximum p = jump_max p
move minimum p = jump_min p

-- A new picker is well-formed: its cursor is on a row of the table and every level is within the
-- bounds of its row.
pub new-WellFormed : (a : Action) (i : ℕ) → WellFormed (new a i)
unfolding WellFormed new Levels
new-WellFormed a i = ground arith

-- The level under the cursor is within the bounds of the codec there.
pub current_level-in_bounds :
    (p : CodecPicker)
    → WellFormed p
    → ((current p).min_level ≤ current_level p) × (current_level p ≤ (current p).max_level)
unfolding WellFormed current current_level
current_level-in_bounds p h = Levels-get_or codec_table p.levels p.cursor h.1 h.0

-- Another level for the codec under the cursor.
with_level-WellFormed :
    (p : CodecPicker) (v : ℕ)
    → WellFormed p
    → (current p).min_level ≤ v
    → v ≤ (current p).max_level
    → WellFormed (record p { levels = set p.levels p.cursor v })
unfolding WellFormed current
with_level-WellFormed p v h lo hi = (h.0, Levels-set codec_table p.levels p.cursor v h.1 lo hi)

table_bounds :
    (i : ℕ)
    → (get_or codec_table i no_compression).min_level
      ≤ (get_or codec_table i no_compression).max_level
table_bounds i = ground arith

WellFormed-if :
    (b : Bool) (q p : CodecPicker)
    → (b ≡ true → WellFormed q)
    → WellFormed p
    → WellFormed (if b then q else p)
WellFormed-if true q p hq hp = hq refl
WellFormed-if false q p hq hp = hp

-- Every key of the picker keeps it well-formed, so that no key moves the cursor out of the table or
-- a level out of the bounds of its codec.
pub move-WellFormed : (m : Move) (p : CodecPicker) → WellFormed p → WellFormed (move m p)
unfolding move move_up move_down level_up level_down jump_max jump_min
move-WellFormed up p h = unfold WellFormed in ground arith
move-WellFormed down p h = unfold WellFormed in ground arith
move-WellFormed higher p h =
    WellFormed-if _ _ p
      (λ b.
        with_level-WellFormed p (current_level p + 1) h
          (ground (arith, current_level-in_bounds p h)) (ground arith))
      h
move-WellFormed lower p h =
    WellFormed-if _ _ p
      (λ b.
        with_level-WellFormed p (current_level p - 1) h (ground arith)
          (ground (arith, current_level-in_bounds p h)))
      h
move-WellFormed maximum p h =
    with_level-WellFormed p _ h (unfold current in table_bounds p.cursor) (ground arith)
move-WellFormed minimum p h =
    with_level-WellFormed p _ h (ground arith) (unfold current in table_bounds p.cursor)

-- What the encoder of a codec is set to when nothing has to be clamped.
abbrev pub unclamped : Codec → ℕ → EncoderChoice
unclamped none l = plain
unclamped zstd l = zstd_level (pos l)
unclamped lz4 l = lz4_frame
unclamped brotli l = brotli_quality (l / 2)
unclamped xz l = xz_preset l
unclamped gzip l = gzip_level l
unclamped bzip2 l = bzip2_level l

row_encoder :
    (i l : ℕ)
    → l ≤ (get_or codec_table i no_compression).max_level
    → encoder (get_or codec_table i no_compression).codec (record { level = pos l })
      ≡ unclamped (get_or codec_table i no_compression).codec l
unfolding encoder
row_encoder i l h = ground arith

-- No encoder clamps the level that a well-formed picker hands on: zstd, xz, gzip and bzip2 get the
-- level itself. Brotli gets half of it, so that its highest level, 11, sets quality 5.
pub encoder-picked :
    (p : CodecPicker)
    → WellFormed p
    → encoder (picked p).0 (picked p).1 ≡ unclamped (current p).codec (current_level p)
unfolding picked
encoder-picked p h =
    unfold current in
    row_encoder p.cursor (current_level p) (unfold current in (current_level-in_bounds p h).1)
