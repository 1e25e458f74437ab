-- ===== src/Tui/FileBrowser/Typing.antt =====
-- What Enter does behind a typed name, in the Save mode of the file browser.
use tekflash.Common.{
  ℕ, ◌≡◌, ◌∙◌, refl, true, false, List, [], ◌∷◌, ◌++◌, Option, none, some, Text, arith, ap,
}
use tekflash.Tui.FileBrowser.Defs.{FileSystem, saving, Entry, FileBrowser, picked, save_row}
use tekflash.Tui.FileBrowser.Ops.{
  listing, focus_save_here, focused, accept_char, composed_save_name, enter_row, enter_focused,
  is_valid_input_char, is_nil,
}
use tekflash.Tui.FileBrowser.Ops.{compose}
use tekflash.Tui.FileBrowser.Invariant.{WellFormed}

is_nil-snoc : (s : Text) (c : ℕ) → is_nil (s ++ c ∷ []) ≡ false
is_nil-snoc [] c = refl
is_nil-snoc (d ∷ s) c = refl

is_nil-compose : (s : Text) (ext : Option Text) → is_nil s ≡ false → is_nil (compose s ext) ≡ false
unfolding compose
is_nil-compose [] ext h = h
is_nil-compose (c ∷ s) none h = refl
is_nil-compose (c ∷ s) (some []) h = refl
is_nil-compose (c ∷ s) (some (x ∷ ext)) h = ground arith

-- The first row of a Save listing.
focused_top :
    (fs : FileSystem) (b : FileBrowser) (real : List Entry)
    → b.mode ≡ saving
    → b.entries ≡ listing saving b.cwd real
    → b.selected ≡ 0
    → focused b ≡ some (save_row b.cwd)
unfolding listing focused
focused_top fs b real m e s = ground arith

enter_top :
    (fs : FileSystem) (b : FileBrowser)
    → focused b ≡ some (save_row b.cwd)
    → is_nil (composed_save_name b) ≡ false
    → (enter_focused fs b).1 ≡ picked (composed_save_name b ∷ b.cwd)
unfolding enter_focused enter_row save_row
enter_top fs b h n = ground arith

accept_eq :
    (b : FileBrowser) (c : ℕ) (real : List Entry)
    → b.entries ≡ listing saving b.cwd real
    → b.mode ≡ saving
    → is_valid_input_char c ≡ true
    → accept_char b c ≡ record b { save_name = b.save_name ++ c ∷ []; selected = 0 }
unfolding accept_char focus_save_here listing save_row
accept_eq b c real e m v = ground arith

enter_typed :
    (fs : FileSystem) (b : FileBrowser) (c : ℕ) (real : List Entry)
    → b.entries ≡ listing saving b.cwd real
    → b.mode ≡ saving
    → (enter_focused fs (record b { save_name = b.save_name ++ c ∷ []; selected = 0 })).1
      ≡ picked (composed_save_name (record b { save_name = b.save_name ++ c ∷ [] }) ∷ b.cwd)
unfolding composed_save_name
enter_typed fs b c real e m =
    enter_top fs (record b { save_name = b.save_name ++ c ∷ []; selected = 0 })
      (focused_top fs (record b { save_name = b.save_name ++ c ∷ []; selected = 0 }) real m e refl)
      (unfold composed_save_name in
        is_nil-compose (b.save_name ++ c ∷ []) b.desired_extension (is_nil-snoc b.save_name c))

saving_rows :
    (b : FileBrowser)
    → WellFormed b
    → b.mode ≡ saving
    → (real : List Entry) × (b.entries ≡ listing saving b.cwd real)
unfolding WellFormed
saving_rows b h m = (h.0.0, h.0.1 ∙ ap (λ mode. listing mode b.cwd h.0.0) m)

-- In Save mode, Enter behind a typed character that is valid picks the composed name in the
-- directory that is shown, wherever the cursor was.
pub enter_focused-accept_char :
    (fs : FileSystem) (b : FileBrowser) (c : ℕ)
    → WellFormed b
    → b.mode ≡ saving
    → is_valid_input_char c ≡ true
    → (enter_focused fs (accept_char b c)).1
      ≡ picked (composed_save_name (record b { save_name = b.save_name ++ c ∷ [] }) ∷ b.cwd)
enter_focused-accept_char fs b c h m v =
    let (real, e) = saving_rows b h m in
    ap (λ b'. (enter_focused fs b').1) (accept_eq b c real e m v) ∙ enter_typed fs b c real e m
