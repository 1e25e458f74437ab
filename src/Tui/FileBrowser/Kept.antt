-- ===== src/Tui/FileBrowser/Kept.antt =====
-- What the operations of crates/tekflash/src/tui/views/file_browser.rs keep of a browser's rows and of its
-- cursor, for any property of the rows that `refresh` sets up.
use tekflash.Common.{
  ℕ, ◌<◌, ◌≡◌, refl, Bool, true, false, not, List, [], ◌∷◌, ◌++◌, Option, none, some, Text, arith,
  if◌then◌else◌, length, position, position-lt, FilePath, parent,
}
use tekflash.Tui.FileBrowser.Defs.{
  FileSystem, BrowseMode, opening, saving, Entry, EntryKind, normal, parent_row, save_here,
  FileBrowser, EnterResult, picked, nothing, is_save, is_save_here, or_else, read_dir, sort,
  entry_le,
}
use tekflash.Tui.FileBrowser.Ops.{
  listing, refresh, focus_save_here, open_with_extension, focused, move_up, move_down, select_match,
  apply_filter, accept_char, backspace, composed_save_name, enter_dir, go_parent, enter_row,
  enter_focused, toggle_hidden, toggle_all_types, update_focus_preview, init, is_nil,
}

-- The operations that a key calls.
pub data Operation : Type 0 where
  up down left enter hidden all_types preview back : Operation
  typed : ℕ → Operation

unfoldable pub operate : FileSystem → Operation → FileBrowser → FileBrowser
unfolding move_up move_down go_parent enter_focused toggle_hidden toggle_all_types
    update_focus_preview backspace accept_char
operate fs up b = move_up b
operate fs down b = move_down b
operate fs left b = go_parent fs b
operate fs enter b = (enter_focused fs b).0
operate fs hidden b = toggle_hidden fs b
operate fs all_types b = toggle_all_types fs b
operate fs preview b = update_focus_preview fs b
operate fs back b = (backspace b).0
operate fs (typed c) b = accept_char b c

-- The rows have the property, and the cursor is on one of them.
unfoldable pub Holds :
    (List Entry → BrowseMode → FilePath → Bool → Bool → Type 0) → FileBrowser → Type 0
Holds P b =
    P b.entries b.mode b.cwd b.show_hidden b.show_all_types × (b.selected < length b.entries)

listing_nonempty :
    (mode : BrowseMode) (cwd : FilePath) (real : List Entry) → 0 < length (listing mode cwd real)
unfolding listing
listing_nonempty saving cwd real = ground arith
listing_nonempty opening cwd real = ground arith

or_else_lt : (o : Option ℕ) (i n : ℕ) → ((j : ℕ) → o ≡ some j → j < n) → i < n → or_else o i < n
or_else_lt none i n h lt = lt
or_else_lt (some j) i n h lt = h j refl

focus_save_here-selected :
    (b : FileBrowser)
    → b.selected < length b.entries
    → (focus_save_here b).selected < length b.entries
unfolding focus_save_here
focus_save_here-selected b h = ground (
  arith,
  or_else_lt (position is_save_here b.entries) b.selected (length b.entries)
      (position-lt is_save_here b.entries) h,
)

module _ (fs : FileSystem) (P : List Entry → BrowseMode → FilePath → Bool → Bool → Type 0)
    (refreshed : (b : FileBrowser)
      → P
          (listing b.mode b.cwd
            (sort (entry_le b.show_all_types) (read_dir fs b.cwd b.show_hidden)))
          b.mode
          b.cwd
          b.show_hidden
          b.show_all_types) where
  refresh-Holds : (b : FileBrowser) → Holds P (refresh fs b)
  unfolding Holds refresh
  refresh-Holds b = (
    refreshed b,
    ground (
      arith,
      listing_nonempty b.mode b.cwd
          (sort (entry_le b.show_all_types) (read_dir fs b.cwd b.show_hidden)),
    ),
  )

  -- Only the cursor and fields that the invariant does not read have changed.
  same_rows :
      (b b' : FileBrowser)
      → b'.entries ≡ b.entries
      → b'.mode ≡ b.mode
      → b'.cwd ≡ b.cwd
      → b'.show_hidden ≡ b.show_hidden
      → b'.show_all_types ≡ b.show_all_types
      → b'.selected < length b.entries
      → Holds P b
      → Holds P b'
  unfolding Holds
  same_rows b b' he hm hc hh ha lt (p, h) = (rw (he, hm, hc, hh, ha) p, ground (arith, he, lt))

  focus_save_here-Holds : (b : FileBrowser) → Holds P b → Holds P (focus_save_here b)
  unfolding focus_save_here
  focus_save_here-Holds b h =
      same_rows b (focus_save_here b) (ground arith) (ground arith) (ground arith) (ground arith)
        (ground arith) (unfold Holds in focus_save_here-selected b h.1) h

  select_match-Holds :
      (b : FileBrowser) (o o' : Option ℕ)
      → ((j : ℕ) → o ≡ some j → j < length b.entries)
      → ((j : ℕ) → o' ≡ some j → j < length b.entries)
      → Holds P b
      → Holds P (select_match b o o')
  unfolding Holds select_match
  select_match-Holds b (some p) o' h h' w = (w.0, h p refl)
  select_match-Holds b none (some p) h h' w = (w.0, h' p refl)
  select_match-Holds b none none h h' w = w

  Holds-if :
      (t : Bool) (b b' : FileBrowser) → Holds P b → Holds P b' → Holds P (if t then b else b')
  Holds-if true b b' h h' = h
  Holds-if false b b' h h' = h'

  apply_filter-Holds : (b : FileBrowser) → Holds P b → Holds P (apply_filter b)
  unfolding apply_filter
  apply_filter-Holds b h =
      Holds-if _ b _ h
        (select_match-Holds b _ _ (position-lt _ b.entries) (position-lt _ b.entries) h)

  Holds-fst :
      {R : Type 0} (t : Bool) (r r' : FileBrowser × R)
      → Holds P r.0
      → Holds P r'.0
      → Holds P (if t then r else r').0
  Holds-fst true r r' h h' = h
  Holds-fst false r r' h h' = h'

  accept_char-Holds : (b : FileBrowser) (c : ℕ) → Holds P b → Holds P (accept_char b c)
  unfolding accept_char
  accept_char-Holds b c h = Holds-if _ b _ h (
      Holds-if (is_save b.mode) _ _
        (focus_save_here-Holds (record b { save_name = b.save_name ++ c ∷ [] }) (unfold Holds in h))
        (apply_filter-Holds (record b { filter = b.filter ++ c ∷ [] }) (unfold Holds in h)))

  backspace-Holds : (b : FileBrowser) → Holds P b → Holds P (backspace b).0
  unfolding backspace
  backspace-Holds b h =
      Holds-fst (is_save b.mode) _ _
        (Holds-fst (is_nil b.save_name) (b, false) (record b { save_name = init b.save_name }, true)
          h (unfold Holds in h))
        (Holds-fst (is_nil b.filter) (b, false) _ h
          (Holds-fst (is_nil (init b.filter)) (record b { filter = init b.filter }, true)
            (apply_filter (record b { filter = init b.filter }), true) (unfold Holds in h)
            (apply_filter-Holds (record b { filter = init b.filter }) (unfold Holds in h))))

  move_up-Holds : (b : FileBrowser) → Holds P b → Holds P (move_up b)
  unfolding move_up
  move_up-Holds b h =
      same_rows b (move_up b) (ground arith) (ground arith) (ground arith) (ground arith)
        (ground arith) (unfold Holds in ground arith) h

  move_down-Holds : (b : FileBrowser) → Holds P b → Holds P (move_down b)
  unfolding move_down
  move_down-Holds b h =
      same_rows b (move_down b) (ground arith) (ground arith) (ground arith) (ground arith)
        (ground arith) (unfold Holds in ground arith) h

  enter_dir-Holds : (dir : FilePath) (b : FileBrowser) → Holds P (enter_dir fs dir b)
  unfolding enter_dir
  enter_dir-Holds dir b =
      focus_save_here-Holds _ (refresh-Holds (record b { cwd = dir; selected = 0; filter = [] }))

  go_parent-Holds : (b : FileBrowser) → Holds P b → Holds P (go_parent fs b)
  unfolding go_parent
  go_parent-Holds b h =
      elim (parent b.cwd) as (λ o. Holds P (elim o [ none ↦ b | some dir ↦ enter_dir fs dir b ])) [
        | none ↦ h
        | some dir ↦ enter_dir-Holds dir b
      ]

  enter_row-Holds :
      (b : FileBrowser) (k : EntryKind) (e : Entry) → Holds P b → Holds P (enter_row fs b k e).0
  unfolding enter_row
  enter_row-Holds b parent_row e h = go_parent-Holds b h
  enter_row-Holds b save_here e h =
      Holds-fst (is_nil (composed_save_name b)) (b, nothing)
        (b, picked (composed_save_name b ∷ b.cwd)) h h
  enter_row-Holds b normal e h = Holds-fst e.is_dir _ _ (enter_dir-Holds e.path b) (
      Holds-fst (is_save b.mode) (record b { save_name = e.name }, picked e.path) (b, picked e.path)
        (unfold Holds in h) h)

  enter_focused-Holds : (b : FileBrowser) → Holds P b → Holds P (enter_focused fs b).0
  unfolding enter_focused
  enter_focused-Holds b h =
      elim (focused b)
        as (λ o.
          Holds P
            (elim o as (λ o. FileBrowser × EnterResult) [
              | none ↦ (b, nothing)
              | some e ↦ enter_row fs b e.kind e
            ]).0) [ none ↦ h | some e ↦ enter_row-Holds b e.kind e h ]

  update_focus_preview-Holds : (b : FileBrowser) → Holds P b → Holds P (update_focus_preview fs b)
  unfolding update_focus_preview Holds
  update_focus_preview-Holds b h = h

  pub open_with_extension-Holds :
      (dir : FilePath) (mode : BrowseMode) (ext : Option Text)
      → Holds P (open_with_extension fs dir mode ext)
  unfolding open_with_extension
  open_with_extension-Holds dir mode ext = focus_save_here-Holds _ (
      refresh-Holds (record {
        cwd = or_else (fs.canonicalize dir) dir;
        mode = mode;
        entries = [];
        selected = 0;
        show_hidden = false;
        show_all_types = false;
        focused_magic = none;
        save_name = [];
        desired_extension = ext;
        filter = [];
      }))

  pub operate-Holds : (op : Operation) (b : FileBrowser) → Holds P b → Holds P (operate fs op b)
  unfolding operate toggle_hidden toggle_all_types
  operate-Holds up b h = move_up-Holds b h
  operate-Holds down b h = move_down-Holds b h
  operate-Holds left b h = go_parent-Holds b h
  operate-Holds enter b h = enter_focused-Holds b h
  operate-Holds hidden b h = refresh-Holds (record b { show_hidden = not b.show_hidden })
  operate-Holds all_types b h = refresh-Holds (record b { show_all_types = not b.show_all_types })
  operate-Holds preview b h = update_focus_preview-Holds b h
  operate-Holds back b h = backspace-Holds b h
  operate-Holds (typed c) b h = accept_char-Holds b c h
