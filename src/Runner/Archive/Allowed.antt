-- ===== src/Runner/Archive/Allowed.antt =====
-- What `walk_and_archive` of crates/tekflash/src/tui/progress_runner.rs appends and sends on every
-- tree.
use tekflash.Common.{
  ℕ, ◌≡◌, refl, Bool, true, false, List, [], ◌∷◌, ◌++◌, Option, any, arith, Text, FilePath,
}
use tekflash.Archive.Selection.{ArchiveSelection}
use tekflash.Pipeline.Hasher.{HashCrates}
use tekflash.Runner.Progress.{BackupEvent, tick, is_last}
use tekflash.Runner.Worker.{Display}
use tekflash.Runner.Archive.Tree.{Node, is_system_metadata, relative, keeps}
use tekflash.Runner.Archive.Walk.{TarHost, Walk, walk_and_archive}
use tekflash.Runner.Archive.Kept.{walk_and_archive-Keeps}

pub any-append_tick :
    (es : List BackupEvent) (n o : ℕ) (f g : Option Text)
    → any is_last es ≡ false
    → any is_last (es ++ tick n o f g ∷ []) ≡ false
any-append_tick [] n o f g h = refl
any-append_tick (e ∷ es) n o f g h = ground (arith, any-append_tick es n o f g)

module _ (c : HashCrates) (tar : TarHost) (d : Display) {G : Type 0}
    (is_match : G → FilePath → Bool) (sel : Option (ArchiveSelection G)) (due : FilePath → Bool)
    (base : FilePath) where
  -- The walk appends only entries that the selection keeps and that are no metadata of the system's,
  -- on every tree and with a builder that may fail: what holds of the builder and is kept by every
  -- append of such an entry holds of it when the walk is over.
  pub walk_and_archive-Allowed :
      (Inv : tar.Builder → Type 0)
      → ((b : tar.Builder) (path : FilePath)
          → is_system_metadata (relative base path) ≡ false
          → keeps is_match sel base path true ≡ true
          → Inv b
          → Inv (tar.dir_header b (relative base path) path).0)
      → ((b : tar.Builder) (path : FilePath)
          → is_system_metadata (relative base path) ≡ false
          → keeps is_match sel base path false ≡ true
          → Inv b
          → Inv (tar.link_header b path (relative base path)).0)
      → ((b : tar.Builder) (path : FilePath) (len : ℕ) (content : List ℕ)
          → is_system_metadata (relative base path) ≡ false
          → keeps is_match sel base path false ≡ true
          → Inv b
          → Inv (tar.file_data b len (relative base path) content).1)
      → (path : FilePath) (node : Node) (w : Walk c tar) → Inv w.builder
      → Inv (walk_and_archive c tar d is_match sel due base path node w).0.builder
  walk_and_archive-Allowed Inv dirs links files path node w i =
      walk_and_archive-Keeps c tar d (λ b es. Inv b) (λ b es n o f g i. i) is_match sel due base
        (
          (λ b es path a i. dirs b path a.0 a.1 i),
          (λ b es path a i. links b path a.0 a.1 i),
          (λ b es path len content a i. files b path len content a.0 a.1 i),
        )
        path node w i

  -- The walk sends no event that would end the session.
  pub walk_and_archive-is_last :
      (path : FilePath) (node : Node) (w : Walk c tar)
      → any is_last w.sent ≡ false
      → any is_last (walk_and_archive c tar d is_match sel due base path node w).0.sent ≡ false
  walk_and_archive-is_last path node w h =
      walk_and_archive-Keeps c tar d (λ b es. any is_last es ≡ false)
        (λ b es n o f g i. any-append_tick es n o f g i) is_match sel due base
        ((λ b es path a i. i), (λ b es path a i. i), (λ b es path len content a i. i)) path node w h
