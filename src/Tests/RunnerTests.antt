-- ===== src/Tests/RunnerTests.antt =====
-- The workers and their sessions on small inputs.
use tekflash.Common.{
  ℕ, ◌+◌, ◌≡◌, ◌<◌, refl, false, true, List, [], ◌∷◌, none, some, ok, length, codes, FilePath, Bool,
  arith, not, ◌&&◌,
}
use tekflash.Pipeline.Compress.{Codec, default_level}
use tekflash.Pipeline.Hasher.{digest, blake3}
use tekflash.Pipeline.Hasher.{new as new_hasher}
use tekflash.Runner.Progress
use tekflash.Runner.Progress.{
  BackupParams, BackupProgress, OperationKind, ArchiveFormat, BackupEvent, done, tick, finished,
}
use tekflash.Pipeline.Copy.{copy}
use tekflash.Runner.Backup.{do_backup, to_read}
use tekflash.Runner.Backup as Backup
use tekflash.Runner.Backup.Ends.{do_backup-Backed, do_backup-total, Backed}
use tekflash.Runner.Backup.Limit.{first}
use tekflash.Runner.Flash.{do_flash}
use tekflash.Runner.Flash.Ends.{do_flash-Imaged, Imaged}
use tekflash.Runner.Archive.Tree.{relative, is_system_metadata, precompute_total_bytes}
use tekflash.Runner.Archive.Walk.{Walk, walk_and_archive}
use tekflash.Runner.Archive.Totals.{size}
use tekflash.Runner.Archive.Reads.{Steady, walk_and_archive-precompute_total_bytes}
use tekflash.Runner.Archive.Allowed.{walk_and_archive-Allowed}
use tekflash.Runner.Worker.{IoError, Outcome, byte_tick}
use tekflash.Runner.Session.{work, spawn_backup, polls}
use tekflash.Runner.Session.Delivery.{received}
use tekflash.Runner.Session.Settled.{final, spawn_backup-settled, spawn_backup-done}
use tekflash.Tests.Readers.{whole_of-ReadLaws, whole_of-Infallible, left, keeping, keeping-Streams}
use tekflash.Tests.Hosts.{
  sink_of-WriteLaws, sink_of-NeverFull, stored, backup_host, flash_host, flash_host-Decodes, unread,
  tar, tar-TarLaws, small_tree, session_host, display,
}

abbrev params : OperationKind → BackupParams (Unit {0})
params kind = record {
  kind = kind;
  source = codes "sda" ∷ codes "dev" ∷ [];
  dest = codes "out" ∷ [];
  codec = Codec.none;
  level = default_level;
  total_bytes = some 3;
  archive_format = ArchiveFormat.tar;
  archive_selection = none;
}

abbrev never : ℕ → Bool
never n = false

abbrev backed_up : Outcome (List ℕ)
backed_up = record { bytes_in = 3; hash_hex = 0x1F ∷ 0x8B ∷ 3 ∷ []; dst = 0x1F ∷ 0x8B ∷ 3 ∷ [] }

do_backup_runs :
    (do_backup keeping backup_host false never 6 (params OperationKind.backup)).1 ≡ ok backed_up
unfolding do_backup copy to_read
do_backup_runs = refl

opened : Backup.Loop keeping backup_host
opened = record { src = stored; dst = []; hasher = new_hasher keeping blake3; bytes_in = 0 }

opened_runs : Backup.opened keeping backup_host (params OperationKind.backup) ≡ ok opened
unfolding opened do_backup
opened_runs = refl

do_backup-Backed_example :
    (st : Backup.Loop keeping backup_host) × (Backup.opened keeping backup_host
        (params OperationKind.backup)
      ≡ ok st)
    × Backed keeping keeping-Streams backup_host left
        (whole_of-ReadLaws IoError)
        left
        (sink_of-WriteLaws IoError)
        (λ s. refl)
        false
        never
        (params OperationKind.backup)
        st.src
        st.dst
        backed_up
do_backup-Backed_example =
    do_backup-Backed keeping keeping-Streams backup_host left (whole_of-ReadLaws IoError) left
      (sink_of-WriteLaws IoError) (λ s. refl) false never (params OperationKind.backup) 6 backed_up
      do_backup_runs

do_backup-total_example :
    (out : Outcome (List ℕ)) × ((do_backup keeping backup_host false never 6
        (params OperationKind.backup)).1
      ≡ ok out)
    × (out.dst ≡ first (some 3) stored)
    × (out.bytes_in ≡ length (first (some 3) stored))
    × (out.hash_hex ≡ digest keeping blake3 (first (some 3) stored))
unfolding opened
do_backup-total_example =
    do_backup-total keeping keeping-Streams backup_host left (whole_of-ReadLaws IoError) left
      (sink_of-WriteLaws IoError) (λ s. refl) false never (params OperationKind.backup) 6 opened
      (whole_of-Infallible IoError) (sink_of-NeverFull IoError) opened_runs (omega arith)

abbrev flashed : Outcome (List ℕ)
flashed = record { bytes_in = 5; hash_hex = stored; dst = stored }

do_flash_runs :
    (do_flash keeping flash_host display never 6 (params OperationKind.flash)).1 ≡ ok flashed
unfolding do_flash copy
do_flash_runs = refl

do_flash-Imaged_example :
    (src : flash_host.file.State) × (dst : flash_host.device.State) × (flash_host.open_file
        (params OperationKind.flash).source
      ≡ ok src)
    × (flash_host.open_write (params OperationKind.flash).dest ≡ ok dst)
    × Imaged keeping keeping-Streams flash_host display left
        (whole_of-ReadLaws IoError)
        unread
        (λ choice bytes. bytes)
        flash_host-Decodes
        left
        (sink_of-WriteLaws IoError)
        never
        (params OperationKind.flash)
        src
        dst
        flashed
do_flash-Imaged_example =
    do_flash-Imaged keeping keeping-Streams flash_host display left (whole_of-ReadLaws IoError)
      unread (λ choice bytes. bytes) flash_host-Decodes left (sink_of-WriteLaws IoError) never
      (params OperationKind.flash) 6 flashed do_flash_runs

abbrev always : FilePath → Bool
always path = true

abbrev matches : Unit {0} → FilePath → Bool
matches g path = false

abbrev before_walk : Walk keeping tar
before_walk = record { builder = []; hasher = new_hasher keeping blake3; bytes_in = 0; sent = [] }

small_tree-Steady : Steady small_tree
unfolding Steady
small_tree-Steady = (refl, (refl, ((refl, tt), (tt, tt))))

small_tree_len : size small_tree < 20
unfolding size
small_tree_len = omega arith

walk_and_archive-precompute_total_bytes_example :
    ((walk_and_archive keeping tar display matches none always [] [] small_tree before_walk).1
      ≡ none)
    × ((walk_and_archive keeping tar display matches none always [] [] small_tree
          before_walk).0.bytes_in
        ≡ 0 + precompute_total_bytes matches none 20 [] small_tree)
walk_and_archive-precompute_total_bytes_example =
    walk_and_archive-precompute_total_bytes keeping tar tar-TarLaws display matches none always []
      20 small_tree before_walk small_tree-Steady small_tree_len

-- No path under the recycle bin.
abbrev outside : List FilePath → Bool
outside [] = true
outside (rel ∷ b) = not (is_system_metadata rel) && outside b

outside_more :
    (rel : FilePath) (b : List FilePath)
    → is_system_metadata rel ≡ false
    → outside b ≡ true
    → outside (rel ∷ b) ≡ true
outside_more rel b h i = rw (h, i) refl

walk_and_archive-Allowed_example :
    outside
      (walk_and_archive keeping tar display matches none always [] [] small_tree
        before_walk).0.builder
    ≡ true
walk_and_archive-Allowed_example =
    walk_and_archive-Allowed keeping tar display matches none always [] (λ b. outside b ≡ true)
      (λ b path h k i. outside_more (relative [] path) b h i)
      (λ b path h k i. outside_more (relative [] path) b h i)
      (λ b path len content h k i. outside_more (relative [] path) b h i) [] small_tree before_walk
      refl

abbrev session : BackupProgress (Unit {0})
unfolding Progress.new
session = Progress.new 0 (params OperationKind.backup)

-- The events come in two polls.
abbrev arrivals : List (List BackupEvent × ℕ)
arrivals = ([], 1) ∷ (finished 3 3 (0x1F ∷ 0x8B ∷ 3 ∷ []) 9 ∷ [], 3) ∷ []

arrivals_all :
    received arrivals
    ≡ spawn_backup display 9 (
        work keeping session_host display matches false never always 6
          (params OperationKind.backup))
unfolding spawn_backup work copy to_read byte_tick
arrivals_all = refl

spawn_backup-settled_example :
    (polls [] arrivals session).status
    ≡ final display 9
        (work keeping session_host display matches false never always 6
          (params OperationKind.backup)).1
spawn_backup-settled_example =
    spawn_backup-settled keeping session_host display matches false never always 6
      (params OperationKind.backup) 9 arrivals session arrivals_all

spawn_backup-done_example :
    (polls [] arrivals session).status ≡ done (digest keeping blake3 (first (some 3) stored)) 9
unfolding opened
spawn_backup-done_example =
    spawn_backup-done keeping session_host display matches false never always 6
      (params OperationKind.backup) keeping-Streams left (whole_of-ReadLaws IoError)
      (whole_of-Infallible IoError) left (sink_of-WriteLaws IoError) (λ s. refl)
      (sink_of-NeverFull IoError) opened refl opened_runs (omega arith) 9 arrivals session
      arrivals_all
