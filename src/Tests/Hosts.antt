-- ===== src/Tests/Hosts.antt =====
-- Files, encoders, decoders and a builder that keep what they are given.
use tekflash.Common.{
  ℕ, refl, sym, ap, List, [], ◌∷◌, ◌++◌, none, true, ok, ok_inj, length, codes, FilePath,
}
use tekflash.Pipeline.Writer.{Writer, WriteLaws, NeverFull}
use tekflash.Runner.Worker.{IoError, Display}
use tekflash.Runner.Backup.{BackupHost}
use tekflash.Runner.Flash.{FlashHost}
use tekflash.Runner.Flash.Readers.{counting, chain, content, counting-ReadLaws, chain-ReadLaws}
use tekflash.Runner.Flash.Ends.{Decodes}
use tekflash.Runner.Archive.Tree.{Node, file, dir, entry, nil, symlink}
use tekflash.Runner.Archive.Walk.{TarHost}
use tekflash.Runner.Archive.Reads.{TarLaws}
use tekflash.Runner.Archive.Run.{ArchiveHost}
use tekflash.Runner.Session.{SessionHost}
use tekflash.Tests.Readers.{whole_of, whole_of-ReadLaws, left}

abbrev pub sink_of : (E : Type 0) → Writer E
sink_of E = record {
  State = List ℕ;
  write_all = λ s bytes. ok (s ++ bytes);
  flush = λ s. ok s;
  counted = λ s. length s;
}

pub sink_of-WriteLaws : (E : Type 0) → WriteLaws (sink_of E) left
sink_of-WriteLaws E = record {
  appends = λ s s' bytes h. sym (ok_inj h);
  keeps = λ s s' h. sym (ok_inj h);
}

pub sink_of-NeverFull : (E : Type 0) → NeverFull (sink_of E)
sink_of-NeverFull E = record { writes = λ s bytes. (s ++ bytes, refl); flushes = λ s. (s, refl) }

-- Five bytes behind the magic number of gzip.
abbrev pub stored : List ℕ
stored = 0x1F ∷ 0x8B ∷ 3 ∷ 4 ∷ 5 ∷ []

abbrev pub backup_host : BackupHost
backup_host = record {
  source = whole_of IoError;
  File = Unit {0};
  sink = sink_of IoError;
  open_fast_read = λ path. ok stored;
  create = λ path. ok tt;
  encode = λ choice f. ok [];
  drop_encoder = λ s. s;
}

-- Each decoder hands the bytes on.
abbrev pub flash_host : FlashHost
flash_host = record {
  file = whole_of IoError;
  device = sink_of IoError;
  decoded = counting (chain (whole_of IoError));
  open_file = λ path. ok stored;
  open_write = λ path. ok [];
  decode = λ choice s. ok s;
  consumed = λ s. s;
  failed_at = λ e. 0;
}

abbrev pub unread : flash_host.decoded.State → List ℕ
unread s = s.0.0 ++ s.0.1

pub flash_host-Decodes : Decodes flash_host left unread (λ choice bytes. bytes)
flash_host-Decodes = record {
  starts = λ laws k s d h. ap unread (sym (ok_inj h));
  reads =
      counting-ReadLaws (chain (whole_of IoError))
        (content (whole_of IoError) left (whole_of-ReadLaws IoError))
        (chain-ReadLaws (whole_of IoError) left (whole_of-ReadLaws IoError));
}

-- The builder is the list of the paths that were appended.
abbrev pub tar : TarHost
tar = record {
  Builder = List FilePath;
  dir_header = λ b rel path. (rel ∷ b, none);
  link_header = λ b path rel. (rel ∷ b, none);
  file_data = λ b len rel bytes. (bytes, rel ∷ b, none);
  finish = λ b. ok b;
  counted = λ b. length b;
}

pub tar-TarLaws : TarLaws tar
tar-TarLaws = record {
  heads = λ b rel path. refl;
  links = λ b path rel. refl;
  reads = λ b len rel bytes. (rel ∷ b, refl);
}

abbrev pub small_tree : Node
small_tree = dir (
    entry (codes "b.txt") (file 2 (ok (7 ∷ 8 ∷ []))) (
      entry (codes "a.txt") (file 3 (ok (1 ∷ 2 ∷ 3 ∷ []))) (
        entry (codes "$RECYCLE.BIN") (dir (entry (codes "x") (file 1 (ok (0 ∷ []))) nil))
          (entry (codes "link") symlink nil))))

abbrev pub archive_host : ArchiveHost
archive_host = record {
  tar = tar;
  is_directory = λ path. true;
  try_mount = λ path. ok path;
  tree = λ path. small_tree;
  File = Unit {0};
  create = λ path. ok tt;
  encode = λ choice f. ok [];
}

abbrev pub session_host : SessionHost
session_host = record {
  backup_host = backup_host;
  flash_host = flash_host;
  archive_host = archive_host;
}

abbrev pub display : Display
display = record { number = λ n. n ∷ []; kind = λ k. codes "error"; path = λ p. codes "path" }
