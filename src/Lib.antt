-- ===== src/Lib.antt =====
-- tekflash writes disk images to devices, backs devices up and archives their files. The core
-- (crates/tekflash-core) has the pipeline of formats, codecs, encryption, hashing and verification, the
-- device list and the selection of what is archived; the terminal interface (crates/tekflash/src/tui)
-- lets the user choose them and runs them in sessions.
--
-- The files, by the part that they model:
--   Archive: crates/tekflash-core/src/archive/selection.rs. The specification is in
--     Archive/Selection/Spec. Compiled globs are a parameter. Archive/Tar is archive/tar.rs over the
--     builder of the tar crate; Archive/Tar/Plan describes an archive as a list of steps.
--   Pipeline/Format, Compress, Crypto, Hasher, Verify: the files of these names in
--     crates/tekflash-core/src/pipeline. Codecs, Argon2id, ChaCha20-Poly1305, blake3 and sha2 belong to
--     other crates: `Primitives` and `HashCrates` stand for them, `CipherLaws` and `Streams` say what
--     the code relies on. Pipeline/Reader is `std::io::Read`.
--   Pipeline/Verify/Sampled: `VerifyPlan` and `sampled_ranges` of pipeline/verify.rs.
--   Pipeline/Buffer and Pipeline/Pumps: pipeline/buffer.rs, and `pump` of pipeline/reader.rs and of
--     pipeline/writer.rs as two tasks over a bounded channel. A schedule is the list of the tasks in the
--     order of their steps.
--   Pipeline/Copy: the loop that reads, hashes and writes, which the workers share. Pipeline/Writer is
--     `std::io::Write`.
--   Device: device/mod.rs and device/safety.rs of the core, over the backend's answer; Device/Linux is
--     device/linux.rs behind the parsed output of lsblk and, in Device/Linux/Root, over the commands
--     lsblk and findmnt; Device/Linux/Listing and Mounts describe the rows and the mountpoints.
--     Device/Windows is device/windows.rs behind that of Get-Disk, and Device/Mac is device/macos.rs over
--     the commands diskutil and mount; the lines of
--     mount are read in Device/Mac/Mounts and printed in Device/Mac/Printed.
--   Tui/Action, CodecPicker, Confirm, FileBrowser: the views of these names in
--     crates/tekflash/src/tui/views. A browser asks a `FileSystem` that may answer anything.
--   Tui/App: crates/tekflash/src/tui/mod.rs. `AppState` has the fields that a handler uses, `dispatch_key` takes a
--     state and a key to the next state and to the flag that ends the interface. The handlers stand in
--     Keys (home view), Pickers, Browsing and Dispatch; the other files hold theorems.
--   Tui/Theme: crates/tekflash/src/tui/theme.rs, over the environment.
--   Tui/Views: what the views compute and which text they show, with its styles, before ratatui draws
--     it. BlockMap and Progress are views/progress.rs, Home is views/home.rs, Confirm is
--     views/confirm.rs, CodecPicker is views/codec_picker.rs; Figures prints sizes, rates and times, and has the rates of a session; Spans has
--     what the views share, with layout.rs and widgets.rs. The operations of f64 are a parameter, `F64`;
--     the shade of the cell that is being read is computed on whole numbers, which is what the doubles
--     give for cells below 2 ^ 51 bytes.
--   Runner: crates/tekflash/src/tui/progress_runner.rs. Progress has the events and `poll`, Backup, Flash
--     and Archive the three workers, Session the thread that runs one of them and the polls behind it.
--     A worker returns the events that it sent and its result; the files, encoders, decoders and the tar
--     builder are a host of parameters, a test of the clock is an oracle. The archive worker meets a tree
--     of files as a value: `Node` says what each call on an entry answers, errors included.
--   Cli: the commands flash, backup, archive, restore and verify of crates/tekflash/src/cli.rs over a
--     host of files; Cli/Backup has the manifest of crates/tekflash-core/src/manifest.rs, and Cli/Main is
--     crates/tekflash/src/main.rs with crates/tekflash-core/src/privilege.rs.
--   Common: shared tests, lists, text, paths and results over the native numbers.
--   Tests: the theorems on small inputs.
--
-- A path is the list of its components, the deepest first; the empty list is the root, and also the
-- empty path that `unwrap_or_default` gives. A text is a list of code points. A handler that mutates
-- returns the new value; a call of the operating system is a field of `System` or `FileSystem`.
-- Constructors that would clash keep a word of their own: `opening` and `saving` are `Open` and `Save`
-- of `BrowseMode`, `done` and `broken` are `Finished` and `Failed` of `BackupStatus`.
--
-- Loops that read run on fuel and return `out_of_fuel` without it. For the two verification loops more
-- fuel than the stream has bytes is enough, since each round takes at least one byte. `seal_frames` and
-- `open_frames` get the length of what is left to frame, and each round takes at least one byte of it.
-- The loop of `sampled_ranges` gets the size of the device, since each round counts at least one byte.
-- `copy` returns `cut_short` without fuel, and more fuel than the source has bytes is enough;
-- `precompute_total_bytes` needs more fuel than the tree has entries. The walk of an archive is
-- structural on the tree: it sorts the visits of a directory's entries and then runs them.
--
-- Not modelled: drawing, the terminal and the event loop, the parsing and the printing
-- of the command line, its commands list and keygen, the help texts, logging, the commands that the
-- backends call, the tar format, the JSON of the manifest and of the progress events, raw memory, and
-- clocks.
pub mod Common
pub mod Archive
pub mod Pipeline
pub mod Device
pub mod Tui
pub mod Runner
pub mod Cli
pub mod Tests
