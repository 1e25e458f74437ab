-- ===== src/Cli/Main.antt =====
-- crates/tekflash/src/main.rs and crates/tekflash-core/src/privilege.rs: what runs at which privilege.
-- The commands themselves are left to the caller.
pub mod Gate
use tekflash.Common.{
  ℕ, ◌≡◌, refl, ◌↔◌, ◌==◌, Bool, true, false, not, ◌&&◌, Option, none, some, Text, codes,
  if◌then◌else◌, arith,
}
use tekflash.Cli.{FlashOpts, VerifyOpts, RestoreOpts}
use tekflash.Cli.Archive.{ArchiveOpts}
use tekflash.Cli.Backup.{BackupOpts}

pub data Command : Type 0 where
  list : Command
  flash : FlashOpts → Command
  backup : BackupOpts → Command
  archive : ArchiveOpts → Command
  restore : RestoreOpts → Command
  verify : VerifyOpts → Command
  verify_queue : Command
  keygen : Command

pub record Args : Type 0 where
  pub check : Bool
  pub no_tui : Bool
  pub command : Option Command

-- `ElevationStatus`, and the system it is asked of: the effective user on Unix, and on Windows the
-- results of the calls that open the token of the process and read it.
pub record ElevationStatus : Type 0 where
  pub elevated : Bool
  pub advice : Text

pub data Platform : Type 0 where
  macos linux other_unix : (euid : ℕ) → Platform
  windows : (open_token get_information token_is_elevated : ℕ) → Platform
  unsupported : Platform

abbrev windows_advice : Text
windows_advice =
    codes
      "Right-click tekflash.exe and choose 'Run as administrator',\nor from an elevated PowerShell:  Start-Process -Verb RunAs tekflash"

-- The number 0 of `OpenProcessToken` and of `GetTokenInformation` is a failure.
unfoldable pub windows_is_elevated : (open_token get_information token_is_elevated : ℕ) → Bool
windows_is_elevated open_token got token_is_elevated =
    if open_token == 0 then false else not (got == 0) && not (token_is_elevated == 0)

abbrev unix_advice : Platform → Text
unix_advice (macos euid) =
    codes
      "Try:  sudo tekflash\nOn macOS you may also need to grant your terminal 'Full Disk Access' in\nSystem Settings -> Privacy & Security if reads from /dev/rdiskN fail with EPERM."
unix_advice (linux euid) = codes "Try:  sudo tekflash"
unix_advice _ = codes "Re-run as root."

unfoldable pub check_elevation : Platform → ElevationStatus
unfolding windows_is_elevated
check_elevation (macos euid) = record { elevated = euid == 0; advice = unix_advice (macos euid) }
check_elevation (linux euid) = record { elevated = euid == 0; advice = unix_advice (linux euid) }
check_elevation (other_unix euid) = record {
  elevated = euid == 0;
  advice = unix_advice (other_unix euid);
}
check_elevation (windows opened got flag) = record {
  elevated = windows_is_elevated opened got flag;
  advice = windows_advice;
}
check_elevation unsupported = record { elevated = false; advice = codes "Unsupported platform." }

-- What a start of the program comes to: it prints the privilege and exits, it exits with advice and
-- code 1, it runs a command, it asks for one and exits with code 2, or it runs the terminal UI.
pub data Launch : Type 0 where
  reported : (elevated : Bool) → (code : ℕ) → Launch
  refused : (advice : Text) → Launch
  runs : Command → Launch
  wants_command : Launch
  runs_tui : Launch

unfoldable pub run_check : Platform → Launch
unfolding check_elevation
run_check platform =
    let status = check_elevation platform in
    reported status.elevated (if status.elevated then 0 else 1)

-- The `match` on the subcommand.
unfoldable pub dispatch : Option Command → Bool → Launch
dispatch (some command) no_tui = runs command
dispatch none true = wants_command
dispatch none false = runs_tui

-- `require_elevation` stands between `--check` and the `match`.
unfoldable pub main : Platform → Args → Launch
unfolding run_check check_elevation dispatch
main platform args =
    if args.check
    then run_check platform
    else (let status = check_elevation platform in
        if status.elevated then dispatch args.command args.no_tui else refused status.advice)
