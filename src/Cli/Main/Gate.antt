-- ===== src/Cli/Main/Gate.antt =====
-- What the start in crates/tekflash/src/main.rs lets run.
use tekflash.Common.{◌≡◌, ◌≢◌, ◌↔◌, Bool, true, false, Option, none, some, arith}
use tekflash.Cli.Main.{
  Command, Args, Platform, macos, linux, other_unix, windows, unsupported, windows_is_elevated,
  runs, check_elevation, dispatch, main,
}

dispatch-runs :
    (command : Option Command) (no_tui : Bool) (c : Command)
    → dispatch command no_tui ≡ runs c
    → command ≡ some c
unfolding dispatch
dispatch-runs (some d) no_tui c h = cc
dispatch-runs none true c h = cc
dispatch-runs none false c h = cc

-- Who is let through: the effective user 0 on Unix, and on Windows a process whose token could be
-- opened and read and is elevated.
abbrev pub IsRoot : Platform → Type 0
IsRoot (macos euid) = euid ≡ 0
IsRoot (linux euid) = euid ≡ 0
IsRoot (other_unix euid) = euid ≡ 0
IsRoot (windows opened got flag) = (opened ≢ 0) × (got ≢ 0) × (flag ≢ 0)
IsRoot unsupported = ⊥

elevated-IsRoot :
    (platform : Platform) → ((check_elevation platform).elevated ≡ true) ↔ IsRoot platform
unfolding check_elevation windows_is_elevated
elevated-IsRoot (macos euid) = (λ h. ground arith, λ h. ground arith)
elevated-IsRoot (linux euid) = (λ h. ground arith, λ h. ground arith)
elevated-IsRoot (other_unix euid) = (λ h. ground arith, λ h. ground arith)
elevated-IsRoot (windows opened got flag) =
    (λ h. (ground arith, ground arith, ground arith), λ h. ground arith)
elevated-IsRoot unsupported = (λ h. ground arith, λ h. elim h [ ])

-- What `main` does with a status.
gated :
    (platform : Platform) (args : Args) (c : Command)
    → (main platform args ≡ runs c) ↔ (
        (args.check ≡ false)
        × ((check_elevation platform).elevated ≡ true)
        × (args.command ≡ some c))
unfolding main dispatch
gated platform args c =
    (λ h. ground (arith, dispatch-runs args.command args.no_tui c), λ h. ground arith)

-- A command runs exactly where it was given, `--check` was not asked for, and the process is that of
-- the effective user 0 on Unix, or on Windows one whose token could be opened and read and is
-- elevated; on no other system does a command run.
pub main-runs :
    (platform : Platform) (args : Args) (c : Command)
    → (main platform args ≡ runs c)
      ↔ ((args.check ≡ false) × IsRoot platform × (args.command ≡ some c))
main-runs platform args c =
    let there = gated platform args c in
    let root = elevated-IsRoot platform in
    (λ h. (let (a, b, d) = there.0 h in (a, root.0 b, d)), λ (a, b, d). there.1 (a, root.1 b, d))
