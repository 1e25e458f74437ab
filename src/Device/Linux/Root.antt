-- ===== src/Device/Linux/Root.antt =====
-- `root_device_name` and `enumerate_raw` of crates/tekflash-core/src/device/linux.rs over the commands
-- findmnt and lsblk, which are parameters with the JSON and the text functions of other crates.
use tekflash.Common.{
  ℕ, ◌≡◌, Bool, true, List, [], ◌∷◌, Option, none, some, Result, ok, err, Text, if◌then◌else◌,
}
use tekflash.Device.{BlockDevice}
use tekflash.Device.Linux.{Std, LsblkDevs, to_blocks, trim_start, trim_end, or_default}

-- What a command prints and whether it succeeds.
pub record Printed : Type 0 where
  pub success : Bool
  pub stdout : List ℕ

pub data LsblkError (E : Type 0) : Type 0 where
  invoke : E → LsblkError E
  failed : LsblkError E
  parsing : E → LsblkError E

pub record LinuxHost (E : Type 0) : Type 0 where
  pub std : Std
  pub lsblk : Result E Printed
  pub from_slice : List ℕ → Result E LsblkDevs
  pub findmnt : Option Printed
  pub pkname : Text → Option Printed
  pub from_utf8 : List ℕ → Option Text
  pub from_utf8_lossy : List ℕ → Text
  pub first_line : Text → Option Text
  pub file_name : Text → Option Text
  pub is_numeric : ℕ → Bool

module _ {E : Type 0} (host : LinuxHost E) where
  abbrev trim : Text → Text
  trim t = trim_end host.std (trim_start host.std t)

  -- `trim_end_matches(char::is_numeric)`.
  abbrev trim_digits : Text → Text
  trim_digits [] = []
  trim_digits (c ∷ s) = elim (trim_digits s) [
    | [] ↦ if host.is_numeric c then [] else c ∷ []
    | ◌∷◌ d rest ↦ c ∷ d ∷ rest
  ]

  abbrev base_of : Option Text → Option Text
  base_of none = none
  base_of (some base) = some (trim_digits base)

  -- The parent's name where lsblk gives one, else the source's own without its digits.
  abbrev or_base : Text → (name : Text) → Option Text
  or_base source [] = base_of (host.file_name source)
  or_base source (c ∷ name) = some (or_default (host.first_line (c ∷ name)) [])

  abbrev from_parent : Text → Option Printed → Option Text
  from_parent source none = none
  from_parent source (some out) =
      or_base source (if out.success then trim (host.from_utf8_lossy out.stdout) else [])

  abbrev from_source : Option Text → Option Text
  from_source none = none
  from_source (some source) = from_parent (trim source) (host.pkname (trim source))

  abbrev from_findmnt : Option Printed → Option Text
  from_findmnt none = none
  from_findmnt (some out) = from_source (if out.success then host.from_utf8 out.stdout else none)

  unfoldable pub root_device_name : Option Text
  root_device_name = from_findmnt host.findmnt

  abbrev made : Result E LsblkDevs → Result (LsblkError E) (List BlockDevice)
  made (err e) = err (parsing e)
  made (ok devs) = ok (to_blocks host.std devs root_device_name)

  abbrev listed : Result E Printed → Result (LsblkError E) (List BlockDevice)
  listed (err e) = err (invoke e)
  listed (ok out) = if out.success then made (host.from_slice out.stdout) else err failed

  unfoldable pub enumerate_raw : Result (LsblkError E) (List BlockDevice)
  unfolding root_device_name
  enumerate_raw = listed host.lsblk

  -- What lsblk printed could be read.
  abbrev pub Listed : LsblkDevs → Type 0
  Listed devs =
      (out : Printed) × (host.lsblk ≡ ok out)
      × (out.success ≡ true)
      × (host.from_slice out.stdout ≡ ok devs)
