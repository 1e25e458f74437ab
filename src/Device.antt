-- ===== src/Device.antt =====
-- crates/tekflash-core/src/device/mod.rs and device/safety.rs. Enumeration and the fast path of the
-- operating system at hand (`backend::enumerate_raw`, `backend::raw_path`) are parameters.
pub mod Safety
pub mod Linux
pub mod Mac
pub mod Windows
use tekflash.Common.{
  ℕ, Bool, true, false, not, List, [], ◌∷◌, ◌++◌, Option, none, some, Text, FilePath, codes,
  if◌then◌else◌,
}

pub data Transport : Type 0 where
  usb sd mmc sata nvme pcie thunderbolt scsi virtual unknown : Transport

pub record BlockDevice : Type 0 where
  pub path : FilePath
  pub vendor : Option Text
  pub model : Option Text
  pub serial : Option Text
  pub size_bytes : ℕ
  pub block_size : ℕ
  pub transport : Transport
  pub removable : Bool
  pub is_system : Bool
  pub read_only : Bool
  pub mountpoints : List FilePath

-- `display` of a path is a parameter.
name_of : Option Text → Option Text → Text → Text
name_of (some v) (some m) shown = v ++ b' ' ∷ m
name_of none (some m) shown = m
name_of (some v) none shown = v
name_of none none shown = shown

unfoldable pub name : (FilePath → Text) → BlockDevice → Text
unfolding name_of
name display d = name_of d.vendor d.model (display d.path)

-- `safety::filter`.
pub filter : List BlockDevice → Bool → List BlockDevice
filter devices true = devices
filter [] false = []
filter (d ∷ ds) false = let rest = filter ds false in if not d.is_system then d ∷ rest else rest

unfoldable pub enumerate : Option (List BlockDevice) → Bool → Option (List BlockDevice)
unfolding filter
enumerate none show_all = none
enumerate (some all) show_all = some (filter all show_all)
