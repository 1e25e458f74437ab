-- ===== src/Device/Linux.antt =====
-- crates/tekflash-core/src/device/linux.rs, behind the JSON of lsblk. `PathBuf::from`, the test for white
-- space and the order of two paths are the standard library's and come as `Std`.
pub mod Listing
pub mod Mounts
pub mod Root
use tekflash.Common.{
  ℕ, Bool, true, false, List, [], ◌∷◌, ◌++◌, Option, none, some, Text, FilePath, codes, text_eq,
  path_eq, map, if◌then◌else◌, ◌||◌,
}
use tekflash.Device.{BlockDevice, Transport, usb, sd, mmc, sata, nvme, pcie, scsi, unknown}

pub record Std : Type 0 where
  pub path_from : Text → FilePath
  pub is_whitespace : ℕ → Bool
  pub path_lt : FilePath → FilePath → Bool

pub record LsblkFields : Type 0 where
  pub name : Text
  pub kname : Option Text
  pub size : Option ℕ
  pub phy_sec : Option ℕ
  pub rota : Option Bool
  pub rm : Option Bool
  pub ro : Option Bool
  pub tran : Option Text
  pub vendor : Option Text
  pub model : Option Text
  pub serial : Option Text
  pub mountpoint : Option Text
  pub mountpoints : Option (List (Option Text))
  pub kind : Option Text

mutual
  pub data LsblkDev : Type 0 where
    dev : LsblkFields → LsblkDevs → LsblkDev

  pub data LsblkDevs : Type 0 where
    nil : LsblkDevs
    cons : LsblkDev → LsblkDevs → LsblkDevs

abbrev pub fields : LsblkDev → LsblkFields
fields (dev f children) = f

abbrev pub children_of : LsblkDev → LsblkDevs
children_of (dev f children) = children

module _ {A : Type 0} where
  abbrev pub or_default : Option A → A → A
  or_default none d = d
  or_default (some a) d = a

-- `kname` where there is one, else `name`.
unfoldable pub kernel_name : LsblkFields → Text
kernel_name f = or_default f.kname f.name

module _ (std : Std) where
  abbrev pub filled : Text → List FilePath
  filled [] = []
  filled (c ∷ m) = std.path_from (c ∷ m) ∷ []

  abbrev pub filled_option : Option Text → List FilePath
  filled_option none = []
  filled_option (some m) = filled m

  abbrev pub filled_all : List (Option Text) → List FilePath
  filled_all [] = []
  filled_all (m ∷ ms) = filled_option m ++ filled_all ms

  abbrev pub filled_list : Option (List (Option Text)) → List FilePath
  filled_list none = []
  filled_list (some ms) = filled_all ms

  -- The mountpoints of a device itself that are not empty.
  unfoldable pub own_mounts : LsblkFields → List FilePath
  own_mounts f = filled_option f.mountpoint ++ filled_list f.mountpoints

  unfoldable pub child_mounts : LsblkDevs → List FilePath
  unfolding own_mounts
  child_mounts nil = []
  child_mounts (cons d ds) = own_mounts (fields d) ++ child_mounts ds

  abbrev pub insert : FilePath → List FilePath → List FilePath
  insert p [] = p ∷ []
  insert p (q ∷ qs) = if std.path_lt q p then q ∷ insert p qs else p ∷ q ∷ qs

  unfoldable pub sort : List FilePath → List FilePath
  sort [] = []
  sort (p ∷ ps) = insert p (sort ps)

  -- `dedup` drops a path that equals the one before it.
  abbrev pub dedup_from : FilePath → List FilePath → List FilePath
  dedup_from p [] = []
  dedup_from p (q ∷ qs) = let rest = dedup_from q qs in if path_eq q p then rest else q ∷ rest

  unfoldable pub dedup : List FilePath → List FilePath
  unfolding path_eq
  dedup [] = []
  dedup (p ∷ ps) = p ∷ dedup_from p ps

  unfoldable pub mounts : LsblkDev → List FilePath
  unfolding own_mounts child_mounts sort dedup
  mounts d = dedup (sort (own_mounts (fields d) ++ child_mounts (children_of d)))

  -- `trim`, and the fields that it leaves empty are none.
  abbrev pub trim_start : Text → Text
  trim_start [] = []
  trim_start (c ∷ s) = let rest = trim_start s in if std.is_whitespace c then rest else c ∷ s

  abbrev pub trim_end : Text → Text
  trim_end [] = []
  trim_end (c ∷ s) = elim (trim_end s) [
    | [] ↦ if std.is_whitespace c then [] else c ∷ []
    | ◌∷◌ e rest ↦ c ∷ e ∷ rest
  ]

  abbrev non_empty : Text → Option Text
  non_empty [] = none
  non_empty (c ∷ s) = some (c ∷ s)

  unfoldable pub trimmed : Option Text → Option Text
  trimmed none = none
  trimmed (some s) = non_empty (trim_end (trim_start s))

  abbrev transport_named : Text → Transport
  transport_named t =
      if text_eq t (codes "usb")
      then usb
      else if text_eq t (codes "sd") || text_eq t (codes "mmc")
      then mmc
      else if text_eq t (codes "sata")
      then sata
      else if text_eq t (codes "nvme")
      then nvme
      else if text_eq t (codes "pcie")
      then pcie
      else if text_eq t (codes "scsi")
      then scsi
      else if text_eq t (codes "ata")
      then sata
      else unknown

  unfoldable pub transport_of : Option Text → Transport
  unfolding text_eq
  transport_of none = unknown
  transport_of (some t) = transport_named t

  abbrev plugged_in : Transport → Bool
  plugged_in t = elim t [ usb ↦ true | sd ↦ true | mmc ↦ true | _ ↦ false ]

  abbrev pub is_root : Option Text → Text → Bool
  is_root none kname = false
  is_root (some r) kname = text_eq r kname

  unfoldable pub to_block : LsblkDev → Option Text → BlockDevice
  unfolding kernel_name mounts trimmed transport_of text_eq
  to_block d root_dev =
      let f = fields d in
      let kname = kernel_name f in
      let transport = transport_of f.tran in
      record {
        path = std.path_from (codes "/dev/" ++ kname);
        vendor = trimmed f.vendor;
        model = trimmed f.model;
        serial = trimmed f.serial;
        size_bytes = or_default f.size 0;
        block_size = or_default f.phy_sec 512;
        transport = transport;
        removable = or_default f.rm false || plugged_in transport;
        is_system = is_root root_dev kname;
        read_only = or_default f.ro false;
        mountpoints = mounts d;
      }

  -- The test on the type in `enumerate_raw`: whole disks, optical drives, and what has no type.
  unfoldable pub is_whole : Option Text → Bool
  unfolding text_eq
  is_whole none = true
  is_whole (some k) = text_eq k (codes "disk") || text_eq k (codes "rom")

  -- The loop of `enumerate_raw` over the parsed output.
  unfoldable pub to_blocks : LsblkDevs → Option Text → List BlockDevice
  unfolding to_block is_whole
  to_blocks nil root_dev = []
  to_blocks (cons d ds) root_dev =
      let rest = to_blocks ds root_dev in
      if is_whole (fields d).kind then to_block d root_dev ∷ rest else rest
