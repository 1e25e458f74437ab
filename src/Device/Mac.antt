-- ===== src/Device/Mac.antt =====
-- crates/tekflash-core/src/device/macos.rs. The commands `diskutil` and `mount` with their output, the
-- plist crate and the standard library's text functions are parameters.
pub mod Mounts
pub mod Printed
use tekflash.Common.{
  ℕ, zero, suc, ◌+◌, Bool, true, false, not, List, [], ◌∷◌, ◌++◌, Option, none, some, Result, ok,
  err, ◌>>=◌, Text, FilePath, codes, text_eq, path_mem, starts_with, ◌%◌, ◌^◌, ◌==◌, if◌then◌else◌,
  ◌||◌, ◌&&◌,
}
use tekflash.Device.{
  BlockDevice, Transport, usb, sd, mmc, sata, nvme, pcie, thunderbolt, scsi, unknown,
}
use tekflash.Device.Linux.{Std, or_default, trimmed}
use tekflash.Device.Mac.Mounts.{mountpoints_in}
use tekflash.Device.Windows.{plugged_in, or_option}

-- `std::process::Output`.
pub record Output : Type 0 where
  pub success : Bool
  pub stdout : List ℕ
  pub stderr : List ℕ

pub data MacError (E : Type 0) : Type 0 where
  invoke : E → MacError E
  failed : List ℕ → MacError E
  parsing : E → MacError E
  not_a_dictionary : MacError E
  no_whole_disks : MacError E
  not_a_disk_path : MacError E
  not_visible : MacError E

-- The commands and the plist crate. `mount n` is what `mount` gives at the moment n.
pub record MacHost (E : Type 0) : Type 1 where
  pub Value : Type 0
  pub from_bytes : List ℕ → Result E Value
  pub as_dictionary : Value → Option (Text → Option Value)
  pub as_array : Value → Option (List Value)
  pub as_string : Value → Option Text
  pub as_boolean : Value → Option Bool
  pub as_unsigned_integer : Value → Option ℕ
  pub diskutil_list : Result E Output
  pub diskutil_info : Text → Result E Output
  pub mount_disk : Text → Result E Output
  pub mount : ℕ → Result E Output
  pub lines : List ℕ → List Text
  pub exists : FilePath → Bool
  pub std : Std

-- `Path::file_name`.
unfoldable pub file_name : FilePath → Option Text
file_name [] = none
file_name (name ∷ above) = some name

abbrev transport_named : Text → Transport
transport_named t =
    if text_eq t (codes "USB")
    then usb
    else if text_eq t (codes "SD")
    then sd
    else if text_eq t (codes "Secure Digital")
    then sd
    else if text_eq t (codes "MMC")
    then mmc
    else if text_eq t (codes "SATA")
    then sata
    else if text_eq t (codes "PCI-Express")
    then nvme
    else if text_eq t (codes "PCI")
    then pcie
    else if text_eq t (codes "Thunderbolt")
    then thunderbolt
    else if text_eq t (codes "SCSI")
    then scsi
    else unknown

-- `trim_start_matches('r')`.
abbrev trim_r : Text → Text
trim_r [] = []
trim_r (c ∷ s) = let rest = trim_r s in if c == b'r' then rest else c ∷ s

module _ {E A : Type 0} where
  abbrev pub ok_or : MacError E → Option A → Result (MacError E) A
  ok_or e none = err e
  ok_or e (some a) = ok a

  abbrev pub with_parsing : Result E A → Result (MacError E) A
  with_parsing (err e) = err (parsing e)
  with_parsing (ok a) = ok a

-- The output of a command that was started and succeeded.
abbrev pub succeeded : {E : Type 0} → Result E Output → Result (MacError E) (List ℕ)
succeeded (err e) = err (invoke e)
succeeded (ok out) = if out.success then ok out.stdout else err (failed out.stderr)

-- The paths of the first list, and those of the second that are not yet there.
unfoldable pub add_new : List FilePath → List FilePath → List FilePath
unfolding path_mem
add_new have [] = have
add_new have (p ∷ ps) = add_new (if path_mem have p then have else have ++ p ∷ []) ps

module _ {E : Type 0} (host : MacHost E) where
  open host use {Value, as_string, as_boolean, as_unsigned_integer, std}

  abbrev pub and_then : {A : Type 0} → Option Value → (Value → Option A) → Option A
  and_then none f = none
  and_then (some v) f = f v

  -- `mountpoints_for_disk`: nothing where `mount` cannot be run.
  unfoldable pub mountpoints_for_disk : ℕ → Text → List FilePath
  unfolding mountpoints_in
  mountpoints_for_disk moment [] = []
  mountpoints_for_disk moment (c ∷ disk) = elim (succeeded (host.mount moment)) [
    | err e ↦ []
    | ok out ↦ mountpoints_in std (c ∷ disk) (host.lines out)
  ]

  -- The mountpoint in the record of the disk itself.
  abbrev whole_mount : Option Text → List FilePath
  whole_mount none = []
  whole_mount (some []) = []
  whole_mount (some (c ∷ m)) = std.path_from (c ∷ m) ∷ []

  abbrev read_only_of : Option Bool → Bool
  read_only_of none = false
  read_only_of (some writable) = not writable

  -- The device that a record of `diskutil info` describes.
  unfoldable pub described : ℕ → Text → (Text → Option Value) → BlockDevice
  unfolding text_eq file_name mountpoints_for_disk trimmed add_new
  described moment disk info =
      let get_string = λ (k : Text). trimmed std (and_then (info k) as_string) in
      let get_bool = λ (k : Text). or_default (and_then (info k) as_boolean) false in
      let get_u64 = λ (k : Text). and_then (info k) as_unsigned_integer in
      let path = std.path_from (codes "/dev/" ++ disk) in
      let transport = transport_named (or_default (get_string (codes "BusProtocol")) []) in
      record {
        path = path;
        vendor = or_option (get_string (codes "MediaName")) (
            or_option (get_string (codes "IORegistryEntryName"))
              (get_string (codes "DeviceVendor")));
        model = or_option (get_string (codes "DeviceModel")) (get_string (codes "MediaName"));
        serial =
            or_option (get_string (codes "DeviceSerial"))
              (get_string (codes "IORegistryEntrySerialNumber"));
        size_bytes =
            or_default (get_u64 (codes "TotalSize")) (or_default (get_u64 (codes "Size")) 0);
        block_size = or_default (get_u64 (codes "DeviceBlockSize")) 512 % 2 ^ 32;
        transport = transport;
        removable =
            (get_bool (codes "RemovableMedia") || get_bool (codes "Removable"))
            || plugged_in transport;
        is_system = text_eq disk (codes "disk0") || get_bool (codes "Internal");
        read_only = read_only_of (and_then (info (codes "Writable")) as_boolean);
        mountpoints =
            add_new (whole_mount (and_then (info (codes "MountPoint")) as_string))
              (mountpoints_for_disk moment (or_default (file_name path) []));
      }

  unfoldable pub info_for : ℕ → Text → Result (MacError E) BlockDevice
  unfolding described
  info_for moment disk = do
    out ← succeeded (host.diskutil_info disk)
    v ← with_parsing (host.from_bytes out)
    info ← ok_or not_a_dictionary (host.as_dictionary v)
    ok (described moment disk info)

  -- The loop of `enumerate_raw`: a disk whose record cannot be read is left out.
  unfoldable pub devices_of : ℕ → List Value → List BlockDevice
  unfolding info_for
  devices_of moment [] = []
  devices_of moment (d ∷ ds) =
      let rest = devices_of (suc moment) ds in
      elim (as_string d) [
        | none ↦ rest
        | some name ↦ elim (info_for moment name) [ err e ↦ rest | ok dev ↦ dev ∷ rest ]
      ]

  unfoldable pub enumerate_raw : Result (MacError E) (List BlockDevice)
  unfolding devices_of
  enumerate_raw = do
    out ← succeeded host.diskutil_list
    root ← with_parsing (host.from_bytes out)
    dict ← ok_or not_a_dictionary (host.as_dictionary root)
    whole_disks ← ok_or no_whole_disks (and_then (dict (codes "WholeDisks")) host.as_array)
    ok (devices_of 0 whole_disks)

  -- The looks of `try_mount` at the output of `mount`, up to the first that shows a mountpoint.
  unfoldable pub look : (tries : ℕ) → (moment : ℕ) → Text → Result (MacError E) FilePath
  unfolding mountpoints_for_disk
  look zero moment disk = err not_visible
  look (suc tries) moment disk = elim (mountpoints_for_disk moment disk) [
    | [] ↦ look tries (suc moment) disk
    | ◌∷◌ mp mps ↦ ok mp
  ]

  unfoldable pub try_mount : FilePath → Result (MacError E) FilePath
  unfolding file_name look
  try_mount device_path = do
    name ← ok_or not_a_disk_path (file_name device_path)
    out ← succeeded (host.mount_disk (codes "/dev/" ++ trim_r name))
    look 10 0 (trim_r name)

  abbrev raw_of : FilePath → Text → FilePath
  raw_of path name =
      let raw = std.path_from (codes "/dev/r" ++ name) in
      if starts_with name (codes "disk") && host.exists raw then raw else path

  unfoldable pub raw_path : FilePath → FilePath
  unfolding file_name starts_with
  raw_path [] = []
  raw_path (name ∷ above) = raw_of (name ∷ above) name
