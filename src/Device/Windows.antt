-- ===== src/Device/Windows.antt =====
-- crates/tekflash-core/src/device/windows.rs, behind the JSON of Get-Disk.
use tekflash.Common.{
  ℕ, Bool, true, false, List, [], ◌∷◌, Option, none, some, Text, FilePath, codes, text_eq, Result,
  ok, err, map, starts_with, if◌then◌else◌, ◌||◌,
}
use tekflash.Device.{BlockDevice, Transport, usb, sd, mmc, sata, nvme, thunderbolt, scsi, unknown}
use tekflash.Device.Linux.{or_default}

pub record PsDisk : Type 0 where
  pub number : ℕ
  pub friendly_name : Option Text
  pub manufacturer : Option Text
  pub model : Option Text
  pub serial_number : Option Text
  pub size : Option ℕ
  pub bus_type : Option Text
  pub is_boot : Option Bool
  pub is_system : Option Bool
  pub is_read_only : Option Bool

abbrev transport_named : Text → Transport
transport_named t =
    if text_eq t (codes "USB")
    then usb
    else if text_eq t (codes "SD")
    then sd
    else if text_eq t (codes "MMC")
    then mmc
    else if text_eq t (codes "SATA")
    then sata
    else if text_eq t (codes "NVMe")
    then nvme
    else if text_eq t (codes "SCSI")
    then scsi
    else if text_eq t (codes "Thunderbolt")
    then thunderbolt
    else unknown

-- What a user would plug in, on macOS and on Windows.
abbrev pub plugged_in : Transport → Bool
plugged_in t = elim t [ usb ↦ true | sd ↦ true | mmc ↦ true | thunderbolt ↦ true | _ ↦ false ]

abbrev pub or_option : Option Text → Option Text → Option Text
or_option none other = other
or_option (some t) other = some t

-- `physical_drive n` is the path `\\.\PhysicalDriveN`.
module _ (physical_drive : ℕ → FilePath) where
  unfoldable pub to_block : PsDisk → BlockDevice
  unfolding text_eq
  to_block d =
      let transport = transport_named (or_default d.bus_type []) in
      record {
        path = physical_drive d.number;
        vendor = d.manufacturer;
        model = or_option d.model d.friendly_name;
        serial = d.serial_number;
        size_bytes = or_default d.size 0;
        block_size = 512;
        transport = transport;
        removable = plugged_in transport;
        is_system = or_default d.is_boot false || or_default d.is_system false;
        read_only = or_default d.is_read_only false;
        mountpoints = [];
      }

  abbrev one_disk : {E : Type 0} → Result E PsDisk → Result E (List PsDisk)
  one_disk (err e) = err e
  one_disk (ok d) = ok (d ∷ [])

  abbrev blocks : {E : Type 0} → Result E (List PsDisk) → Result E (List BlockDevice)
  blocks (err e) = err e
  blocks (ok disks) = ok (map to_block disks)

  -- `enumerate_raw` behind the output of PowerShell, `stdout` trimmed: an array or a single object.
  unfoldable pub enumerate_raw :
      {E : Type 0}
      → (Text → Result E (List PsDisk))
      → (Text → Result E PsDisk)
      → Result E Text
      → Result E (List BlockDevice)
  unfolding to_block starts_with
  enumerate_raw from_array from_object (err e) = err e
  enumerate_raw from_array from_object (ok []) = ok []
  enumerate_raw from_array from_object (ok (c ∷ stdout)) = blocks (
      if starts_with (c ∷ stdout) (codes "[")
      then from_array (c ∷ stdout)
      else one_disk (from_object (c ∷ stdout)))

-- Windows has one node for a drive.
unfoldable pub raw_path : FilePath → FilePath
raw_path path = path
