-- ===== src/Tests/DeviceTests.antt =====
-- The device list on a small output of lsblk.
use tekflash.Common.{
  Among, ◌↔◌, ◌⊎◌, ok, true, ◌&&◌, ◌≡◌, false, [], ◌∷◌, none, some, codes, leb, ◌==◌, refl, arith,
  map, contains, text_eq,
}
use tekflash.Device.Linux.{
  Std, LsblkFields, LsblkDev, LsblkDevs, dev, nil, cons, to_block, fields, children_of,
}
use tekflash.Device.Linux.Root
use tekflash.Device.Linux.Root.{LinuxHost, root_device_name}
use tekflash.Device.Linux.Mounts.{IsMountedAt, OneIsMountedAt, to_block-IsMountedAt}
use tekflash.Device.Mac.Mounts.{mountpoints_in}
use tekflash.Device.Mac.Printed.{Mounted, IsReadable, printed, mounted_on, mountpoints_in-printed}

-- A text is one component, and shorter paths come first.
abbrev std : Std
std = record { path_from = λ t. t ∷ []; is_whitespace = λ c. c == b' '; path_lt = λ p q. false }

abbrev part : LsblkFields
part = record {
  name = codes "sda1";
  kname = none;
  size = some 4;
  phy_sec = none;
  rota = none;
  rm = none;
  ro = none;
  tran = none;
  vendor = none;
  model = none;
  serial = none;
  mountpoint = some (codes "boot");
  mountpoints = some (some (codes "boot") ∷ none ∷ []);
  kind = some (codes "part");
}

abbrev disk : LsblkDev
disk =
    dev
      (record part {
        name = codes "sda";
        tran = some (codes "usb");
        kind = some (codes "disk");
        mountpoint = none;
        mountpoints = none;
      })
      (cons (dev part nil) nil)

abbrev system_disk : LsblkDev
system_disk = dev (record part { name = codes "nvme0n1"; kind = some (codes "disk") }) nil

abbrev listing : LsblkDevs
listing = cons system_disk (cons (dev part nil) (cons disk nil))

-- The root file system is on a partition whose parent lsblk names.
abbrev linux_host : LinuxHost (Unit {0})
linux_host = record {
  std = std;
  lsblk = ok (record { success = true; stdout = [] });
  from_slice = λ bytes. ok listing;
  findmnt = some (record { success = true; stdout = codes "/dev/nvme0n1p2 " });
  pkname = λ source. some (record { success = true; stdout = codes "nvme0n1" });
  from_utf8 = λ bytes. some bytes;
  from_utf8_lossy = λ bytes. bytes;
  first_line = λ t. some t;
  file_name = λ t. some t;
  is_numeric = λ c. leb b'0' c && leb c b'9';
}

linux_root : root_device_name linux_host ≡ some (codes "nvme0n1")
unfolding root_device_name
linux_root = refl

to_block-IsMountedAt_example : Among (codes "boot" ∷ []) (to_block std disk none).mountpoints ↔ (
    IsMountedAt std (codes "boot" ∷ []) (fields disk)
    ⊎ OneIsMountedAt std (codes "boot" ∷ []) (children_of disk))
to_block-IsMountedAt_example = to_block-IsMountedAt std (codes "boot" ∷ []) disk none

abbrev stick : Mounted
stick = record {
  number = codes "5";
  slice = codes "s2";
  on = codes "/Volumes/My on Stick";
  options = codes "exfat, local)";
}

abbrev other : Mounted
other = record stick { number = codes "50"; slice = []; on = codes "/Volumes/Fifty" }

stick-IsReadable : IsReadable std stick
unfolding contains
stick-IsReadable = record {
  numbered = (refl, tt);
  sliced = (refl, refl, tt);
  somewhere = omega arith;
  trimmed = refl;
  no_paren = refl;
}

other-IsReadable : IsReadable std other
unfolding contains
other-IsReadable = record {
  numbered = (refl, (refl, tt));
  sliced = tt;
  somewhere = omega arith;
  trimmed = refl;
  no_paren = refl;
}

mountpoints_in-printed_example :
    mountpoints_in std (codes "disk5") (map printed (other ∷ stick ∷ []))
    ≡ mounted_on std (codes "5") (other ∷ stick ∷ [])
mountpoints_in-printed_example =
    mountpoints_in-printed std (codes "5") (other ∷ stick ∷ []) (refl, tt)
      (other-IsReadable, (stick-IsReadable, tt))

only_the_stick :
    mounted_on std (codes "5") (other ∷ stick ∷ []) ≡ (codes "/Volumes/My on Stick" ∷ []) ∷ []
unfolding mounted_on text_eq
only_the_stick = refl

-- A mountpoint that has ` (` in its name is cut off there.
cut_at_paren :
    mountpoints_in std (codes "disk5") (codes "/dev/disk5s2 on /Volumes/Stick (1) (exfat)" ∷ [])
    ≡ (codes "/Volumes/Stick" ∷ []) ∷ []
unfolding mountpoints_in
cut_at_paren = refl
