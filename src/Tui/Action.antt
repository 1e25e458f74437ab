-- ===== src/Tui/Action.antt =====
-- crates/tekflash/src/tui/views/action_picker.rs.
use tekflash.Common.{ℕ, ◌+◌, ◌-◌, List, [], ◌∷◌, Text, codes, ltb, if◌then◌else◌, get_or, length}

pub data Action : Type 0 where
  flash backup archive : Action

abbrev pub all_actions : List Action
all_actions = flash ∷ backup ∷ archive ∷ []

pub label : Action → Text
label flash = codes "Flash an image to this device"
label backup = codes "Back up this device to an image file"
label archive = codes "Archive this device's filesystem (.tar.zst)"

pub short_label : Action → Text
short_label flash = codes "Flash"
short_label backup = codes "Backup"
short_label archive = codes "Archive"

pub explanation : Action → Text
explanation flash = codes "Overwrites the device. The image source is decompressed on the fly."
explanation backup = codes "Reads the device bit-for-bit, compressed via the chosen codec."
explanation archive = codes "Reads files (not blocks); the device must be mounted."

pub record ActionPicker : Type 0 where
  pub device_idx : ℕ
  pub cursor : ℕ

unfoldable pub new : ℕ → ActionPicker
new device_idx = record { device_idx = device_idx; cursor = 0 }

unfoldable pub move_up : ActionPicker → ActionPicker
move_up p = if ltb 0 p.cursor then record p { cursor = p.cursor - 1 } else p

unfoldable pub move_down : ActionPicker → ActionPicker
move_down p =
    if ltb (p.cursor + 1) (length all_actions) then record p { cursor = p.cursor + 1 } else p

-- `Action::ALL[self.cursor]`; the cursor stays below three, so that the default is never met.
unfoldable pub selected_action : ActionPicker → Action
selected_action p = get_or all_actions p.cursor flash
