-- ===== src/Device/Safety.antt =====
-- What the safety filter of crates/tekflash-core/src/device lets through.
use tekflash.Common.{◌≡◌, Bool, true, false, List, [], ◌∷◌, ◌⊎◌}
use tekflash.Device.{BlockDevice}

-- The list has the devices that are no system devices, each as often as it stands there, in their
-- order, and no other.
abbrev pub IsSafePart : List BlockDevice → List BlockDevice → Type 0
IsSafePart [] listed = listed ≡ []
IsSafePart (d ∷ ds) listed =
    ((d.is_system ≡ false) × (rest : List BlockDevice) × (listed ≡ d ∷ rest) × IsSafePart ds rest)
    ⊎ ((d.is_system ≡ true) × IsSafePart ds listed)

-- What is listed of a backend's devices.
abbrev pub IsListed : Bool → List BlockDevice → List BlockDevice → Type 0
IsListed show_all ds listed =
    ((show_all ≡ true) × (listed ≡ ds)) ⊎ ((show_all ≡ false) × IsSafePart ds listed)
