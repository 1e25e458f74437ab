-- ===== src/Tui/Views/Spans.antt =====
-- Styled text, and what several views of crates/tekflash/src/tui print: `footer_keys` of widgets.rs, the
-- layout mode of layout.rs, and numbers and names as `{}` and `{:?}` print them.
use tekflash.Common.{
  ℕ, suc, ◌+◌, ◌-◌, ◌/◌, min, false, List, [], ◌∷◌, ◌++◌, none, Text, codes, leb, if◌then◌else◌,
  ◌&&◌, ℤ, pos, negsuc, ◌≤◌, arith,
}
use tekflash.Device.{Transport, usb, sd, mmc, sata, nvme, pcie, thunderbolt, scsi, virtual, unknown}
use tekflash.Pipeline.Compress.{Codec, CompressionLevel, human}
use tekflash.Runner.Progress.{OperationKind}
use tekflash.Tui.Theme.{Theme, Style, title, muted_s}
use tekflash.Tui.Views.Figures.{decimal}

abbrev pub Span : Type 0
Span = Text × Style

abbrev pub Line : Type 0
Line = List Span

abbrev pub plain : Style
plain = record { fore = none; back = none; bold = false }

abbrev pub unstyled : Text → Span
unstyled t = (t, plain)

abbrev pub blank : Line
blank = unstyled [] ∷ []

-- `footer_keys`: the keys with their meanings, three blanks apart.
abbrev pub next_keys : Theme → List (Text × Text) → Line
next_keys theme [] = []
next_keys theme ((k, v) ∷ keys) =
    (codes "   ", muted_s theme)
    ∷ (k, title theme)
    ∷ unstyled (codes " ")
    ∷ (v, muted_s theme)
    ∷ next_keys theme keys

unfoldable pub footer_keys : Theme → List (Text × Text) → Line
unfolding title muted_s
footer_keys theme [] = []
footer_keys theme ((k, v) ∷ keys) =
    (k, title theme) ∷ unstyled (codes " ") ∷ (v, muted_s theme) ∷ next_keys theme keys

-- `layout::pick`.
pub data Mode : Type 0 where
  full compact minimal : Mode

unfoldable pub pick : (width height : ℕ) → Mode
pick width height =
    if leb 120 width && leb 30 height then full else if leb 100 width then compact else minimal

abbrev pub debug : Transport → Text
debug usb = codes "Usb"
debug sd = codes "Sd"
debug mmc = codes "Mmc"
debug sata = codes "Sata"
debug nvme = codes "Nvme"
debug pcie = codes "Pcie"
debug thunderbolt = codes "Thunderbolt"
debug scsi = codes "Scsi"
debug virtual = codes "Virtual"
debug unknown = codes "Unknown"

-- `join(", ")`.
abbrev pub join : List Text → Text
join [] = []
join (t ∷ []) = t
join (t ∷ u ∷ ts) = t ++ (codes ", " ++ join (u ∷ ts))

-- `{}` of an i32.
unfoldable pub signed : ℤ → Text
unfolding decimal
signed (pos n) = decimal n
signed (negsuc n) = b'-' ∷ decimal (suc n)

-- The level beside a codec; two of the codecs have none.
unfoldable pub level_text : Codec → CompressionLevel → Text
unfolding signed
level_text Codec.none l = codes "—"
level_text Codec.lz4 l = codes "—"
level_text codec l = signed l.level

unfoldable pub codec_text : Codec → CompressionLevel → Text
unfolding level_text human
codec_text codec l = human codec ++ (codes "  (level " ++ (level_text codec l ++ codes ")"))

-- `OperationKind::human`.
unfoldable pub human_kind : OperationKind → Text
human_kind OperationKind.backup = codes "Backup"
human_kind OperationKind.archive = codes "Archive"
human_kind OperationKind.flash = codes "Flash"

-- The offset and the length of a popup that is centred in one direction.
unfoldable pub centered : (available want : ℕ) → ℕ × ℕ
centered available want = let size = min want (available - 4) in ((available - size) / 2, size)

-- A popup stays inside the area and is at most as large as asked for.
pub centered_bounds :
    (available want : ℕ)
    → ((centered available want).0 + (centered available want).1 ≤ available)
      × ((centered available want).1 ≤ want)
unfolding centered
centered_bounds available want = (omega arith, omega arith)
