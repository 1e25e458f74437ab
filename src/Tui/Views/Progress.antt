-- ===== src/Tui/Views/Progress.antt =====
-- The text of crates/tekflash/src/tui/views/progress.rs; the block map is in BlockMap. `since_start` is
-- the time since the worker was started and `instant_rate` the rate of the last tick.
pub mod Fits
use tekflash.Common.{
  ℕ, ◌+◌, ◌-◌, min, Bool, true, false, List, [], ◌∷◌, ◌++◌, Option, none, some, Text, FilePath,
  codes, leb, if◌then◌else◌,
}
use tekflash.Runner.Progress.{
  BackupProgress, BackupStatus, running, done, broken, OperationKind, is_running,
}
use tekflash.Tui.Theme.{Theme, Style, title, body, muted_s, danger_s, success_s}
use tekflash.Tui.Views.Figures.{
  F64, human_bytes, format_rate, format_duration, short_hash, truncate_left, decimal, elapsed,
  average_rate, ratio, fraction, eta, estimated_output_size,
}
use tekflash.Tui.Views.Spans.{Span, Line, unstyled, footer_keys, codec_text, human_kind}

-- The rows of the parts of the screen that have a fixed height, and those that are left for the map.
unfoldable pub map_h : (height : ℕ) → ℕ
map_h height = height - (3 + 3 + 11 + 3 + 2)

unfoldable pub shows_map : (height : ℕ) → Bool
unfolding map_h
shows_map height = leb 3 (map_h height)

abbrev dash_or : Option Text → Text
dash_or none = codes "—"
dash_or (some t) = t

abbrev mapped : {A : Type 0} → (A → Text) → Option A → Option Text
mapped f none = none
mapped f (some a) = some (f a)

-- What the status is called in the title and in the panel, and its style.
abbrev pub title_word : BackupStatus → Text
title_word running = codes " running "
title_word (done h e) = codes " finished "
title_word (broken m) = codes " failed "

abbrev status_word : BackupStatus → Text
status_word running = codes "streaming…"
status_word (done h e) = codes "complete"
status_word (broken m) = codes "error"

module _ (theme : Theme) where
  abbrev pub title_style : BackupStatus → Style
  title_style running = title theme
  title_style (done h e) = success_s theme
  title_style (broken m) = danger_s theme

  abbrev pub status_style : BackupStatus → Style
  status_style running = muted_s theme
  status_style (done h e) = success_s theme
  status_style (broken m) = danger_s theme

  abbrev gauge_style : BackupStatus → Style
  gauge_style running = success_s theme
  gauge_style (done h e) = success_s theme
  gauge_style (broken m) = danger_s theme

  abbrev status_text : Text → BackupStatus → Text
  status_text kind running =
      kind
      ++ codes " is streaming. Press Esc to detach (the worker keeps running in the background)."
  status_text kind (done hash_hex time) =
      kind
      ++ (codes " OK in "
          ++ (format_duration time ++ (codes ".  BLAKE3 = " ++ short_hash hash_hex)))
  status_text kind (broken message) = kind ++ (codes " FAILED: " ++ message)

  abbrev pub labelled : Text → Text → Line
  labelled label value = (b' ' ∷ label ++ codes ": ", muted_s theme) ∷ (value, body theme) ∷ []

  module _ {G : Type 0} (p : BackupProgress G) where
    unfoldable pub header_text : (display : FilePath → Text) → Line
    unfolding title body success_s danger_s human_kind
    header_text display =
        (b' ' ∷ human_kind p.params.kind ++ title_word p.status, title_style p.status)
        ∷ unstyled (codes "  ")
        ∷ (display p.params.source, body theme)
        ∷ (codes "  ->  ", title theme)
        ∷ (display p.params.dest, body theme)
        ∷ []

    unfoldable pub status_line : Span
    unfolding muted_s success_s danger_s human_kind format_duration short_hash
    status_line = (status_text (human_kind p.params.kind) p.status, status_style p.status)

    unfoldable pub footer : Line
    unfolding is_running footer_keys
    footer = footer_keys theme (
        (if is_running p
          then (codes "Esc / q", codes "detach (backup keeps running)")
          else (codes "Esc / q / Enter", codes "back to home"))
        ∷ [])

    abbrev pub hash_lines : BackupStatus → List Line
    hash_lines running = []
    hash_lines (done hash_hex time) = labelled (codes "BLAKE3     ") (short_hash hash_hex) ∷ []
    hash_lines (broken m) = []

    abbrev current_of : Option Text → Text
    current_of none = codes "walking source tree…"
    current_of (some file) = file

    -- Only an archive shows the file that it works on.
    abbrev pub current_lines : OperationKind → List Line
    current_lines OperationKind.archive =
        labelled (codes "current    ") (truncate_left (current_of p.current_file) 56) ∷ []
    current_lines _ = []

    abbrev size_or_unknown : F64 → Option ℕ → Text
    size_or_unknown f none = codes "unknown"
    size_or_unknown f (some total) = human_bytes f total

    unfoldable pub stream_lines : (f : F64) → (display : FilePath → Text) → List Line
    unfolding body muted_s codec_text human_bytes fraction ratio estimated_output_size short_hash
        truncate_left
    stream_lines f display =
        labelled (codes "source     ") (display p.params.source)
          ∷ labelled (codes "dest       ") (display p.params.dest)
          ∷ labelled (codes "codec      ") (codec_text p.params.codec p.params.level)
          ∷ labelled (codes "total size ") (size_or_unknown f p.params.total_bytes)
          ∷ labelled (codes "read       ") (
              human_bytes f p.bytes_in
              ++ (codes "  ("
                  ++ (dash_or (
                        mapped (λ (r : f.Double). f.fixed 1 (f.mul r (f.of_u64 100)) ++ codes "%")
                          (fraction f p))
                      ++ codes ")")))
          ∷ labelled (codes "wrote      ") (
              human_bytes f p.bytes_out
              ++ (codes "  (ratio "
                  ++ (dash_or (mapped (λ (r : f.Double). f.fixed 2 r ++ codes "×") (ratio f p))
                      ++ codes ")")))
          ∷ labelled (codes "est. output")
              (dash_or (mapped (human_bytes f) (estimated_output_size f p)))
          ∷ current_lines p.params.kind
        ++ hash_lines p.status

    unfoldable pub throughput_lines :
        (f : F64) → (instant_rate : f.Double) → (since_start : ℕ) → List Line
    unfolding body muted_s format_rate format_duration elapsed average_rate eta human_bytes
    throughput_lines f instant_rate since_start =
        labelled (codes "rate (now) ") (format_rate f instant_rate)
        ∷ labelled (codes "rate (avg) ") (format_rate f (average_rate f p since_start))
        ∷ labelled (codes "elapsed    ") (format_duration (elapsed f p since_start))
        ∷ labelled (codes "ETA        ") (dash_or (mapped format_duration (eta f p since_start)))
        ∷ labelled (codes "remaining  ")
            (dash_or (mapped (λ (t : ℕ). human_bytes f (t - p.bytes_in)) p.params.total_bytes))
        ∷ labelled (codes "buffer     ") (codes "4 MiB read · 4 MiB write")
        ∷ labelled (codes "status     ") (status_word p.status)
        ∷ []

    abbrev label_of : F64 → (pct : ℕ) → Option ℕ → Text
    label_of f pct none = human_bytes f p.bytes_in
    label_of f pct (some total) =
        human_bytes f p.bytes_in
        ++ (codes " / " ++ (human_bytes f total ++ (codes "  (" ++ (decimal pct ++ codes "%)"))))

    abbrev or_zero : (f : F64) → Option f.Double → f.Double
    or_zero f none = f.of_u64 0
    or_zero f (some r) = r

    abbrev percent : (f : F64) → f.Double → f.Double
    percent f r =
        let x = f.mul r (f.of_u64 100) in
        if f.lt x (f.of_u64 0)
        then f.of_u64 0
        else if f.lt (f.of_u64 100) x
        then f.of_u64 100
        else x

    -- The ratio, the label and the style of the gauge.
    unfoldable pub gauge : (f : F64) → f.Double × Text × Style
    unfolding fraction human_bytes decimal success_s danger_s
    gauge f =
        let r = or_zero f (fraction f p) in
        (
          r,
          label_of f (f.as_u64 (f.round (percent f r))) p.params.total_bytes,
          gauge_style p.status,
        )
