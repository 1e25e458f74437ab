-- ===== src/Tui/Views/Confirm/Warnings.antt =====
-- The warnings of the confirmation in crates/tekflash/src/tui/views/confirm.rs.
use tekflash.Common.{
  ◌≡◌, ◌∙◌, refl, ap, Bool, true, List, [], ◌∷◌, ◌++◌, Text, FilePath, any, text_eq, text_eq_refl,
  arith, ◌||◌,
}
use tekflash.Device.{BlockDevice}
use tekflash.Tui.Action.{flash}
use tekflash.Tui.Confirm.{Confirm}
use tekflash.Tui.Theme.{Theme, danger_s}
use tekflash.Tui.Views.Confirm.{
  overwrite_warning, system_warning, warning_lines, message_lines, is_flash, top_lines, lines_of,
  render, dangerous,
}
use tekflash.Tui.Views.Figures.{F64}
use tekflash.Tui.Views.Spans.{Span, Line}

-- One of the lines shows the text.
pub shows : Text → List Line → Bool
shows t = any (any (λ (s : Span). text_eq t s.0))

shows-append : (t : Text) (xs ys : List Line) → shows t (xs ++ ys) ≡ (shows t xs || shows t ys)
unfolding shows
shows-append t [] ys = refl
shows-append t (x ∷ xs) ys = ground (arith, shows-append t xs ys)

or_true : (b : Bool) → (b || true) ≡ true
or_true b = ground arith

shows-warning :
    (theme : Theme) (t : Text) (rest : List Line)
    → shows t (warning_lines theme true t ++ rest) ≡ true
unfolding shows
shows-warning theme t rest = ground (arith, text_eq_refl t)

-- What the lines in front of others show is shown.
shows_behind : (t : Text) (xs ys : List Line) → shows t ys ≡ true → shows t (xs ++ ys) ≡ true
shows_behind t xs ys h = shows-append t xs ys ∙ ground arith

module _ (f : F64) (display : FilePath → Text) (theme : Theme) (c : Confirm)
    (device : BlockDevice) where
  -- A flash, and whatever is done with the system's disk, is confirmed under a border in the colour of
  -- danger; a flash shows that it overwrites the device, and the system's disk that it is that.
  pub render-warns :
      (c.action ≡ flash
        → (shows overwrite_warning (render f display theme c device).lines ≡ true)
          × ((render f display theme c device).border ≡ danger_s theme))
      × (device.is_system ≡ true
          → (shows system_warning (render f display theme c device).lines ≡ true)
            × ((render f display theme c device).border ≡ danger_s theme))
  unfolding render lines_of dangerous
  render-warns =
      let top = top_lines f display theme c device in
      let msg = message_lines theme c.result_message in
      (
        λ e.
            let h : is_flash c.action ≡ true = ap is_flash e in
            rw h (
              shows_behind overwrite_warning top _ (
                  shows_behind overwrite_warning
                    (warning_lines theme device.is_system system_warning) _
                    (shows-warning theme overwrite_warning msg)),
              refl,
            ),
        λ e.
            let h : dangerous c.action device ≡ true =
              ap (λ b. is_flash c.action || b) e ∙ or_true _ in
            (rw e (shows_behind system_warning top _ (shows-warning theme system_warning _)), rw h),
      )
