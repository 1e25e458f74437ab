-- ===== src/Tui/App/Pickers.antt =====
-- The keys of the action picker and of the codec picker, in crates/tekflash/src/tui/mod.rs.
use tekflash.Common.{ℕ, ◌||◌, List, Option, none, some, ◌==◌, if◌then◌else◌, pos}
use tekflash.Pipeline.Compress.{Codec}
use tekflash.Tui.Action
use tekflash.Tui.Action.{Action, ActionPicker, flash, backup, archive, selected_action}
use tekflash.Tui.CodecPicker
use tekflash.Tui.CodecPicker.{CodecPicker, output_extension}
use tekflash.Tui.FileBrowser.Defs.{opening, saving}
use tekflash.Tui.FileBrowser.Ops.{open_browser, open_with_extension, is_nil}
use tekflash.Tui.App.State.{KeyCode, char, esc, enter, up, down, left, right, AppState, System}

-- `Action::ALL.iter().position(|a| *a == action)`: that often the cursor moves down.
reopen_at : Action → ActionPicker → ActionPicker
unfolding Action.move_down
reopen_at flash p = p
reopen_at backup p = Action.move_down p
reopen_at archive p = Action.move_down (Action.move_down p)

some_text : List ℕ → Option (List ℕ)
some_text s = if is_nil s then none else some s

module _ {G : Type 0} where
  -- What Enter does in the action picker, by the action under the cursor.
  choose_action : System → AppState G → Action → ℕ → AppState G
  unfolding open_browser CodecPicker.new
  choose_action sys st flash device_idx = record st {
    action_picker = none;
    browser_purpose = some (record {
      action = flash;
      device_idx = device_idx;
      codec = Codec.none;
      level = record { level = pos 0 };
    });
    browser = some (open_browser sys.fs sys.fs.default_start_dir opening);
  }
  choose_action sys st backup device_idx = record st {
    action_picker = none;
    codec_picker = some (CodecPicker.new backup device_idx);
  }
  choose_action sys st archive device_idx = record st {
    action_picker = none;
    codec_picker = some (CodecPicker.new archive device_idx);
  }

  unfoldable pub handle_action_picker_key :
      System → AppState G → ActionPicker → KeyCode → AppState G
  unfolding choose_action Action.move_up Action.move_down selected_action
  handle_action_picker_key sys st picker esc = record st { action_picker = none }
  handle_action_picker_key sys st picker up = record st {
    action_picker = some (Action.move_up picker);
  }
  handle_action_picker_key sys st picker down = record st {
    action_picker = some (Action.move_down picker);
  }
  handle_action_picker_key sys st picker enter =
      choose_action sys st (selected_action picker) picker.device_idx
  handle_action_picker_key sys st picker (char c) =
      if c == b'q'
      then record st { action_picker = none }
      else if c == b'k'
      then record st { action_picker = some (Action.move_up picker) }
      else if c == b'j'
      then record st { action_picker = some (Action.move_down picker) }
      else st
  handle_action_picker_key sys st picker _ = st

  -- Enter in the codec picker opens the browser in Save mode.
  choose_codec : System → AppState G → CodecPicker → AppState G
  unfolding CodecPicker.picked CodecPicker.output_extension open_with_extension some_text
  choose_codec sys st picker =
      let (codec, level, ext) = CodecPicker.picked picker in
      record st {
        codec_picker = none;
        browser_purpose = some (record {
          action = picker.action;
          device_idx = picker.device_idx;
          codec = codec;
          level = level;
        });
        browser = some (
            open_with_extension sys.fs sys.fs.default_start_dir saving
              (some_text (CodecPicker.output_extension picker picker.action)));
      }

  -- A key that changes the picker and nothing else.
  abbrev with_codec_picker : AppState G → CodecPicker → AppState G
  with_codec_picker st picker = record st { codec_picker = some picker }

  codec_char : AppState G → CodecPicker → ℕ → AppState G
  unfolding CodecPicker.level_down CodecPicker.level_up CodecPicker.jump_min CodecPicker.jump_max
  codec_char st picker c =
      if c == b'-' || c == b'_'
      then with_codec_picker st (CodecPicker.level_down picker)
      else if c == b'+' || c == b'=' || c == b']'
      then with_codec_picker st (CodecPicker.level_up picker)
      else if c == b'0'
      then with_codec_picker st (CodecPicker.jump_min picker)
      else if c == b'9'
      then with_codec_picker st (CodecPicker.jump_max picker)
      else st

  unfoldable pub handle_codec_picker_key : System → AppState G → CodecPicker → KeyCode → AppState G
  unfolding reopen_at choose_codec codec_char Action.new CodecPicker.move_up CodecPicker.move_down
      CodecPicker.level_down CodecPicker.level_up
  handle_codec_picker_key sys st picker esc = record st {
    codec_picker = none;
    action_picker = some (reopen_at picker.action (Action.new picker.device_idx));
  }
  handle_codec_picker_key sys st picker up = with_codec_picker st (CodecPicker.move_up picker)
  handle_codec_picker_key sys st picker down = with_codec_picker st (CodecPicker.move_down picker)
  handle_codec_picker_key sys st picker left = with_codec_picker st (CodecPicker.level_down picker)
  handle_codec_picker_key sys st picker right = with_codec_picker st (CodecPicker.level_up picker)
  handle_codec_picker_key sys st picker enter = choose_codec sys st picker
  handle_codec_picker_key sys st picker (char c) = codec_char st picker c
  handle_codec_picker_key sys st picker _ = st
