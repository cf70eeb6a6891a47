-- ===== src/Sld/Runner/State.antt =====
-- The state of player/src/sld/runner.c, and what it calls.
use lavender.Base.{ℕ, Bool, List, Option, Bytes}
use lavender.Enc.{Errno, Status, EncContext}
use lavender.Enc.Content.{Platform}
use lavender.Gfx.Color.{GfxColor}
use lavender.Sld.Areas.{Area}
use lavender.Sld.Loader.{Message}
use lavender.Sld.Entry.{SldEntry}

-- SLD_SYSERR, SLD_ARGERR, and an error number, negated.
pub data Failure : Type 0 where
  syserr sld_argerr : Failure
  errno : Errno → Failure

-- `sld_state`
pub data SldState : Type 0 where
  load execute delay wait stop quit : SldState
  failed : Failure → SldState

-- The lines of a message that an error leaves. `missing_label` is IDS_NOLABEL; what follows it in its line is not modelled,
-- since `snprintf` then reads the label from the memory that it writes the message to.
pub data Notice : Type 0 where
  load_error exec_error no_type unsupported no_asset too_many_areas no_exec_ctx unknown_keysrc
        missing_label :
      Notice
  loading : Message → Notice

-- A script in memory that is opened: its file, what can be read from `data` on, and `size`.
pub record Script : Type 0 where
  pub asset : ℕ
  pub script_data : Bytes
  pub script_size : ℕ

-- The execution state of a script call: STATE_PREPARE, STATE_ENTER and STATE_DECODE.
pub data CallState : Type 0 where
  prepare : CallState
  enter : Script → CallState
  decode : Script → EncContext → CallState

-- `sld_context`, whose `entry` and `message` share memory: after a message is written only that counts.
-- `call_state` is the execution state in the content of `entry`.
pub record SldContext : Type 0 where
  pub script : Script
  pub offset : ℕ
  pub state : SldState
  pub next_step : ℕ
  pub entry : SldEntry
  pub call_state : CallState
  pub message : List Notice

-- `__sld_accumulator`, `_areas`, and the rest of the program.
pub record Shared (W : Type 0) : Type 0 where
  pub accumulator : ℕ
  pub areas : List Area
  pub world : W

-- What executing an entry gives: 0, CONTINUE, INT_MAX, and an error with what it writes as the message;
-- `entered` is 0 with a context entered.
pub data Executed : Type 0 where
  done again goto_label : Executed
  entered : SldContext → Executed
  error : Failure → List Notice → Executed

-- `gfx_rect`
pub record GfxRect : Type 0 where
  pub left : ℕ
  pub top : ℕ
  pub width : ℕ
  pub height : ℕ

-- What the runner calls of the platform, of drawing and of sound. An open file is a number; `open_asset` takes a
-- name and whether the file is to be written. `play` is `snd_play` with its `errno`, and `set_env` is `setenv`.
pub record Player (W : Type 0) : Type 0 where
  pub pal_handle : W → Bool × W
  pub snd_handle : W → W
  pub get_keystroke : W → ℕ × W
  pub get_mouse : W → (ℕ × ℕ × ℕ) × W
  pub enable_mouse : W → W
  pub disable_mouse : W → W
  pub get_counter : W → ℕ × W
  pub get_ticks : ℕ → ℕ
  pub screen : W → ℕ × ℕ
  pub color_depth : W → ℕ
  pub set_title : Bytes → W → Bool × W
  pub set_env : Bytes → Bytes → W → Bool × W
  pub draw_text : Bytes → ℕ → ℕ → W → Bool × W
  pub draw_rectangle : GfxRect → GfxColor → W → Bool × W
  pub fill_rectangle : GfxRect → GfxColor → W → Bool × W
  pub draw_bitmap : SldEntry → W → Executed × W
  pub play : Bytes → W → Status × W
  pub open_asset : Bytes → Bool → W → Option ℕ × W
  pub load_asset : ℕ → W → Option Bytes × W
  pub asset_size : ℕ → W → ℕ
  pub close_asset : ℕ → W → W
  pub enc : Platform W
