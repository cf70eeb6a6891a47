-- ===== src/Enc/Session.antt =====
-- `enc_handle` of player/src/enc/enc.c: the states of a session that opens content. The dialogs of ext/sharizard
-- are a parameter: their pages hold the context, so what they do with it is a part of that.
pub mod Ready
pub mod Keyed
pub mod Laws
pub mod Scripted
pub mod Unsaved
use lavender.Base.{
  ℕ, ◌+◌, ◌-◌, ◌^◌, Bool, true, false, Option, none, some, if◌then◌else◌, ◌==◌, u32,
}
use lavender.Cipher.Des.Stream.{◌>>=◌}
use lavender.Enc.{
  State, initialize, read, verify, complete, Errno, eacces, Status, success, failure, continue,
  EncContext,
}
use lavender.Enc.Content.{Platform, Provider, enc_prov, decrypt_content}

-- `shiz_handle`, `shiz_get_page` and `shiz_set_page`, and SHIZ_INCOMPLETE. A number is an `int` of 32 bits.
pub record Wizard (W : Type 0) : Type 0 where
  pub incomplete : ℕ
  pub handle : EncContext → W → ℕ × EncContext × W
  pub get_page : EncContext → W → ℕ
  pub set_page : EncContext → W → ℕ → EncContext × W

-- The `int` -1.
abbrev pub minus_one : ℕ
minus_one = 2 ^ 32 - 1

module _ {W : Type 0} (p : Platform W) where
  -- `REQUIRE_SUCCESS (status)`, and the rest of the case where the status is no error.
  unfoldable pub require_success :
      Status × EncContext × W
      → (ℕ → EncContext → W → Status × EncContext × W)
      → Status × EncContext × W
  require_success (failure e, enc, w) rest = (failure e, enc, p.encui_exit w)
  require_success (success n, enc, w) rest = rest n enc w

  -- The state behind ENCM_INITIALIZE.
  unfoldable pub begin : ℕ → EncContext → W → Status × EncContext × W
  begin n enc w = (continue, record enc { state = if n == 0 then verify else read }, w)

  -- Case ENCS_INITIALIZE behind `_decrypt_content (enc, true)`.
  unfoldable pub handle_loaded : Status × EncContext × W → Status × EncContext × W
  unfolding require_success begin
  handle_loaded (success n, enc, w) =
      if n == 0
      then (continue, record enc { state = complete }, w)
      else require_success ((enc_prov p enc).initialize_key enc w) begin
  handle_loaded (failure e, enc, w) = require_success ((enc_prov p enc).initialize_key enc w) begin

  finish : ℕ → EncContext → W → Status × EncContext × W
  finish n enc w = (continue, record enc { state = complete }, w)

  -- Case ENCS_VERIFY behind `_decrypt_content (enc, false)`.
  unfoldable pub handle_verified : Status × EncContext × W → Status × EncContext × W
  unfolding require_success finish
  handle_verified r = require_success r finish

  -- Case ENCS_READ.
  unfoldable pub handle_page : Wizard W → EncContext → W → Status × EncContext × W
  handle_page z enc w =
      let (status, enc', w') = z.handle enc w in
      if status == z.incomplete
      then (continue, enc', w')
      else if status == 0
      then (failure eacces, enc', p.encui_exit w')
      else (let (turned, w'') = z.set_page enc' w' (u32 (z.get_page enc' w' + 1)) in
          (
            continue,
            if z.get_page turned w'' == minus_one
                then record turned { state = complete }
                else turned,
            w'',
          ))

  -- The state of the context chooses the case.
  unfoldable pub handle_state : Wizard W → State → EncContext → W → Option (Status × EncContext × W)
  unfolding handle_loaded handle_verified handle_page
  handle_state z initialize enc w = do r ← decrypt_content p enc true w; some (handle_loaded r)
  handle_state z read enc w = some (handle_page z enc w)
  handle_state z verify enc w = do r ← decrypt_content p enc false w; some (handle_verified r)
  handle_state z complete enc w = some (success 0, enc, p.encui_exit w)

  unfoldable pub enc_handle : Wizard W → EncContext → W → Option (Status × EncContext × W)
  unfolding handle_state
  enc_handle z enc w = handle_state z enc.state enc w
