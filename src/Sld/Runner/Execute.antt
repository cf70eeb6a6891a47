-- ===== src/Sld/Runner/Execute.antt =====
-- `_execute_entry` of player/src/sld/runner.c, with the executing functions of text.c, shape.c, play.c and
-- query.c, built with CONFIG_HAVE_ENV_LANG and CONFIG_HAVE_ENV_TZ.
use lavender.Base.{
  ℕ, ◌+◌, ◌-◌, ◌*◌, ◌/◌, ◌^◌, Bool, true, false, List, [], ◌∷◌, Option, some, none, Bytes,
}
use lavender.Base.{ltb, ◌==◌, codes, str_equal, if◌then◌else◌, u16}
use lavender.Enc.{enosys, success, failure}
use lavender.Enc.Session.{Wizard}
use lavender.Gfx.Color.{GfxColor}
use lavender.Sld.Areas.{aligned, execute_active_area}
use lavender.Sld.Entry.{
  SldEntry, SldType, text, bitmap, rect, rectf, play, waitkey, actarea, query, jump, jumpe, call,
  Content, chars, shape, area, script_call, c_string,
}
use lavender.Sld.Runner.Calls.{handle_script_call}
use lavender.Sld.Runner.State.{
  Notice, Failure, syserr, sld_argerr, wait, unsupported, no_asset, too_many_areas, SldContext,
  Shared, Executed, done, goto_label, error, GfxRect, Player,
}

-- The text that an entry's `content` is.
abbrev pub text_of_content : Content → Bytes
text_of_content (chars bytes) = bytes
text_of_content _ = []

-- A result that is an error where a call gave false.
unfoldable pub checked : Bool → Failure → List Notice → Executed
checked true f notices = done
checked false f notices = error f notices

module _ {W : Type 0} (p : Player W) where
  -- `__sld_execute_text`
  unfoldable pub execute_text : SldEntry → Shared W → Executed × Shared W
  unfolding checked
  execute_text e s =
      let (drawn, w) =
        p.draw_text (c_string (text_of_content e.content)) (aligned 80 e.length e.posx) e.posy
          s.world in
      (checked drawn syserr (unsupported ∷ []), record s { world = w })

  -- `_translate`, of a screen's width and height: the `int`s are of 32 bits, and no product reaches 2 to the 31st.
  unfoldable pub translate : ℕ × ℕ → (x y width height : ℕ) → GfxRect
  translate screen x y width height =
      let left = u16 (x * screen.0 / 640) in
      let top = u16 (y * screen.1 / 200) in
      record {
        left = left;
        top = top;
        width = (x + width) * screen.0 / 640 - left;
        height = (y + height) * screen.1 / 200 - top;
      }

  draw_shape : SldType → GfxRect → GfxColor → W → Bool × W
  draw_shape rect r color w = p.draw_rectangle r color w
  draw_shape _ r color w = p.fill_rectangle r color w

  -- `__sld_execute_rectangle`
  unfoldable pub execute_rectangle : SldEntry → Content → Shared W → Executed × Shared W
  unfolding checked draw_shape translate
  execute_rectangle e (shape width height color) s =
      let r = translate (p.screen s.world) (aligned 640 width e.posx) e.posy width height in
      let (drawn, w) = draw_shape e.sld_type r color s.world in
      (checked drawn syserr (unsupported ∷ []), record s { world = w })
  execute_rectangle e _ s = (error syserr (unsupported ∷ []), s)

  -- `__sld_execute_play`
  unfoldable pub execute_play : SldEntry → Shared W → Executed × Shared W
  execute_play e s =
      let (status, w) = p.play (c_string (text_of_content e.content)) s.world in
      (
        elim status [
          | success n ↦ done
          | failure enosys ↦ done
          | failure _ ↦ error syserr (no_asset ∷ [])
        ],
        record s { world = w },
      )

  -- The text up to a colon and the text behind it, as `strchr` finds it.
  unfoldable pub split_query : Bytes → Option (Bytes × Bytes)
  split_query [] = none
  split_query (c ∷ bytes) =
      let rest = split_query bytes in
      if c == b':'
      then some ([], bytes)
      else elim rest [ none ↦ none | some r ↦ some (c ∷ r.0, r.1) ]

  -- `_get` and `_set`, with the accumulator's new value.
  unfoldable pub get_property : Bytes → W → ℕ × W
  get_property name w =
      if str_equal (codes "gfx.colorful") name
      then (if ltb 2 (p.color_depth w) then 1 else 0, w)
      else (2 ^ 16 - 1, w)

  abbrev pub flag : Bool × W → ℕ × W
  flag r = (if r.0 then 1 else 0, r.1)

  unfoldable pub set_property : Bytes → Bytes → W → ℕ × W
  set_property name value w =
      if str_equal (codes "env.lang") name
      then flag (p.set_env (codes "LANG") value w)
      else if str_equal (codes "env.tz") name
      then flag (p.set_env (codes "TZ") value w)
      else if str_equal (codes "gfx.title") name
      then flag (p.set_title value w)
      else (2 ^ 16 - 1, w)

  -- `__sld_execute_query`
  unfoldable pub execute_query : SldEntry → Shared W → Executed × Shared W
  unfolding split_query get_property set_property
  execute_query e s =
      let content = c_string (text_of_content e.content) in
      let (accumulator, w) : ℕ × W = elim (split_query content) [
        | some r ↦ set_property r.0 r.1 s.world
        | none ↦ get_property content s.world
      ] in
      (done, record s { accumulator = accumulator; world = w })

  -- `__sld_execute_active_area`, of the entry's own fields.
  unfoldable pub execute_area : SldEntry → Content → Shared W → Executed × Shared W
  unfolding checked
  execute_area e (area width height tag) s =
      let (areas, added) = execute_active_area 80 e.posx e.posy width height tag s.areas in
      (checked added sld_argerr (too_many_areas ∷ []), record s { areas = areas })
  execute_area e _ s = (error sld_argerr [], s)

  -- The case SLD_TYPE_JUMPE
  unfoldable pub execute_jumpe : SldEntry → Shared W → Executed × Shared W
  execute_jumpe e s =
      if s.accumulator == e.posy
      then (
        goto_label,
        if ltb s.accumulator 10000 then record s { world = p.disable_mouse s.world } else s,
      )
      else (done, s)

  draw_bitmap_entry : SldEntry → Shared W → Executed × Shared W
  draw_bitmap_entry e s =
      let (executed, w) = p.draw_bitmap e s.world in (executed, record s { world = w })

  -- The cases that leave the context as it is.
  unfoldable pub execute_plain : SldType → SldEntry → Shared W → Executed × Shared W
  unfolding execute_text execute_rectangle execute_play execute_query execute_area execute_jumpe
      draw_bitmap_entry
  execute_plain text e s = execute_text e s
  execute_plain bitmap e s = draw_bitmap_entry e s
  execute_plain rect e s = execute_rectangle e e.content s
  execute_plain rectf e s = execute_rectangle e e.content s
  execute_plain play e s = execute_play e s
  execute_plain actarea e s = execute_area e e.content s
  execute_plain query e s = execute_query e s
  execute_plain jump e s = (goto_label, s)
  execute_plain jumpe e s = execute_jumpe e s
  execute_plain _ e s = (done, s)

  module _ (z : Wizard W) where
    unfoldable pub execute_call :
        Content → SldContext → Shared W → Option (Executed × SldContext × Shared W)
    execute_call (script_call c) ctx s = handle_script_call p z c ctx.call_state ctx s
    execute_call _ ctx s = none

    -- `_execute_entry`, over the context's entry, by the type.
    unfoldable pub execute_entry :
        SldType → SldContext → Shared W → Option (Executed × SldContext × Shared W)
    unfolding execute_plain execute_call
    execute_entry waitkey ctx s =
        some (done, record ctx { state = wait }, record s { world = p.enable_mouse s.world })
    execute_entry call ctx s = execute_call ctx.entry.content ctx s
    execute_entry kind ctx s =
        let (executed, s') = execute_plain kind ctx.entry s in some (executed, ctx, s')
