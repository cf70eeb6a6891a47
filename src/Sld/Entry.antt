-- ===== src/Sld/Entry.antt =====
-- `sld_load_entry` of player/src/sld/loader.c, with the loading functions of text.c, shape.c and bitmap.c. A script
-- is the list of the bytes that can be read from `ctx->data` on; a read behind them makes the result
-- `none`. It is built without CONFIG_HAVE_GFX_CHARSET.
pub mod Call
pub mod Line
pub mod Progress
use mathlib.Core.Option
use lavender.Base.{
  ℕ, zero, suc, ◌+◌, ◌-◌, Bool, true, false, List, [], ◌∷◌, ◌++◌, Option, some, none, Bytes,
}
use lavender.Base.{◌==◌, drop, get_elem?, if◌then◌else◌, u8}
use lavender.Cipher.Des.Stream.{◌>>=◌}
use lavender.Utf8.{strlen}
use lavender.Gfx.Color.{GfxColor, black, white, gray, unknown, gfx_get_color, searched_color}
use lavender.Sld.Numbers.{loadu}
use lavender.Sld.Loader.{
  Message, invalid_delay, unknown_type, Loaded, loaded, argerr, is_line_end, load_content,
  load_position, load_conditional, load_active_area, advance,
}
use lavender.Sld.Entry.Call.{ScriptCall, load_script_call}
use lavender.Sld.Entry.Line.{pass_line}

-- `sld_type`
pub data SldType : Type 0 where
  blank label text bitmap rect rectf play waitkey actarea query jump jumpe call : SldType

-- The union that `content` is: a text; the name of a bitmap in STATE_START; the size and the color of a shape; the
-- size and the tag of an active area; a script call.
pub data Content : Type 0 where
  chars : Bytes → Content
  bitmap_start : Bytes → Content
  shape : ℕ → ℕ → GfxColor → Content
  area : ℕ → ℕ → ℕ → Content
  script_call : ScriptCall → Content

-- `sld_entry`
pub record SldEntry : Type 0 where
  pub delay : ℕ
  pub posx : ℕ
  pub posy : ℕ
  pub sld_type : SldType
  pub content : Content
  pub length : ℕ

-- An array of `char` as a text: the bytes before the first zero.
unfoldable pub c_string : Bytes → Bytes
c_string [] = []
c_string (c ∷ bs) = let rest = c_string bs in if c == 0 then [] else c ∷ rest

-- `__sld_try_load`
abbrev pub try_load :
    {A B : Type 0} → Option (Loaded A) → (ℕ → A → Option (Loaded B)) → Option (Loaded B)
try_load none rest = none
try_load (some (argerr m)) rest = some (argerr m)
try_load (some (loaded n a)) rest = rest n a

abbrev pub with_position : SldEntry → ℕ × ℕ → SldEntry
with_position out position = record out { posy = position.0; posx = position.1 }

abbrev pub with_content : SldEntry → Bytes × ℕ → SldEntry
with_content out content = record out { content = chars content.0; length = content.1 }

-- The `int` that `utf8_strlen` gives, as a `uint8_t`.
abbrev pub length_byte : Option ℕ → ℕ
length_byte none = 255
length_byte (some n) = u8 n

-- `__sld_load_text`, from a place of the script on, as the functions below.
unfoldable pub load_text : Bytes → ℕ → SldEntry → Option (Loaded SldEntry)
load_text script start out = try_load (load_position (drop start script)) (λ n position.
    try_load (load_content (drop (start + n) script)) (λ k content. do
      size ← strlen (content.0 ++ 0 ∷ [])
      some (
          loaded (n + k)
            (with_content (with_position out position) (content.0, length_byte size)))))

unfoldable pub load_bitmap : Bytes → ℕ → SldEntry → Option (Loaded SldEntry)
load_bitmap script start out = try_load (load_position (drop start script)) (λ n position.
    try_load (load_content (drop (start + n) script)) (λ k content. some (
      loaded (n + k) (record (with_position out position) {
        content = bitmap_start content.0;
        length = content.1;
      }))))

abbrev pub known_color : GfxColor → GfxColor
known_color unknown = gray
known_color c = c

-- The color of a shape: the bytes from `*cur` to the place before `cur++`, the color and the entry's length.
unfoldable pub load_color : Bytes → ℕ → Option (Loaded (GfxColor × ℕ))
load_color str length = do
  c ← get_elem? str 0
  if c == 66
      then some (loaded 0 (black, length))
      else if c == 87
      then some (loaded 0 (white, length))
      else if c == 71
      then some (loaded 0 (gray, length))
      else try_load (load_content str) (λ k content. do
        color ← searched_color (gfx_get_color (c_string content.0))
        some (loaded k (known_color color, content.1)))

-- `__sld_load_shape`
unfoldable pub load_shape : Bytes → ℕ → SldEntry → Option (Loaded SldEntry)
unfolding load_color
load_shape script start out = try_load (load_position (drop start script)) (λ n position. do
  (cur, width) ← advance script (start + n)
  (cur', height) ← advance script cur
  try_load (load_color (drop cur' script) out.length) (λ k color. some (
      loaded (cur' + k + 1 - start) (record (with_position out position) {
        content = shape width height color.0;
        length = color.1;
      }))))

-- The type that a tag stands for.
unfoldable pub type_of_tag : ℕ → Option SldType
type_of_tag tag =
    if tag == b'T'
    then some text
    else if tag == b'B'
    then some bitmap
    else if tag == b'R'
    then some rect
    else if tag == b'r'
    then some rectf
    else if tag == b'P'
    then some play
    else if tag == b'K'
    then some waitkey
    else if tag == b'A'
    then some actarea
    else if tag == b'?'
    then some query
    else if tag == b'J'
    then some jump
    else if tag == b'='
    then some jumpe
    else if tag == b'!'
    then some call
    else none

load_chars : Bytes → ℕ → SldEntry → Option (Loaded SldEntry)
load_chars script start out =
    try_load (load_content (drop start script))
      (λ k content. some (loaded k (with_content out content)))

-- The parts of an entry, by its type.
unfoldable pub load_parts : SldType → Bytes → ℕ → SldEntry → Option (Loaded SldEntry)
unfolding load_chars load_text load_bitmap load_shape
load_parts text script start out = load_text script start out
load_parts bitmap script start out = load_bitmap script start out
load_parts rect script start out = load_shape script start out
load_parts rectf script start out = load_shape script start out
load_parts actarea script start out = try_load (load_active_area script start) (λ k parts.
    some (loaded k (record (with_position out parts.0) { content = area parts.1 parts.2 parts.3 })))
load_parts jumpe script start out =
    try_load (load_conditional (drop start script))
      (λ k parts. some (loaded k (record (with_content out parts.1) { posy = parts.0 })))
load_parts call script start out =
    try_load (load_script_call script start)
      (λ k parts. some (loaded k (record out { content = script_call parts.0; length = parts.1 })))
load_parts waitkey script start out = some (loaded 0 out)
load_parts blank script start out = some (loaded 0 out)
load_parts _ script start out = load_chars script start out

-- The end of `sld_load_entry`: the rest of the line from `cur` on is passed.
unfoldable pub end_entry : Bytes → (start cur : ℕ) → SldEntry → Option (Loaded SldEntry)
end_entry script start cur out =
    Option.map (λ (n : ℕ). loaded (cur + n - start) out) (pass_line (drop cur script))

-- `sld_load_entry` behind the delay.
unfoldable pub load_typed : Bytes → (start cur : ℕ) → SldEntry → Option (Loaded SldEntry)
unfolding end_entry
load_typed script start cur out = do
  tag ← get_elem? script cur
  elim (type_of_tag tag) [
    | none ↦ some (argerr unknown_type)
    | some kind ↦
        try_load (load_parts kind script (cur + 1) (record out { sld_type = kind }))
          (λ k loaded_entry. end_entry script start (cur + 1) loaded_entry)
  ]

-- A line that is empty, in front of the first one.
unfoldable pub load_blank : Bytes → ℕ → SldEntry → Option (Loaded SldEntry)
load_blank script start out = do
  next ← get_elem? script (start + 1)
  some (loaded (if next == 10 then 2 else 1) (record out { sld_type = blank }))

unfoldable pub load_label : Bytes → ℕ → SldEntry → Option (Loaded SldEntry)
unfolding end_entry
load_label script start out = try_load (load_content (drop (start + 1) script)) (λ k content.
    end_entry script start (start + 1 + k)
      (with_content (record out { sld_type = label; delay = 0 }) content))

-- `sld_load_entry` at an offset, over an entry that is there already.
unfoldable pub sld_load_entry : Bytes → ℕ → SldEntry → Option (Loaded SldEntry)
unfolding load_blank load_label load_typed
sld_load_entry script start out = do
  c ← get_elem? script start
  if c == 13
      then load_blank script start out
      else if c == b':'
      then load_label script start out
      else (do
        (size, delay) ← loadu (drop start script)
        elim size [
          | none ↦ some (argerr invalid_delay)
          | some n ↦ load_typed script start (start + n) (record out { delay = delay })
        ])
