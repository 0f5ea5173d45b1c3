-- ===== src/Dialog/Indicators.antt =====
-- helpers/auth_x11.c: GetIndicators, with HAVE_XKB_EXT: the name of the keyboard layout and the
-- modifiers, as a string in a buffer of 128 bytes. What Xkb answers is an argument.
pub mod Fits
pub mod Joined
use xsecurelock.Prelude.{
  ℕ, zero, suc, ◌+◌, ◌-◌, ◌/◌, ◌%◌, ◌^◌, Bool, true, false, ◌&&◌, ◌||◌, List, [], ◌∷◌, ◌++◌, Option,
  none, some, leb, ltb, ◌==◌, if◌then◌else◌, length, take, get_elem?, same_text,
}

-- XkbGetState: `latched_mods` and `locked_mods` are masks.
pub record XkbState : Type 0 where
  pub group : ℕ
  pub latched_mods : ℕ
  pub locked_mods : ℕ

-- What the functions of Xkb answer: `none` stands for a failure, and for the atom None.
pub record Keyboard : Type 0 where
  pub num_groups : Option ℕ
  pub has_names : Bool
  pub state : Option XkbState
  pub indicator_state : Option ℕ
  pub groups : ℕ → Option (List ℕ)
  pub symbols : Option (List ℕ)
  pub indicators : ℕ → Option (List ℕ)

-- sizeof (buf)
abbrev pub buf_size : ℕ
buf_size = 128

-- What `p` has come to: the text before it, and `have_output`; or GetIndicators returns ""; or C
-- leaves undefined what happens.
pub data Filled : Type 0 where
  filled : List ℕ → Bool → Filled
  returns_empty : Filled
  undefined : Filled

-- The bit `k` of a mask.
unfoldable pub has_bit : ℕ → ℕ → Bool
has_bit mask k = (mask / 2 ^ k) % 2 == 1

-- `implicit_mods & (1 << k)`
unfoldable pub implicit : XkbState → ℕ → Bool
unfolding has_bit
implicit state k = has_bit state.latched_mods k || has_bit state.locked_mods k

-- "Remove country code from the layout": an empty name is read before its start, and a name of less
-- than 5 bytes makes the number of bytes to copy wrap below 0.
unfoldable pub strip_country : List ℕ → Option (Option ℕ) → Filled
strip_country layout (some (some c)) =
    if c == b')'
    then (if ltb (length layout) 5
        then undefined
        else filled (take (length layout - 5) layout) true)
    else filled layout true
strip_country layout _ = undefined

-- The last byte of a text, if it has one.
unfoldable pub last_byte : List ℕ → Option (Option ℕ)
last_byte [] = none
last_byte (c ∷ cs) = some (get_elem? (c ∷ cs) (length cs))

-- The block under `show_keyboard_layout`; nothing has been written before it.
unfoldable pub put_layout : Option (List ℕ) → Filled
unfolding strip_country last_byte
put_layout none = filled [] false
put_layout (some layout) =
    if leb buf_size (length layout) then returns_empty else strip_country layout (last_byte layout)

-- The last part of ADD_INDICATOR. XFree of the name, which is a string constant, is undefined.
unfoldable pub add_name : List ℕ → List ℕ → Filled
add_name text name =
    if leb (buf_size - length text) (length name) then undefined else filled (text ++ name) true

-- ADD_INDICATOR, for a modifier that is active.
unfoldable pub add_indicator : List ℕ → Filled → Filled
unfolding add_name
add_indicator name (filled text false) = add_name text name
add_indicator name (filled text true) =
    if leb (buf_size - length text) 2
    then filled text true
    else add_name (text ++ b',' ∷ b' ' ∷ []) name
add_indicator name other = other

abbrev pub modifiers : List (ℕ × List ℕ)
modifiers =
    (0, b'S' ∷ b'h' ∷ b'i' ∷ b'f' ∷ b't' ∷ [])
    ∷ (1, b'L' ∷ b'o' ∷ b'c' ∷ b'k' ∷ [])
    ∷ (2, b'C' ∷ b'o' ∷ b'n' ∷ b't' ∷ b'r' ∷ b'o' ∷ b'l' ∷ [])
    ∷ (3, b'M' ∷ b'o' ∷ b'd' ∷ b'1' ∷ [])
    ∷ (4, b'M' ∷ b'o' ∷ b'd' ∷ b'2' ∷ [])
    ∷ (5, b'M' ∷ b'o' ∷ b'd' ∷ b'3' ∷ [])
    ∷ (6, b'M' ∷ b'o' ∷ b'd' ∷ b'4' ∷ [])
    ∷ (7, b'M' ∷ b'o' ∷ b'd' ∷ b'5' ∷ [])
    ∷ []

-- The uses of ADD_INDICATOR.
unfoldable pub add_indicators : XkbState → List (ℕ × List ℕ) → Filled → Filled
unfolding implicit add_indicator
add_indicators state [] f = f
add_indicators state (m ∷ ms) f =
    add_indicators state ms (if implicit state m.0 then add_indicator m.1 f else f)

abbrev caps_lock : List ℕ
caps_lock = b'C' ∷ b'a' ∷ b'p' ∷ b's' ∷ b' ' ∷ b'L' ∷ b'o' ∷ b'c' ∷ b'k' ∷ []

unfoldable pub is_caps_lock : Option (List ℕ) → Bool
is_caps_lock none = false
is_caps_lock (some name) = same_text name caps_lock

-- The loop over `n` indicators from `i` on.
unfoldable pub is_caps_on : (ℕ → Option (List ℕ)) → ℕ → ℕ → ℕ → Bool
unfolding has_bit is_caps_lock
is_caps_on indicators istate zero i = false
is_caps_on indicators istate (suc n) i =
    let later = is_caps_on indicators istate n (i + 1) in
    if has_bit istate i && is_caps_lock (indicators i) then true else later

abbrev pub cpslck : Bool → List ℕ
cpslck on =
    b' ' ∷ b'[' ∷ b'A' ∷ (if on then b'B' else b'b') ∷ (if on then b'C' else b'c') ∷ b']' ∷ []

unfoldable pub add_caps_lock : Bool → Filled → Filled
add_caps_lock on (filled text have) =
    if leb (buf_size - length text) (length (cpslck on))
    then returns_empty
    else filled (text ++ cpslck on) true
add_caps_lock on other = other

-- The string that is returned; `none` if that is undefined.
unfoldable pub returned_text : Filled → Option (List ℕ)
returned_text (filled text have) = some (if have then text else [])
returned_text returns_empty = some []
returned_text undefined = none

-- The text, and the two results through pointers: `*warning` and `*have_multiple_layouts` are
-- set, or left as they are.
pub record Indicators : Type 0 where
  pub text : Option (List ℕ)
  pub warning : Bool
  pub have_multiple_layouts : Bool

abbrev pub no_indicators : Indicators
no_indicators = record { text = some []; warning = false; have_multiple_layouts = false }

-- The group's name, or the symbols' name as a fallback.
unfoldable pub layout_name : Keyboard → XkbState → Option (List ℕ)
layout_name k state = elim (k.groups state.group) [ none ↦ k.symbols | some name ↦ some name ]

module _ (show_keyboard_layout show_locks_and_latches : Bool) (k : Keyboard) where
  -- The text with the layout, if that is shown.
  unfoldable pub layout_part : XkbState → Filled
  unfolding put_layout
  layout_part state =
      if show_keyboard_layout then put_layout (layout_name k state) else filled [] false

  -- From `p = buf` on.
  unfoldable pub fill : XkbState → ℕ → Filled
  unfolding layout_part add_indicators is_caps_on add_caps_lock
  fill state istate =
      if show_locks_and_latches
      then add_indicators state modifiers (layout_part state)
      else add_caps_lock (is_caps_on k.indicators istate 32 0) (layout_part state)

  -- Behind the calls of Xkb.
  unfoldable pub indicators_of : ℕ → XkbState → ℕ → Indicators
  unfolding implicit fill returned_text
  indicators_of num_groups state istate = record {
    text = returned_text (fill state istate);
    warning = implicit state 1;
    have_multiple_layouts = ltb 1 num_groups;
  }

  -- XkbGetIndicatorState, which is called unless locks and latches are shown.
  unfoldable pub with_indicator_state : ℕ → XkbState → Option ℕ → Indicators
  unfolding indicators_of
  with_indicator_state num_groups state (some istate) = indicators_of num_groups state istate
  with_indicator_state num_groups state none =
      if show_locks_and_latches then indicators_of num_groups state 0 else no_indicators

  unfoldable pub with_state : Option ℕ → Option XkbState → Indicators
  unfolding with_indicator_state
  with_state (some num_groups) (some state) =
      if k.has_names then with_indicator_state num_groups state k.indicator_state else no_indicators
  with_state _ _ = no_indicators

  -- GetIndicators, with whether there is the Xkb extension.
  unfoldable pub get_indicators : (have_xkb_ext : Bool) → Indicators
  unfolding with_state
  get_indicators have_xkb_ext =
      if have_xkb_ext then with_state k.num_groups k.state else no_indicators
