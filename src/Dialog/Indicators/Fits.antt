-- ===== src/Dialog/Indicators/Fits.antt =====
-- helpers/auth_x11.c: the string of GetIndicators fits its buffer.
use xsecurelock.Prelude.{
  ℕ, ◌-◌, ◌<◌, ◌≡◌, refl, Bool, true, false, List, [], ◌∷◌, ◌++◌, Option, none, some, leb, ltb,
  ◌==◌, if◌then◌else◌, length, take, length-append, length-take_le, arith,
}
use xsecurelock.Dialog.Indicators.{
  XkbState, Keyboard, buf_size, Filled, filled, returns_empty, undefined, implicit, strip_country,
  last_byte, put_layout, add_name, add_indicator, modifiers, add_indicators, is_caps_on, cpslck,
  add_caps_lock, returned_text, Indicators, no_indicators, layout_name, layout_part, fill,
  indicators_of, with_indicator_state, with_state, get_indicators,
}

-- The text and a 0 fit into the buffer.
abbrev pub FitsBuf : Filled → Type 0
FitsBuf (filled text have) = length text < buf_size
FitsBuf returns_empty = Unit {0}
FitsBuf undefined = Unit {0}

FitsBuf-if :
    (b : Bool) (f g : Filled) → FitsBuf f → (b ≡ false → FitsBuf g) → FitsBuf (if b then f else g)
FitsBuf-if true f g p q = p
FitsBuf-if false f g p q = q refl

strip_country-FitsBuf :
    (layout : List ℕ) (last : Option (Option ℕ))
    → length layout < buf_size
    → FitsBuf (strip_country layout last)
unfolding strip_country
strip_country-FitsBuf layout none h = tt
strip_country-FitsBuf layout (some none) h = tt
strip_country-FitsBuf layout (some (some c)) h = go (c == b')') (ltb (length layout) 5)
  where
    go :
        (b d : Bool)
        → FitsBuf (
            if b
            then (if d then undefined else filled (take (length layout - 5) layout) true)
            else filled layout true)
    go true true = tt
    go true false = omega (arith, length-take_le (length layout - 5) layout)
    go false d = h

put_layout-FitsBuf : (layout : Option (List ℕ)) → FitsBuf (put_layout layout)
unfolding put_layout
put_layout-FitsBuf none = omega arith
put_layout-FitsBuf (some layout) =
    FitsBuf-if (leb buf_size (length layout)) returns_empty _ tt
      λ p. strip_country-FitsBuf layout (last_byte layout) (below p)
  where
    below : leb buf_size (length layout) ≡ false → length layout < buf_size
    below p = ground arith

add_name-FitsBuf : (text name : List ℕ) → FitsBuf (add_name text name)
unfolding add_name
add_name-FitsBuf text name =
    FitsBuf-if (leb (buf_size - length text) (length name)) undefined _ tt λ p. below p
  where
    below : leb (buf_size - length text) (length name) ≡ false → length (text ++ name) < buf_size
    below p = let e = length-append text name in ground arith

add_indicator-FitsBuf : (name : List ℕ) (f : Filled) → FitsBuf f → FitsBuf (add_indicator name f)
unfolding add_indicator
add_indicator-FitsBuf name (filled text false) h = add_name-FitsBuf text name
add_indicator-FitsBuf name (filled text true) h =
    FitsBuf-if (leb (buf_size - length text) 2) (filled text true) _ h λ p. add_name-FitsBuf _ name
add_indicator-FitsBuf name returns_empty h = tt
add_indicator-FitsBuf name undefined h = tt

add_indicators-FitsBuf :
    (state : XkbState) (ms : List (ℕ × List ℕ)) (f : Filled)
    → FitsBuf f
    → FitsBuf (add_indicators state ms f)
unfolding add_indicators
add_indicators-FitsBuf state [] f h = h
add_indicators-FitsBuf state (m ∷ ms) f h =
    add_indicators-FitsBuf state ms _ (
      FitsBuf-if (implicit state m.0) (add_indicator m.1 f) f (add_indicator-FitsBuf m.1 f h)
        λ p. h)

add_caps_lock-FitsBuf : (on : Bool) (f : Filled) → FitsBuf f → FitsBuf (add_caps_lock on f)
unfolding add_caps_lock
add_caps_lock-FitsBuf on (filled text have) h =
    FitsBuf-if (leb (buf_size - length text) (length (cpslck on))) returns_empty _ tt below
  where
    below :
        leb (buf_size - length text) (length (cpslck on)) ≡ false
        → length (text ++ cpslck on) < buf_size
    below p = let e = length-append text (cpslck on) in ground arith
add_caps_lock-FitsBuf on returns_empty h = tt
add_caps_lock-FitsBuf on undefined h = tt

abbrev pub IsShort : Option (List ℕ) → Type 0
IsShort none = Unit {0}
IsShort (some text) = length text < buf_size

returned_text-IsShort : (f : Filled) → FitsBuf f → IsShort (returned_text f)
unfolding returned_text
returned_text-IsShort (filled text true) h = h
returned_text-IsShort (filled text false) h = omega arith
returned_text-IsShort returns_empty h = omega arith
returned_text-IsShort undefined h = tt

IsShort-if :
    (b : Bool) (i j : Indicators)
    → IsShort i.text
    → IsShort j.text
    → IsShort (if b then i else j).text
IsShort-if true i j p q = p
IsShort-if false i j p q = q

module _ (show_keyboard_layout show_locks_and_latches : Bool) (k : Keyboard) where
  layout_part-FitsBuf :
      (state : XkbState) → FitsBuf (layout_part show_keyboard_layout show_locks_and_latches k state)
  unfolding layout_part
  layout_part-FitsBuf state =
      FitsBuf-if show_keyboard_layout (put_layout (layout_name k state)) (filled [] false)
        (put_layout-FitsBuf (layout_name k state)) λ p. omega arith

  fill-FitsBuf :
      (state : XkbState) (istate : ℕ)
      → FitsBuf (fill show_keyboard_layout show_locks_and_latches k state istate)
  unfolding fill
  fill-FitsBuf state istate =
      let begun = layout_part show_keyboard_layout show_locks_and_latches k state in
      let on = is_caps_on k.indicators istate 32 0 in
      FitsBuf-if show_locks_and_latches (add_indicators state modifiers begun)
        (add_caps_lock on begun)
        (add_indicators-FitsBuf state modifiers begun (layout_part-FitsBuf state))
        λ p. add_caps_lock-FitsBuf on begun (layout_part-FitsBuf state)

  of_indicator_state :
      (n : ℕ) (state : XkbState) (istate : Option ℕ)
      → IsShort
          (with_indicator_state show_keyboard_layout show_locks_and_latches k n state istate).text
  unfolding with_indicator_state indicators_of
  of_indicator_state n state none =
      IsShort-if show_locks_and_latches
        (indicators_of show_keyboard_layout show_locks_and_latches k n state 0) no_indicators
        (returned_text-IsShort (fill show_keyboard_layout show_locks_and_latches k state 0)
          (fill-FitsBuf state 0))
        (omega arith)
  of_indicator_state n state (some istate) =
      returned_text-IsShort (fill show_keyboard_layout show_locks_and_latches k state istate)
        (fill-FitsBuf state istate)

  with_state-IsShort :
      (n : Option ℕ) (state : Option XkbState)
      → IsShort (with_state show_keyboard_layout show_locks_and_latches k n state).text
  unfolding with_state
  with_state-IsShort none state = omega arith
  with_state-IsShort (some n) none = omega arith
  with_state-IsShort (some n) (some state) =
      IsShort-if k.has_names
        (with_indicator_state show_keyboard_layout show_locks_and_latches k n state
          k.indicator_state)
        no_indicators (of_indicator_state n state k.indicator_state) (omega arith)

  -- Whatever Xkb answers, the string that GetIndicators returns and the 0 behind it fit into the
  -- buffer, unless what it does is undefined.
  pub get_indicators-IsShort :
      (have_xkb_ext : Bool)
      → IsShort (get_indicators show_keyboard_layout show_locks_and_latches k have_xkb_ext).text
  unfolding get_indicators
  get_indicators-IsShort true = with_state-IsShort k.num_groups k.state
  get_indicators-IsShort false = omega arith
