-- ===== src/Dialog/Indicators/Joined.antt =====
-- helpers/auth_x11.c: what GetIndicators shows of the layout and the modifiers.
use xsecurelock.Prelude.{
  ℕ, ◌+◌, ◌-◌, ◌≤◌, ◌<◌, ◌≡◌, ◌≢◌, refl, ap, sym, Bool, true, false, List, [], ◌∷◌, ◌++◌,
  append_assoc, Option, none, some, ltb, if◌then◌else◌, length, take, get_elem?, length-append,
  arith, lt→leb, le→ltb, take-append_self, ne→==,
}
use xsecurelock.Dialog.Indicators.{
  XkbState, Keyboard, buf_size, filled, implicit, strip_country, last_byte, put_layout, add_name,
  add_indicator, modifiers, add_indicators, returned_text, layout_name, layout_part, fill,
  indicators_of, with_indicator_state, with_state, get_indicators,
}

-- A name of a layout: with a country of two letters, or with another last byte than `)`.
pub data Layout : Type 0 where
  with_country : (name : List ℕ) (a b : ℕ) → Layout
  plain : (name : List ℕ) (c : ℕ) → c ≢ b')' → Layout

abbrev pub full_name : Layout → List ℕ
full_name (with_country name a b) = name ++ b' ' ∷ b'(' ∷ a ∷ b ∷ b')' ∷ []
full_name (plain name c p) = name ++ c ∷ []

abbrev pub short_name : Layout → List ℕ
short_name (with_country name a b) = name
short_name (plain name c p) = name ++ c ∷ []

-- The names of the modifiers that are active.
abbrev pub active : XkbState → List (ℕ × List ℕ) → List (List ℕ)
active state [] = []
active state (m ∷ ms) =
    let rest = active state ms in if implicit state m.0 then m.1 ∷ rest else rest

-- A text and more texts, with commas between.
abbrev pub joined : List ℕ → List (List ℕ) → List ℕ
joined text [] = text
joined text (name ∷ names) = joined (text ++ b',' ∷ b' ' ∷ name) names

-- The bytes that are enough for all of the modifiers.
abbrev room_for : List (ℕ × List ℕ) → ℕ
room_for [] = 0
room_for (m ∷ ms) = 2 + length m.1 + room_for ms

add_indicator-joined :
    (text name : List ℕ)
    → length text + length name + 2 < buf_size
    → add_indicator name (filled text true) ≡ filled (text ++ b',' ∷ b' ' ∷ name) true
unfolding add_indicator add_name
add_indicator-joined text name h =
    let e = length-append text (b',' ∷ b' ' ∷ []) in
    rw
      (
        lt→leb (buf_size - length text) 2 (omega arith),
        lt→leb (buf_size - length (text ++ b',' ∷ b' ' ∷ [])) (length name) (omega arith),
        append_assoc text (b',' ∷ b' ' ∷ []) name,
      )
      refl

add_indicators-joined :
    (state : XkbState) (ms : List (ℕ × List ℕ)) (text : List ℕ)
    → length text + room_for ms < buf_size
    → add_indicators state ms (filled text true) ≡ filled (joined text (active state ms)) true
unfolding add_indicators
add_indicators-joined state [] text h = refl
add_indicators-joined state (m ∷ ms) text h =
    go (implicit state m.0) (add_indicators-joined state ms text (omega arith)) (
      add_indicators-joined state ms (text ++ b',' ∷ b' ' ∷ m.1)
        (omega (arith, length-append text (b',' ∷ b' ' ∷ m.1))))
  where
    rest : List (List ℕ)
    rest = active state ms

    more : List ℕ
    more = text ++ b',' ∷ b' ' ∷ m.1

    go :
        (b : Bool)
        → add_indicators state ms (filled text true) ≡ filled (joined text rest) true
        → add_indicators state ms (filled more true) ≡ filled (joined more rest) true
        → add_indicators state ms
            (if b then add_indicator m.1 (filled text true) else filled text true)
          ≡ filled (joined text (if b then m.1 ∷ rest else rest)) true
    go true p q = rw (add_indicator-joined text m.1 (omega arith)) q
    go false p q = p

pub last_byte-append : (name : List ℕ) (c : ℕ) → last_byte (name ++ c ∷ []) ≡ some (some c)
unfolding last_byte
last_byte-append [] c = refl
last_byte-append (d ∷ ds) c = ap some (at_end d ds)
  where
    at_end : (d : ℕ) (ds : List ℕ) → get_elem? (d ∷ ds ++ c ∷ []) (length (ds ++ c ∷ [])) ≡ some c
    at_end d [] = refl
    at_end d (e ∷ es) = at_end e es

last_byte-country :
    (name : List ℕ) (a b : ℕ)
    → last_byte (name ++ b' ' ∷ b'(' ∷ a ∷ b ∷ b')' ∷ []) ≡ some (some b')')
last_byte-country name a b =
    rw (sym (append_assoc name (b' ' ∷ b'(' ∷ a ∷ b ∷ []) (b')' ∷ [])))
      (last_byte-append (name ++ b' ' ∷ b'(' ∷ a ∷ b ∷ []) b')')

cut :
    (name : List ℕ) (a b : ℕ)
    → let full = name ++ b' ' ∷ b'(' ∷ a ∷ b ∷ b')' ∷ [] in take (length full - 5) full ≡ name
cut name a b =
    let tail = b' ' ∷ b'(' ∷ a ∷ b ∷ b')' ∷ [] in
    let e : length (name ++ tail) - 5 ≡ length name = omega (arith, length-append name tail) in
    rw e (take-append_self name tail)

put_layout-short_name :
    (layout : Layout)
    → length (full_name layout) < buf_size
    → put_layout (some (full_name layout)) ≡ filled (short_name layout) true
unfolding put_layout strip_country
put_layout-short_name (with_country name a b) h =
    let e = length-append name (b' ' ∷ b'(' ∷ a ∷ b ∷ b')' ∷ []) in
    rw
      (
        lt→leb buf_size (length (name ++ b' ' ∷ b'(' ∷ a ∷ b ∷ b')' ∷ [])) h,
        last_byte-country name a b,
        le→ltb (length (name ++ b' ' ∷ b'(' ∷ a ∷ b ∷ b')' ∷ [])) 5 (omega (arith, e)),
        cut name a b,
      )
      refl
put_layout-short_name (plain name c p) h =
    rw (lt→leb buf_size (length (name ++ c ∷ [])) h, last_byte-append name c, ne→== c b')' p) refl

module _ (k : Keyboard) (num_groups : ℕ) (state : XkbState) (layout : Layout) where
  short_le : length (short_name layout) ≤ length (full_name layout)
  short_le = go layout
    where
      go : (layout : Layout) → length (short_name layout) ≤ length (full_name layout)
      go (with_country name a b) =
          omega (arith, length-append name (b' ' ∷ b'(' ∷ a ∷ b ∷ b')' ∷ []))
      go (plain name c p) = omega arith

  returned_text-joined :
      (istate : ℕ)
      → layout_name k state ≡ some (full_name layout)
      → length (full_name layout) ≤ 75
      → returned_text (fill true true k state istate)
        ≡ some (joined (short_name layout) (active state modifiers))
  unfolding fill layout_part returned_text
  returned_text-joined istate l h =
      rw
        (
          l,
          put_layout-short_name layout (omega arith),
          add_indicators-joined state modifiers (short_name layout) (omega (arith, short_le)),
        )
        refl

  answered :
      layout_name k state ≡ some (full_name layout)
      → length (full_name layout) ≤ 75
      → (istate : Option ℕ)
      → with_indicator_state true true k num_groups state istate ≡ record {
        text = some (joined (short_name layout) (active state modifiers));
        warning = implicit state 1;
        have_multiple_layouts = ltb 1 num_groups;
      }
  unfolding with_indicator_state indicators_of
  answered l h none = rw (returned_text-joined 0 l h) refl
  answered l h (some istate) = rw (returned_text-joined istate l h) refl

  -- Where the layout, locks and latches are shown, Xkb answers, and the name of the layout is not
  -- empty, is no longer than 75 bytes, and ends in a country or not in a parenthesis, GetIndicators
  -- gives the name of the layout, without its country if it has
  -- one, and the names of the active modifiers, with commas between; warns if Caps Lock is
  -- among these; and says whether there are more groups than one.
  pub get_indicators-joined :
      k.num_groups ≡ some num_groups
      → k.has_names ≡ true
      → k.state ≡ some state
      → layout_name k state ≡ some (full_name layout)
      → length (full_name layout) ≤ 75
      → get_indicators true true k true ≡ record {
        text = some (joined (short_name layout) (active state modifiers));
        warning = implicit state 1;
        have_multiple_layouts = ltb 1 num_groups;
      }
  unfolding get_indicators with_state
  get_indicators-joined g n s l h = simp (g, n, s) (answered l (omega arith) k.indicator_state)
