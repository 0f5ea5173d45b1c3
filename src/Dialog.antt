-- ===== src/Dialog.antt =====
-- helpers/auth_x11.c: Prompt, the line editor for passwords and user names. `mblen` is that of the C
-- library, from the initial shift state: the length of the first character of some bytes, 0 or -1.
-- What is drawn is the length of the display buffer; its contents, sounds and the switching of the
-- keyboard layout are left out.
pub mod Bounds
pub mod Editing
pub mod Windows
pub mod Texts
pub mod Indicators
mod Tests
mod ScreenTests
pub mod Authenticate
use xsecurelock.Prelude.{
  ℕ, zero, suc, ◌+◌, Bool, ◌||◌, List, [], ◌∷◌, ◌++◌, Option, none, some, ltb, leb, ◌==◌,
  if◌then◌else◌, length, take, drop,
}
use xsecurelock.Prelude.Int.{ℤ, pos_part}

-- PWBUF_SIZE and DISPLAYBUF_SIZE
abbrev pub pwbuf_size : ℕ
pwbuf_size = 256

abbrev pub displaybuf_size : ℕ
displaybuf_size = pwbuf_size + 2

-- What a round of the inner loop gets: from select, the clock, and read (`none`: nread <= 0).
pub data Input : Type 0 where
  select_failed : Input
  blink : (now : ℕ) → Input
  ready : (now : ℕ) (byte : Option ℕ) → Input

-- `pwbuf` up to `pwlen`.
pub record PromptState : Type 0 where
  pub pwbuf : List ℕ
  pub deadline : ℕ

-- What follows: another round; or `done`, with the response if status is 1.
pub data Round : Type 0 where
  again : PromptState → Round
  finished : Option (List ℕ) → Round

module _ (mblen : List ℕ → ℤ) where
  -- The loop that looks for the last character: `rest` is what follows `pwbuf[p - 1]`, and the fuel is
  -- the number of bytes, of which each round eats one at least.
  last_start : ℕ → List ℕ → ℕ → ℕ → ℕ
  last_start zero rest p prev = prev
  last_start (suc n) [] p prev = prev
  last_start (suc n) (c ∷ cs) p prev =
      let len = pos_part (mblen (c ∷ cs)) in
      let next = last_start n (drop len (c ∷ cs)) (p + len) p in if len == 0 then p else next

  -- Backspace: `pwlen = prevpos`.
  pub backspace : List ℕ → List ℕ
  unfolding last_start
  backspace pw = take (last_start (length pw) pw 0 0) pw

  -- The loop that counts the characters for the asterisks.
  count_chars : ℕ → List ℕ → ℕ
  count_chars zero rest = 0
  count_chars (suc n) [] = 0
  count_chars (suc n) (c ∷ cs) =
      let len = pos_part (mblen (c ∷ cs)) in
      let next = count_chars n (drop len (c ∷ cs)) in suc (if len == 0 then 0 else next)

  -- The bytes of displaybuf that are written: the text or asterisks, a cursor and a 0.
  pub display_bytes : (echo hidden : Bool) → List ℕ → ℕ
  unfolding count_chars
  display_bytes echo hidden pw =
      if echo then length pw + 2 else (if hidden then 1 else count_chars (length pw) pw + 2)

  -- The switch over the byte that was read.
  on_byte : PromptState → ℕ → Round
  unfolding backspace
  on_byte st c =
      if (c == 0x08) || (c == 0x7F)
      then again (record st { pwbuf = backspace st.pwbuf })
      else if (c == 0x01) || (c == 0x15)
      then again (record st { pwbuf = [] })
      else if c == 0x13
      then again st
      else if (c == 0) || (c == 0x1B)
      then finished none
      else if (c == 0x0D) || (c == 0x0A)
      then finished (some st.pwbuf)
      else if leb c 0x1F
      then again st
      else if ltb (length st.pwbuf) pwbuf_size
      then again (record st { pwbuf = st.pwbuf ++ c ∷ [] })
      else finished none

  module _ (prompt_timeout : ℕ) where
    -- Guard against the system clock stepping back.
    guarded : ℕ → PromptState → PromptState
    guarded now st =
        if ltb (now + prompt_timeout) st.deadline
        then record st { deadline = now + prompt_timeout }
        else st

    read_byte : PromptState → Option ℕ → Round
    unfolding on_byte
    read_byte st none = finished none
    read_byte st (some c) = on_byte st c

    -- One round of the inner loop.
    round : PromptState → Input → Round
    unfolding guarded read_byte
    round st select_failed = finished none
    round st (blink now) = if ltb st.deadline now then finished none else again (guarded now st)
    round st (ready now byte) =
        if ltb st.deadline now
        then finished none
        else read_byte (record st { deadline = now + prompt_timeout }) byte

    -- The loops, for a sequence of inputs; `again` if it does not end with them.
    rounds : Round → List Input → Round
    unfolding round
    rounds (finished response) inputs = finished response
    rounds (again st) [] = again st
    rounds (again st) (i ∷ inputs) = rounds (round st i) inputs

    -- Prompt, from `now` on: the response if status is 1.
    pub prompt : ℕ → List Input → Round
    unfolding rounds
    prompt now inputs =
        rounds (again (record { pwbuf = []; deadline = now + prompt_timeout })) inputs
