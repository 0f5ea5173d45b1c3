-- ===== src/Dialog/Bounds.antt =====
-- helpers/auth_x11.c: Prompt stays within its buffers.
use xsecurelock.Prelude.{
  ℕ, zero, suc, ◌+◌, ◌≤◌, ◌≡◌, refl, List, [], ◌∷◌, ◌++◌, Bool, true, false, none, some, ◌==◌, ◌||◌,
  leb, ltb, if◌then◌else◌, length, take, drop, length-append, arith, Bool-cases, ◌⊎◌, inl, inr,
  ltb→lt,
}
use xsecurelock.Prelude.Int.{ℤ, pos_part}
use xsecurelock.Dialog.{
  Input, select_failed, blink, ready, PromptState, Round, again, finished, last_start, backspace,
  count_chars, display_bytes, on_byte, guarded, read_byte, round, rounds, prompt, pwbuf_size,
  displaybuf_size,
}

length-take_le : (n : ℕ) (xs : List ℕ) → length (take n xs) ≤ length xs
length-take_le zero xs = omega arith
length-take_le (suc n) [] = omega arith
length-take_le (suc n) (x ∷ xs) = omega (arith, length-take_le n xs)

-- The text and the response fit into the buffer of the password, and the text that is drawn fits
-- into the buffer for it, whether it is shown, as asterisks or hidden.
abbrev pub FitsBuffers : (List ℕ → ℤ) → Round → Type 0
FitsBuffers mblen (again st) =
    (length st.pwbuf ≤ pwbuf_size)
    × ((echo hidden : Bool) → display_bytes mblen echo hidden st.pwbuf ≤ displaybuf_size)
FitsBuffers mblen (finished none) = Unit {0}
FitsBuffers mblen (finished (some response)) = length response ≤ pwbuf_size

module _ (mblen : List ℕ → ℤ) where
  count_chars_le : (n : ℕ) (rest : List ℕ) → count_chars mblen n rest ≤ n
  unfolding count_chars
  count_chars_le zero rest = omega arith
  count_chars_le (suc n) [] = omega arith
  count_chars_le (suc n) (c ∷ cs) =
      go (pos_part (mblen (c ∷ cs)) == 0)
        (count_chars_le n (drop (pos_part (mblen (c ∷ cs))) (c ∷ cs)))
    where
      go : (b : Bool) {k : ℕ} → k ≤ n → suc (if b then 0 else k) ≤ suc n
      go true h = omega arith
      go false h = omega arith

  display_bytes_le :
      (pw : List ℕ) (echo hidden : Bool)
      → length pw ≤ pwbuf_size
      → display_bytes mblen echo hidden pw ≤ displaybuf_size
  unfolding display_bytes
  display_bytes_le pw true hidden h = omega arith
  display_bytes_le pw false true h = omega arith
  display_bytes_le pw false false h = omega (arith, count_chars_le (length pw) pw)

  fits : (st : PromptState) → length st.pwbuf ≤ pwbuf_size → FitsBuffers mblen (again st)
  fits st h = (h, λ echo hidden. display_bytes_le st.pwbuf echo hidden h)

  FitsBuffers-if :
      (b : Bool) (r q : Round)
      → FitsBuffers mblen r
      → (b ≡ false → FitsBuffers mblen q)
      → FitsBuffers mblen (if b then r else q)
  FitsBuffers-if true r q h k = h
  FitsBuffers-if false r q h k = k refl

  on_byte-FitsBuffers :
      (st : PromptState) (c : ℕ)
      → length st.pwbuf ≤ pwbuf_size
      → FitsBuffers mblen (on_byte mblen st c)
  unfolding on_byte backspace
  on_byte-FitsBuffers st c h =
      FitsBuffers-if ((c == 0x08) || (c == 0x7F)) (again shorter) _
        (fits shorter (
          omega (arith, length-take_le (last_start mblen (length st.pwbuf) st.pwbuf 0 0) st.pwbuf)))
        λ _.
          FitsBuffers-if ((c == 0x01) || (c == 0x15)) (again (record st { pwbuf = [] })) _
            (fits (record st { pwbuf = [] }) (omega arith))
            λ _. FitsBuffers-if (c == 0x13) (again st) _ (fits st h) λ _.
              FitsBuffers-if ((c == 0) || (c == 0x1B)) (finished none) _ tt λ _.
                FitsBuffers-if ((c == 0x0D) || (c == 0x0A)) (finished (some st.pwbuf)) _ h λ _.
                  FitsBuffers-if (leb c 0x1F) (again st) _ (fits st h)
                    λ _. typed (Bool-cases (ltb (length st.pwbuf) pwbuf_size))
    where
      shorter : PromptState
      shorter = record st { pwbuf = backspace mblen st.pwbuf }

      longer : PromptState
      longer = record st { pwbuf = st.pwbuf ++ c ∷ [] }

      typed :
          (ltb (length st.pwbuf) pwbuf_size ≡ true) ⊎ (ltb (length st.pwbuf) pwbuf_size ≡ false)
          → FitsBuffers mblen
              (if ltb (length st.pwbuf) pwbuf_size then again longer else finished none)
      typed (inl room) = rw room (
          fits longer (
            omega
              (arith, length-append st.pwbuf (c ∷ []), ltb→lt (length st.pwbuf) pwbuf_size room)))
      typed (inr full) = rw full tt

  module _ (prompt_timeout : ℕ) where
    round-FitsBuffers :
        (st : PromptState) (i : Input)
        → length st.pwbuf ≤ pwbuf_size
        → FitsBuffers mblen (round mblen prompt_timeout st i)
    unfolding round guarded read_byte
    round-FitsBuffers st select_failed h = tt
    round-FitsBuffers st (blink now) h =
        FitsBuffers-if (ltb st.deadline now) (finished none) _ tt
          λ _. stepped (ltb (now + prompt_timeout) st.deadline)
      where
        stepped :
            (b : Bool)
            → FitsBuffers mblen
                (again (if b then record st { deadline = now + prompt_timeout } else st))
        stepped true = fits (record st { deadline = now + prompt_timeout }) h
        stepped false = fits st h
    round-FitsBuffers st (ready now none) h =
        FitsBuffers-if (ltb st.deadline now) (finished none) (finished none) tt λ _. tt
    round-FitsBuffers st (ready now (some c)) h =
        FitsBuffers-if (ltb st.deadline now) (finished none) _ tt
          λ _. on_byte-FitsBuffers (record st { deadline = now + prompt_timeout }) c h

    rounds-FitsBuffers :
        (r : Round) (inputs : List Input)
        → FitsBuffers mblen r
        → FitsBuffers mblen (rounds mblen prompt_timeout r inputs)
    unfolding rounds
    rounds-FitsBuffers (finished response) inputs h = h
    rounds-FitsBuffers (again st) [] h = h
    rounds-FitsBuffers (again st) (i ∷ inputs) h =
        rounds-FitsBuffers (round mblen prompt_timeout st i) inputs (round-FitsBuffers st i h.0)

    -- Whatever the user types and whatever mblen says, Prompt stays within its buffers: the text and
    -- the response fit into the 256 bytes of `pwbuf`, and all that is drawn into `displaybuf`.
    pub prompt-FitsBuffers :
        (now : ℕ) (inputs : List Input) → FitsBuffers mblen (prompt mblen prompt_timeout now inputs)
    unfolding prompt
    prompt-FitsBuffers now inputs =
        rounds-FitsBuffers (again start) inputs (fits start (omega arith))
      where
        start : PromptState
        start = record { pwbuf = []; deadline = now + prompt_timeout }
