-- ===== src/Dialog/Editing.antt =====
-- helpers/auth_x11.c: Prompt returns what has been typed, and Backspace removes one character.
use xsecurelock.Prelude.{
  ℕ, zero, suc, ◌+◌, ◌≤◌, ◌<◌, ◌≡◌, ◌≢◌, refl, ◌∙◌, ap, List, [], ◌∷◌, ◌++◌, append-nil,
  append_assoc, some, length, take, drop, length-append, arith, ne→==, lt→leb, lt→ltb, le→ltb,
}
use xsecurelock.Prelude.Int.{ℤ, pos}
use xsecurelock.Dialog.{
  Input, ready, PromptState, Round, again, finished, last_start, backspace, on_byte, read_byte,
  round, rounds, prompt, pwbuf_size,
}

abbrev pub flatten : List (List ℕ) → List ℕ
flatten [] = []
flatten (c ∷ cs) = c ++ flatten cs

flatten-append : (cs ds : List (List ℕ)) → flatten (cs ++ ds) ≡ flatten cs ++ flatten ds
flatten-append [] ds = refl
flatten-append (c ∷ cs) ds = rw (flatten-append cs ds, append_assoc)

drop-length-append : (a b : List ℕ) → drop (length a) (a ++ b) ≡ b
drop-length-append [] b = refl
drop-length-append (x ∷ a) b = drop-length-append a b

take-length-append : (a b : List ℕ) → take (length a) (a ++ b) ≡ a
take-length-append [] b = refl
take-length-append (x ∷ a) b = rw (take-length-append a b)

-- The characters that `mblen` finds in a text, one after the other.
abbrev pub AreCharacters : (List ℕ → ℤ) → List (List ℕ) → Type 0
AreCharacters mblen [] = Unit {0}
AreCharacters mblen (c ∷ cs) =
    (0 < length c) × (mblen (c ++ flatten cs) ≡ pos (length c)) × AreCharacters mblen cs

module _ (mblen : List ℕ → ℤ) where
  last_start-nil : (n p prev : ℕ) → last_start mblen n [] p prev ≡ prev
  unfolding last_start
  last_start-nil zero p prev = refl
  last_start-nil (suc n) p prev = refl

  last_start-eat :
      (n : ℕ) (c rest : List ℕ) (p prev : ℕ)
      → 0 < length c
      → mblen (c ++ rest) ≡ pos (length c)
      → last_start mblen (suc n) (c ++ rest) p prev ≡ last_start mblen n rest (p + length c) p
  unfolding last_start
  last_start-eat n [] rest p prev h e = absurd (omega arith)
  last_start-eat n (x ∷ c) rest p prev h e =
      rw (e, drop-length-append c rest, ne→== (suc (length c)) 0 (λ z. omega arith))

  last_start-flatten :
      (n : ℕ) (cs : List (List ℕ)) (c : List ℕ) (p prev : ℕ)
      → length (flatten (cs ++ c ∷ [])) ≤ n
      → AreCharacters mblen (cs ++ c ∷ [])
      → last_start mblen n (flatten (cs ++ c ∷ [])) p prev ≡ p + length (flatten cs)
  last_start-flatten zero [] c p prev h (some_byte, e, _) =
      absurd (omega (arith, length-append c []))
  last_start-flatten zero (d ∷ cs) c p prev h (some_byte, e, _) =
      absurd (omega (arith, length-append d (flatten (cs ++ c ∷ []))))
  last_start-flatten (suc n) [] c p prev h (some_byte, e, _) =
      last_start-eat n c [] p prev some_byte e ∙ last_start-nil n (p + length c) p ∙ omega arith
  last_start-flatten (suc n) (d ∷ cs) c p prev h (some_byte, e, more) =
      last_start-eat n d (flatten (cs ++ c ∷ [])) p prev some_byte e
      ∙ last_start-flatten n cs c (p + length d) p
          (omega (arith, length-append d (flatten (cs ++ c ∷ [])))) more
      ∙ omega (arith, length-append d (flatten cs))

  -- Backspace removes the last character, however many bytes it has, and leaves the others.
  pub backspace-flatten :
      (cs : List (List ℕ)) (c : List ℕ)
      → AreCharacters mblen (cs ++ c ∷ [])
      → backspace mblen (flatten (cs ++ c ∷ [])) ≡ flatten cs
  unfolding backspace
  backspace-flatten cs c h =
      ap (λ (n : ℕ). take n (flatten (cs ++ c ∷ []))) found
      ∙ ap (λ (t : List ℕ). take (length (flatten cs)) t) (flatten-append cs (c ∷ []))
      ∙ take-length-append (flatten cs) (c ++ [])
    where
      found :
          last_start mblen (length (flatten (cs ++ c ∷ []))) (flatten (cs ++ c ∷ [])) 0 0
          ≡ length (flatten cs)
      found =
          last_start-flatten (length (flatten (cs ++ c ∷ []))) cs c 0 0 (omega arith) h
          ∙ omega arith

  -- Bytes that stand for themselves.
  abbrev pub ArePlain : List ℕ → Type 0
  ArePlain [] = Unit {0}
  ArePlain (c ∷ cs) = (0x1F < c) × (c ≢ 0x7F) × ArePlain cs

  abbrev pub keys : ℕ → List ℕ → List Input
  keys now [] = []
  keys now (c ∷ cs) = ready now (some c) ∷ keys now cs

  on_byte-plain :
      (st : PromptState) (c : ℕ)
      → 0x1F < c
      → c ≢ 0x7F
      → length st.pwbuf < pwbuf_size
      → on_byte mblen st c ≡ again (record st { pwbuf = st.pwbuf ++ c ∷ [] })
  unfolding on_byte
  on_byte-plain st c printable nodelete room =
      rw
        (
          ne→== c 0x08 (λ z. omega arith),
          ne→== c 0x7F nodelete,
          ne→== c 0x01 (λ z. omega arith),
          ne→== c 0x15 (λ z. omega arith),
          ne→== c 0x13 (λ z. omega arith),
          ne→== c 0 (λ z. omega arith),
          ne→== c 0x1B (λ z. omega arith),
          ne→== c 0x0D (λ z. omega arith),
          ne→== c 0x0A (λ z. omega arith),
          lt→leb c 0x1F printable,
          lt→ltb (length st.pwbuf) pwbuf_size room,
        )
        refl

  module _ (prompt_timeout now : ℕ) where
    abbrev at : List ℕ → PromptState
    at pw = record { pwbuf = pw; deadline = now + prompt_timeout }

    round-byte :
        (pw : List ℕ) (c : ℕ)
        → round mblen prompt_timeout (at pw) (ready now (some c)) ≡ on_byte mblen (at pw) c
    unfolding round read_byte
    round-byte pw c = rw (le→ltb (now + prompt_timeout) now (omega arith)) refl

    rounds-byte :
        (pw : List ℕ) (c : ℕ) (inputs : List Input)
        → rounds mblen prompt_timeout (again (at pw)) (ready now (some c) ∷ inputs)
          ≡ rounds mblen prompt_timeout (on_byte mblen (at pw) c) inputs
    unfolding rounds
    rounds-byte pw c inputs =
        ap (λ (r : Round). rounds mblen prompt_timeout r inputs) (round-byte pw c)

    rounds-plain :
        (text pw : List ℕ) (inputs : List Input)
        → ArePlain text
        → length pw + length text ≤ pwbuf_size
        → rounds mblen prompt_timeout (again (at pw)) (keys now text ++ inputs)
          ≡ rounds mblen prompt_timeout (again (at (pw ++ text))) inputs
    rounds-plain [] pw inputs plain room = rw (append-nil pw) refl
    rounds-plain (c ∷ text) pw inputs (printable, nodelete, plain) room =
        rounds-byte pw c (keys now text ++ inputs)
        ∙ ap (λ (r : Round). rounds mblen prompt_timeout r (keys now text ++ inputs))
            (on_byte-plain (at pw) c printable nodelete (omega arith))
        ∙ rounds-plain text (pw ++ c ∷ []) inputs plain (omega (arith, length-append pw (c ∷ [])))
        ∙ rw (append_assoc)

    -- Typing some characters, then Backspace and then Return, without reaching the timeout or the
    -- size of the buffer, makes Prompt return all the characters but the last.
    pub prompt-backspace :
        (cs : List (List ℕ)) (c : List ℕ)
        → AreCharacters mblen (cs ++ c ∷ [])
        → ArePlain (flatten (cs ++ c ∷ []))
        → length (flatten (cs ++ c ∷ [])) ≤ pwbuf_size
        → prompt mblen prompt_timeout now (
            keys now (flatten (cs ++ c ∷ [])) ++ ready now (some 0x08) ∷ ready now (some 0x0A) ∷ [])
          ≡ finished (some (flatten cs))
    unfolding prompt
    prompt-backspace cs c h plain room =
        rounds-plain (flatten (cs ++ c ∷ [])) [] last plain (omega arith)
        ∙ rounds-byte (flatten (cs ++ c ∷ [])) 0x08 (ready now (some 0x0A) ∷ [])
        ∙ ends (backspace-flatten cs c h)
      where
        last : List Input
        last = ready now (some 0x08) ∷ ready now (some 0x0A) ∷ []

        ends :
            backspace mblen (flatten (cs ++ c ∷ [])) ≡ flatten cs
            → rounds mblen prompt_timeout
                (on_byte mblen (at (flatten (cs ++ c ∷ []))) 0x08)
                (ready now (some 0x0A) ∷ [])
              ≡ finished (some (flatten cs))
        ends p =
            rounds-byte (backspace mblen (flatten (cs ++ c ∷ []))) 0x0A []
            ∙ ap (λ (t : List ℕ). finished (some t)) p
