-- ===== src/Dialog/Tests.antt =====
-- Prompt with characters of one or two bytes.
use xsecurelock.Prelude.{ℕ, ◌≡◌, refl, List, [], ◌∷◌, ◌++◌, some, leb, if◌then◌else◌, arith}
use xsecurelock.Prelude.Int.{ℤ, pos}
use xsecurelock.Dialog.{
  prompt, finished, ready, select_failed, backspace, on_byte, last_start, round, rounds, read_byte,
}
use xsecurelock.Dialog.Bounds.{FitsBuffers, prompt-FitsBuffers}
use xsecurelock.Dialog.Editing.{flatten, keys, prompt-backspace}

abbrev utf8 : List ℕ → ℤ
utf8 [] = pos 0
utf8 (c ∷ cs) = if leb 0xC0 c then pos 2 else pos 1

-- "né"
abbrev typed : List (List ℕ)
typed = (b'n' ∷ []) ∷ (0xC3 ∷ 0xA9 ∷ []) ∷ []

-- A wrong character, Backspace, Ctrl-U, a character and Return.
clear_line :
    prompt utf8 300 5 (keys utf8 5 (b'x' ∷ 0x08 ∷ b'y' ∷ 0x15 ∷ b'z' ∷ 0x0A ∷ []))
    ≡ finished (some (b'z' ∷ []))
unfolding prompt rounds round read_byte on_byte backspace last_start
clear_line = refl

prompt-FitsBuffers_example :
    FitsBuffers utf8 (prompt utf8 300 5 (ready 6 (some b'x') ∷ select_failed ∷ []))
prompt-FitsBuffers_example =
    prompt-FitsBuffers utf8 300 5 (ready 6 (some b'x') ∷ select_failed ∷ [])

prompt-backspace_example :
    prompt utf8 300 5
      (keys utf8 5 (flatten typed) ++ ready 5 (some 0x08) ∷ ready 5 (some 0x0A) ∷ [])
    ≡ finished (some (b'n' ∷ []))
prompt-backspace_example =
    prompt-backspace utf8 300 5 ((b'n' ∷ []) ∷ []) (0xC3 ∷ 0xA9 ∷ [])
      (omega arith, refl, (omega arith, refl, tt))
      (
        omega arith,
        (λ e. omega arith),
        (omega arith, (λ e. omega arith), (omega arith, (λ e. omega arith), tt)),
      )
      (omega arith)
