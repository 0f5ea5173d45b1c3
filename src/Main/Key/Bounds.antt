-- ===== src/Main/Key/Bounds.antt =====
-- main.c: the text of a key press fits into `priv.buf`.
use xsecurelock.Prelude.{
  c_string, same_text, ◌+◌, ℕ, zero, suc, ◌≡◌, ◌≤◌, ◌<◌, refl, List, [], ◌∷◌, Bool, true, false,
  ◌&&◌, Option, none, some, ◌==◌, leb, if◌then◌else◌, length, take, arith, Bool-cases, inl, inr,
}
use xsecurelock.Prelude.Int.{ℤ, pos, negsuc}
use xsecurelock.Main.Key.{
  KeyPress, KeySym, tab, backspace, other_key, KeyAction, wake_up_with, run_command, do_nothing,
  have_key, has_command, keyname_action, poweroff, key_text, plain_action, key_action,
  key_press_action, sizeof_buf,
}

length-c_string : (cs : List ℕ) → length (c_string cs) ≤ length cs
length-c_string [] = omega arith
length-c_string (c ∷ cs) = ground (arith, length-c_string cs)

length-take_le : (n : ℕ) (cs : List ℕ) → length (take n cs) ≤ n
length-take_le zero cs = omega arith
length-take_le (suc n) [] = omega arith
length-take_le (suc n) (c ∷ cs) = omega (arith, length-take_le n cs)

-- A text that the action passes on leaves room for its final 0.
abbrev pub Fits : KeyAction → Type 0
Fits (wake_up_with text) = length text < sizeof_buf
Fits (run_command name) = length name < 30
Fits do_nothing = Unit {0}

module _ (key_command : List ℕ → Option (List ℕ)) where
  Fits-if : (b : Bool) (a c : KeyAction) → Fits a → (b ≡ false → Fits c) → Fits (if b then a else c)
  Fits-if true a c h k = h
  Fits-if false a c h k = k refl

  keyname_action-Fits : (name? : Option (List ℕ)) → Fits (keyname_action key_command name?)
  unfolding keyname_action
  keyname_action-Fits none = tt
  keyname_action-Fits (some name) = Fits-if (same_text name poweroff) do_nothing _ tt λ _.
      Fits-if (leb 64 (24 + length name)) (wake_up_with []) _ (omega arith)
        λ _. if_command (has_command key_command name)
    where
      if_command :
          (b : Bool)
          → Fits (
              if b
              then (if leb 64 (34 + length name) then wake_up_with [] else run_command name)
              else wake_up_with [])
      if_command true =
          Fits-if (leb 64 (34 + length name)) (wake_up_with []) (run_command name) (omega arith)
            λ short. ground arith
      if_command false = omega arith

  key_text-fits :
      (n : ℕ) (bytes : List ℕ) → n < sizeof_buf → length (key_text key_command n bytes) < sizeof_buf
  unfolding key_text
  key_text-fits n bytes h =
      elim (Bool-cases ((n == 1) && same_text (c_string (take n bytes)) (0x0D ∷ []))) [
        | inl newline ↦ rw newline (omega arith)
        | inr text ↦ rw text (omega (arith, length-c_string (take n bytes), length-take_le n bytes))
      ]

  have_key-small :
      (len : ℤ) (is_text : Bool) (n : ℕ) → have_key len is_text ≡ some n → n < sizeof_buf
  unfolding have_key
  have_key-small (negsuc m) is_text n h = absurd (cc (h))
  have_key-small (pos m) is_text n h = ground arith

  plain_action-Fits :
      (k : KeyPress) (n? : Option ℕ)
      → have_key k.len k.is_text ≡ n?
      → Fits (plain_action key_command k n?)
  unfolding plain_action
  plain_action-Fits k none h = keyname_action-Fits k.keyname
  plain_action-Fits k (some n) h = key_text-fits n k.bytes (have_key-small k.len k.is_text n h)

  -- Whatever the lookup functions of Xlib say of a key press, also a length that is out of range:
  -- the text that it passes on has at most 15 bytes before its final 0, and a command is run only
  -- if the text for the shell fits into its 64 bytes.
  pub key_press_action-Fits : (k : KeyPress) → Fits (key_press_action key_command k)
  unfolding key_press_action key_action
  key_press_action-Fits k = go k.keysym
    where
      plain : Fits (plain_action key_command k (have_key k.len k.is_text))
      plain = plain_action-Fits k (have_key k.len k.is_text) refl

      go :
          (keysym : KeySym)
          → Fits (
              key_action key_command keysym k.control
                (plain_action key_command k (have_key k.len k.is_text)))
      go tab = Fits-if k.control (wake_up_with _) _ (omega arith) λ _. plain
      go backspace = Fits-if k.control (wake_up_with _) _ (omega arith) λ _. plain
      go other_key = plain
