-- ===== src/Main/Key.antt =====
-- main.c: what the loop of main makes of a key press. `priv.buf` has 16 bytes; what stands in it
-- is given here up to the first 0, as the C string that WakeUp passes on.
pub mod Bounds
use xsecurelock.Prelude.{
  c_string, same_text, ℕ, ◌+◌, Bool, true, false, not, ◌&&◌, ◌||◌, List, [], ◌∷◌, Option, none,
  some, leb, ◌==◌, if◌then◌else◌, length, take,
}
use xsecurelock.Prelude.Int.{ℤ, pos, negsuc}

pub data KeySym : Type 0 where
  tab backspace other_key : KeySym

-- `len` and the first bytes of `buf` after XmbLookupString or XLookupString, and whether there is no
-- input context, or `status` is XLookupChars or XLookupBoth.
pub record KeyPress : Type 0 where
  pub len : ℤ
  pub bytes : List ℕ
  pub is_text : Bool
  pub keysym : KeySym
  pub control : Bool
  -- XKeysymToString
  pub keyname : Option (List ℕ)

abbrev pub sizeof_buf : ℕ
sizeof_buf = 16

-- `have_key`, with the number of bytes.
have_key : ℤ → Bool → Option ℕ
have_key (negsuc n) is_text = none
have_key (pos n) is_text = if (n == 0) || not is_text || leb sizeof_buf n then none else some n

-- What is to be done: wake up with this text, run the command of the key, or nothing.
pub data KeyAction : Type 0 where
  wake_up_with : List ℕ → KeyAction
  run_command : (name : List ℕ) → KeyAction
  do_nothing : KeyAction

poweroff : List ℕ
poweroff = b'X' ∷ b'F' ∷ b'8' ∷ b'6' ∷ b'P' ∷ b'o' ∷ b'w' ∷ b'e' ∷ b'r' ∷ b'O' ∷ b'f' ∷ b'f' ∷ []

-- `key_command name` is the environment variable XSECURELOCK_KEY_<name>_COMMAND.
module _ (key_command : List ℕ → Option (List ℕ)) where
  -- Whether the variable is not empty; its name has 24 bytes more than the key's.
  has_command : List ℕ → Bool
  has_command name = elim (key_command name) [
    | none ↦ false
    | some [] ↦ false
    | some (c ∷ cs) ↦ true
  ]

  -- Without new bytes: a command for the key? The texts are formatted into 64 bytes.
  keyname_action : Option (List ℕ) → KeyAction
  unfolding has_command poweroff
  keyname_action none = do_nothing
  keyname_action (some name) =
      if same_text name poweroff
      then do_nothing
      else (if leb 64 (24 + length name)
          then wake_up_with []
          else (if has_command name
              then (if leb 64 (34 + length name) then wake_up_with [] else run_command name)
              else wake_up_with []))

  -- The text of a key that has bytes: all newline-like things are newlines.
  key_text : ℕ → List ℕ → List ℕ
  key_text n bytes =
      let text = c_string (take n bytes) in
      if (n == 1) && same_text text (0x0D ∷ []) then 0x0A ∷ [] else text

  plain_action : KeyPress → Option ℕ → KeyAction
  unfolding key_text keyname_action
  plain_action k (some n) = wake_up_with (key_text n k.bytes)
  plain_action k none = keyname_action k.keyname

  key_action : KeySym → Bool → KeyAction → KeyAction
  key_action tab control plain = if control then wake_up_with (0x13 ∷ []) else plain
  key_action backspace control plain = if control then wake_up_with (0x15 ∷ []) else plain
  key_action other_key control plain = plain

  -- The case KeyPress, behind the lookup and before WakeUp.
  pub key_press_action : KeyPress → KeyAction
  unfolding have_key plain_action key_action
  key_press_action k = key_action k.keysym k.control (plain_action k (have_key k.len k.is_text))
