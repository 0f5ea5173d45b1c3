-- ===== src/AuthProto/Read.antt =====
-- helpers/authproto.c: ReadChars and ReadPacket. A `char` is its byte, and a `char *` to a text the
-- list of its bytes. malloc is taken to succeed, as the code does not check it; log lines and the
-- mlock of the buffer are left out, since neither changes what is read.
pub mod Streams
use xsecurelock.Prelude.{
  ℕ, zero, suc, ◌+◌, ◌-◌, ◌*◌, ◌^◌, Bool, true, false, not, Option, none, some, List, [], ◌∷◌, ◌++◌,
  ltb, ◌==◌, if◌then◌else◌, length,
}
use xsecurelock.AuthProto.Fd.{Reader, ReadAnswer, read_error, got}
use xsecurelock.AuthProto.Decimal.{digit?}

-- How a part of ReadPacket ends: it goes on with a value; or ReadPacket returns 0, with what
-- `*message` then points to; or a signed `int` has overflowed, which C leaves undefined; or the
-- fuel of the model ran out.
pub data Result (F A : Type 0) : Type 0 where
  ok : A → F → Result F A
  return_zero : Option (List ℕ) → F → Result F A
  undefined : Result F A
  out_of_fuel : Result F A

abbrev pub M : Type 0 → Type 0 → Type 0
M F A = F → Result F A

abbrev pub bind : {F A B : Type 0} → Result F A → (A → M F B) → Result F B
bind (ok a fd) f = f a fd
bind (return_zero m fd) f = return_zero m fd
bind undefined f = undefined
bind out_of_fuel f = out_of_fuel

infixl 5 ◌>>=◌ ◌>>◌
abbrev pub ◌>>=◌ : {F A B : Type 0} → M F A → (A → M F B) → M F B
◌>>=◌ m f fd = bind (m fd) f

abbrev pub ◌>>◌ : {F B : Type 0} → M F (Unit {0}) → M F B → M F B
m >> k = m >>= λ _. k

abbrev pub pure : {F A : Type 0} → A → M F A
pure a fd = ok a fd

-- Go on if the test holds, or return 0 with `*message` as given.
abbrev pub guard : {F : Type 0} → Bool → Option (List ℕ) → M F (Unit {0})
guard true message fd = ok tt fd
guard false message fd = return_zero message fd

module _ (r : Reader) where
  open r use {Fd, read}

  -- The body of the loop of ReadChars behind one answer of read(2).
  unfoldable pub after_read :
      Bool → List ℕ → (List ℕ → Fd → Result Fd (List ℕ)) → ReadAnswer × Fd → Result Fd (List ℕ)
  after_read eof_permitted buf again (read_error, fd) = ok [] fd
  after_read eof_permitted buf again (got [], fd) =
      if not eof_permitted then ok [] fd else ok buf fd
  after_read eof_permitted buf again (got (b ∷ bs), fd) = again (buf ++ b ∷ bs) fd

  unfoldable pub read_chars_loop : ℕ → ℕ → Bool → List ℕ → M Fd (List ℕ)
  unfolding after_read
  read_chars_loop zero n eof_permitted buf fd = out_of_fuel
  read_chars_loop (suc fuel) n eof_permitted buf fd =
      let again = read_chars_loop fuel n eof_permitted in
      if ltb (length buf) n
      then after_read eof_permitted buf again (read (n - length buf) fd)
      else ok buf fd

  -- ReadChars: the bytes that it stored; `total` is their number, and [] stands for the result 0.
  -- Each round but the last adds a byte, so `n + 1` rounds are enough.
  unfoldable pub read_chars : ℕ → Bool → M Fd (List ℕ)
  unfolding read_chars_loop
  read_chars n eof_permitted = read_chars_loop (suc n) n eof_permitted []

  -- `if (!ReadChars(…)) return 0;`, with what `*message` is then.
  unfoldable pub or_return : Option (List ℕ) → List ℕ → M Fd (List ℕ)
  or_return message [] fd = return_zero message fd
  or_return message (b ∷ bs) fd = ok (b ∷ bs) fd

  unfoldable pub first_or_return : Option (List ℕ) → List ℕ → M Fd ℕ
  first_or_return message [] fd = return_zero message fd
  first_or_return message (b ∷ bs) fd = ok b fd

  -- `if (!ReadChars(fd, &c, 1, eof_permitted)) return 0;`
  unfoldable pub read_char : Bool → Option (List ℕ) → M Fd ℕ
  unfolding first_or_return
  read_char eof_permitted message = do buf ← read_chars 1 eof_permitted; first_or_return message buf

  -- The switch on a character of the length, with the next round of the loop given.
  unfoldable pub read_len_digit : ℕ → (ℕ → M Fd ℕ) → Option ℕ → M Fd ℕ
  read_len_digit len again none fd = return_zero none fd
  read_len_digit len again (some d) fd =
      if ltb (len * 10 + d) (2 ^ 31) then again (len * 10 + d) fd else undefined

  -- The loop that reads the length.
  unfoldable pub read_len : ℕ → ℕ → M Fd ℕ
  unfolding read_len_digit
  read_len zero len fd = out_of_fuel
  read_len (suc fuel) len fd =
      let again = read_len fuel in
      bind (read_char false none fd)
        λ c. if c == 0x0A then ok len else read_len_digit len again (digit? c)

  -- ReadPacket down to the check of the length: the type and the length.
  unfoldable pub read_header : ℕ → Bool → M Fd (ℕ × ℕ)
  read_header fuel eof_permitted = do
    type ← read_char eof_permitted none
    guard (not (type == 0)) none
    c ← read_char false none
    guard (c == b' ') none
    len ← read_len fuel 0
    guard (ltb len 0xFFFF) none
    pure (type, len)

  -- The message; a buffer that could not be filled is cleared and freed.
  unfoldable pub read_message : ℕ → M Fd (List ℕ)
  unfolding or_return
  read_message len = if not (len == 0) then (read_chars len false >>= or_return none) else pure []

  -- The last character. At another one than a newline the buffer stays as it is.
  unfoldable pub read_end : List ℕ → M Fd (Unit {0})
  read_end message = do c ← read_char false none; guard (c == 0x0A) (some message)

  -- ReadPacket: a type that is not 0 and the message.
  unfoldable pub read_packet : ℕ → Bool → M Fd (ℕ × List ℕ)
  read_packet fuel eof_permitted = do
    header ← read_header fuel eof_permitted
    message ← read_message header.1
    read_end message
    pure (header.0, message)
