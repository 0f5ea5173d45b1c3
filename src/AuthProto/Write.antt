-- ===== src/AuthProto/Write.antt =====
-- helpers/authproto.c: WriteChars and WritePacket, and the packet format of helpers/authproto.h.
-- The message is the bytes of the C string, without its NUL. Log lines are left out.
pub mod Sink
use xsecurelock.Prelude.{
  ℕ, zero, suc, ◌+◌, List, [], ◌∷◌, ◌++◌, ltb, leb, ◌==◌, if◌then◌else◌, length, drop,
}
use xsecurelock.AuthProto.Fd.{Writer, WriteAnswer, write_error, wrote}
use xsecurelock.AuthProto.Decimal.{decimal}

-- `<ptype> <SPC> <len> <NEWLINE>`
abbrev pub prefix : ℕ → ℕ → List ℕ
prefix type len = type ∷ b' ' ∷ decimal len ++ 0x0A ∷ []

-- `<ptype> <SPC> <len> <NEWLINE> <message> <NEWLINE>`
abbrev pub packet : ℕ → List ℕ → List ℕ
packet type message = prefix type (length message) ++ (message ++ 0x0A ∷ [])

module _ (w : Writer) where
  open w use {Fd, write}

  -- The body of the loop of WriteChars behind one answer of write(2).
  after_write : (ℕ → Fd → ℕ × Fd) → WriteAnswer × Fd → ℕ × Fd
  after_write again (write_error, fd) = (0, fd)
  after_write again (wrote k, fd) = if k == 0 then (0, fd) else again k fd

  write_chars_loop : ℕ → List ℕ → ℕ → Fd → ℕ × Fd
  unfolding after_write
  write_chars_loop zero buf total fd = (0, fd)
  write_chars_loop (suc fuel) buf total fd =
      let again = λ (k : ℕ). write_chars_loop fuel buf (total + k) in
      if ltb total (length buf) then after_write again (write (drop total buf) fd) else (total, fd)

  -- WriteChars: the number of bytes written, or 0. Each round but the last writes a byte, so
  -- `n + 1` rounds are enough.
  unfoldable pub write_chars : List ℕ → Fd → ℕ × Fd
  unfolding write_chars_loop
  write_chars buf fd = write_chars_loop (suc (length buf)) buf 0 fd

  -- `if (!WriteChars(…)) return;` and what follows it.
  and_then : ℕ × Fd → (Fd → Fd) → Fd
  and_then (zero, fd) rest = fd
  and_then (suc n, fd) rest = rest fd

  unfoldable pub write_packet : ℕ → List ℕ → Fd → Fd
  unfolding and_then
  write_packet type message fd =
      let len = length message in
      if leb 0xFFFF len
      then fd
      else if leb 16 (length (prefix type len))
      then fd
      else and_then (write_chars (prefix type len) fd) λ fd₁.
        if len == 0
        then and_then (write_chars (0x0A ∷ []) fd₁) (λ fd₂. fd₂)
        else and_then (write_chars message fd₁)
            (λ fd₂. and_then (write_chars (0x0A ∷ []) fd₂) (λ fd₃. fd₃))
