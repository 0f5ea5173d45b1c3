-- ===== src/AuthProto/RoundTrip.antt =====
-- helpers/authproto.c: what WritePacket sends ReadPacket reads, and what ReadPacket does with the
-- malformed packets that its loop and its last check let through.
use xsecurelock.Prelude.{
  ℕ, zero, suc, ◌+◌, ◌-◌, ◌*◌, ◌^◌, ◌≤◌, ◌<◌, ◌≡◌, ◌≢◌, refl, ◌∙◌, Bool, false, none, some, List,
  [], ◌∷◌, ◌++◌, append_assoc, arith, ltb, length, lt→ltb, ne→==, Bool-cases, inl, inr, ltb→lt,
}
use xsecurelock.AuthProto.Fd.{Reader, IsStream, Writer, IsSink}
use xsecurelock.AuthProto.Decimal.{decimal, decimal-IsNumeral, value_from, AllDigits, digit?-some}
use xsecurelock.AuthProto.Read.{
  return_zero, undefined, read_char, read_len, read_header, read_message, read_end, read_packet,
  read_chars,
}
use xsecurelock.AuthProto.Read.Streams.{
  Yields, bind-Yields, read_chars-Yields, read_char-Yields, read_len-Yields,
}
use xsecurelock.AuthProto.Write.{prefix, packet, write_packet}
use xsecurelock.AuthProto.Write.Sink.{write_packet-sent}

module _ (r : Reader) (s : IsStream r) where
  open r use {Fd}
  open s use {pending}

  read_header-Yields :
      (fuel : ℕ) (eof : Bool) (type : ℕ) (ds rest : List ℕ) (fd : Fd)
      → pending fd ≡ type ∷ b' ' ∷ ds ++ 0x0A ∷ rest
      → type ≢ 0
      → AllDigits ds
      → value_from 0 ds < 0xFFFF
      → length ds < fuel
      → Yields r s (read_header r fuel eof fd) (type, value_from 0 ds) rest
  unfolding read_header
  read_header-Yields fuel eof type ds rest fd e t d v h =
      bind-Yields r s (read_char r eof none fd) _ type _ _ rest
        (read_char-Yields r s eof none type _ fd e)
        λ fd₁ e₁. rw (ne→== type 0 t) (
          bind-Yields r s (read_char r false none fd₁) _ b' ' _ _ rest
            (read_char-Yields r s false none b' ' _ fd₁ e₁)
            λ fd₂ e₂.
              bind-Yields r s (read_len r fuel 0 fd₂) _ (value_from 0 ds) _ rest rest
                (read_len-Yields r s fuel 0 ds rest fd₂ e₂ d (omega arith) h)
                λ fd₃ e₃. rw (lt→ltb (value_from 0 ds) 0xFFFF v) (fd₃, refl, e₃))

  read_message-Yields :
      (message rest : List ℕ) (fd : Fd)
      → pending fd ≡ message ++ rest
      → Yields r s (read_message r (length message) fd) message rest
  unfolding read_message
  read_message-Yields [] rest fd e = (fd, refl, e)
  read_message-Yields (b ∷ bs) rest fd e = rw (ne→== (length (b ∷ bs)) 0 (omega arith)) (
      bind-Yields r s (read_chars r (length (b ∷ bs)) false fd) _ (b ∷ bs) (b ∷ bs) rest rest
        (read_chars-Yields r s (length (b ∷ bs)) false (b ∷ bs) rest fd e refl)
        λ fd' p. (fd', refl, p))

  -- The header that WritePacket sends is read back.
  read_header-prefix :
      (fuel : ℕ) (eof : Bool) (type len : ℕ) (rest : List ℕ) (fd : Fd)
      → pending fd ≡ prefix type len ++ rest
      → type ≢ 0
      → len < 0xFFFF
      → 10 < fuel
      → Yields r s (read_header r fuel eof fd) (type, len) rest
  read_header-prefix fuel eof type len rest fd e t h f =
      let n = decimal-IsNumeral len (omega arith) in
      rw n.value at (
        read_header-Yields fuel eof type (decimal len) rest fd
          (e ∙ append_assoc (type ∷ b' ' ∷ decimal len) (0x0A ∷ []) rest) t n.digits (rw n.value h)
          (omega (arith, n.bounded)))

  -- From a stream that begins with a packet whose type is not 0 and whose message is shorter than
  -- 0xFFFF bytes ReadPacket reads the type and the message, and leaves what stands behind it.
  pub read_packet-packet :
      (fuel : ℕ) (eof : Bool) (type : ℕ) (message rest : List ℕ) (fd : Fd)
      → pending fd ≡ packet type message ++ rest
      → type ≢ 0
      → length message < 0xFFFF
      → 10 < fuel
      → Yields r s (read_packet r fuel eof fd) (type, message) rest
  unfolding read_packet read_end
  read_packet-packet fuel eof type message rest fd e t h f =
      bind-Yields r s (read_header r fuel eof fd) _ (type, length message) _
        (message ++ (0x0A ∷ rest)) rest
        (read_header-prefix fuel eof type (length message) _ fd (e ∙ simp append_assoc) t h f)
        λ fd₁ e₁.
          bind-Yields r s (read_message r (length message) fd₁) _ message _ (0x0A ∷ rest) rest
            (read_message-Yields message _ fd₁ e₁)
            λ fd₂ e₂.
              bind-Yields r s _ _ tt _ rest rest
                (bind-Yields r s (read_char r false none fd₂) _ 0x0A tt rest rest
                  (read_char-Yields r s false none 0x0A rest fd₂ e₂) λ fd₃ e₃. (fd₃, refl, e₃))
                λ fd₃ e₃. (fd₃, refl, e₃)

-- The protocol works: what WritePacket sends into an empty stream, ReadPacket reads back from a
-- stream with these bytes in front, for every type that is not 0 and every message shorter than
-- 0xFFFF bytes, however write(2) and read(2) cut the bytes up; it leaves what stands behind them.
pub read_packet-write_packet :
    (w : Writer) (out : IsSink w) (r : Reader) (s : IsStream r) (fuel : ℕ) (eof : Bool) (type : ℕ)
    (message rest : List ℕ) (to : w.Fd) (fd : r.Fd)
    → out.sent to ≡ []
    → s.pending fd ≡ out.sent (write_packet w type message to) ++ rest
    → type ≢ 0
    → length message < 0xFFFF
    → 10 < fuel
    → Yields r s (read_packet r fuel eof fd) (type, message) rest
read_packet-write_packet w out r s fuel eof type message rest to fd empty e t h f =
    read_packet-packet r s fuel eof type message rest fd
      (e ∙ rw (write_packet-sent w out type message to h, empty)) t h f

module _ (r : Reader) (s : IsStream r) where
  open r use {Fd}
  open s use {pending}

  -- ReadPacket leaves a message in memory: behind a packet whose last character is not a newline it
  -- returns 0 with `*message` still pointing to the message, neither cleared nor freed.
  pub read_packet-leaks :
      (fuel : ℕ) (eof : Bool) (type c : ℕ) (message rest : List ℕ) (fd : Fd)
      → pending fd ≡ prefix type (length message) ++ (message ++ c ∷ rest)
      → c ≢ 0x0A
      → type ≢ 0
      → length message < 0xFFFF
      → 10 < fuel
      → (fd' : Fd) × (read_packet r fuel eof fd ≡ return_zero (some message) fd')
  unfolding read_packet read_end
  read_packet-leaks fuel eof type c message rest fd e bad t h f =
      let (fd₁, q₁, e₁) =
        read_header-prefix r s fuel eof type (length message) (message ++ c ∷ rest) fd e t h f in
      let (fd₂, q₂, e₂) = read_message-Yields r s message (c ∷ rest) fd₁ e₁ in
      let (fd₃, q₃, e₃) = read_char-Yields r s false none c rest fd₂ e₂ in
      (fd₃, rw (q₁, q₂, q₃, ne→== c 0x0A bad))

  read_len-undefined :
      (fuel len : ℕ) (ds rest : List ℕ) (fd : Fd)
      → pending fd ≡ ds ++ rest
      → AllDigits ds
      → len < 2 ^ 31
      → 2 ^ 31 ≤ value_from len ds
      → length ds < fuel
      → read_len r fuel len fd ≡ undefined
  unfolding read_len value_from
  read_len-undefined fuel len [] rest fd e d small v h = absurd (omega arith)
  read_len-undefined zero len (c ∷ ds) rest fd e d small v h = absurd (omega arith)
  read_len-undefined (suc fuel) len (c ∷ ds) rest fd e d small v h =
      let (fd', q, p) = read_char-Yields r s false none c (ds ++ rest) fd e in
      elim (Bool-cases (ltb (len * 10 + (c - b'0')) (2 ^ 31))) [
        | inl fits ↦
            rw (q, ne→== c 0x0A (omega arith), digit?-some c d.0 d.1, fits)
              (read_len-undefined fuel (len * 10 + (c - b'0')) ds rest fd' p d.2 (ltb→lt _ _ fits) v
                (omega arith))
        | inr over ↦ rw (q, ne→== c 0x0A (omega arith), digit?-some c d.0 d.1, over)
      ]

  -- ReadPacket runs into undefined behaviour: at a packet whose length field is made of digits and
  -- stands for `2 ^ 31` or more, its `int len` overflows before any check of the range.
  pub read_packet-undefined :
      (fuel : ℕ) (eof : Bool) (type : ℕ) (ds rest : List ℕ) (fd : Fd)
      → pending fd ≡ type ∷ b' ' ∷ ds ++ rest
      → type ≢ 0
      → AllDigits ds
      → 2 ^ 31 ≤ value_from 0 ds
      → length ds < fuel
      → read_packet r fuel eof fd ≡ undefined
  unfolding read_packet read_header
  read_packet-undefined fuel eof type ds rest fd e t d v h =
      let (fd₁, q₁, e₁) = read_char-Yields r s eof none type (b' ' ∷ ds ++ rest) fd e in
      let (fd₂, q₂, e₂) = read_char-Yields r s false none b' ' (ds ++ rest) fd₁ e₁ in
      rw (q₁, ne→== type 0 t, q₂, read_len-undefined fuel 0 ds rest fd₂ e₂ d (omega arith) v h)
