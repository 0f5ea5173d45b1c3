-- ===== src/AuthProto/Sound.antt =====
-- helpers/authproto.c: ReadPacket on any bytes at all. It ends, and what it accepts is a packet.
pub mod Parts
use xsecurelock.Prelude.{
  ℕ, zero, suc, ◌+◌, ◌-◌, ◌*◌, ◌^◌, ◌<◌, ◌≡◌, ◌≢◌, ◌⊎◌, inl, inr, refl, sym, ◌∙◌, ap, Bool, false,
  not, Option, none, some, List, [], ◌∷◌, ◌++◌, arith, ltb, ◌==◌, length, Bool-cases, ltb→lt,
  ==_iff,
}
use xsecurelock.AuthProto.Fd.{Reader, IsStream}
use xsecurelock.AuthProto.Decimal.{digit?, value_from, AllDigits}
use xsecurelock.AuthProto.Read.{
  read_char, read_len, read_header, read_message, read_end, read_packet, guard, pure,
  read_len_digit,
}
use Parts.{Post, bind-Post, read_char-Post, read_message-Post, guard-Post, Post-mono}

-- `xs` begins with a header for the message and the message, then `c` and `rest`.
abbrev pub Frame : List ℕ → ℕ → List ℕ → ℕ → List ℕ → Type 0
Frame xs type message c rest =
    (ds : List ℕ) × AllDigits ds
    × (xs ≡ type ∷ b' ' ∷ ds ++ 0x0A ∷ (message ++ c ∷ rest))
    × (value_from 0 ds ≡ length message)
    × (length message < 0xFFFF)
    × (type ≢ 0)

-- A packet and what follows it.
abbrev pub Accepts : List ℕ → ℕ × List ℕ → List ℕ → Type 0
Accepts xs packet rest = Frame xs packet.0 packet.1 0x0A rest

-- What `*message` is after a failure: NULL, or the message of a packet without its newline.
abbrev pub Leaves : List ℕ → Option (List ℕ) → Type 0
Leaves xs left =
    (left ≡ none)
    ⊎ ((type c : ℕ) × (message rest : List ℕ) × (left ≡ some message)
        × (c ≢ 0x0A)
        × Frame xs type message c rest)

module _ (r : Reader) (s : IsStream r) where
  open r use {Fd, read}
  open s use {pending, reads}

  -- The length: digits up to a newline, within the bytes that are there.
  abbrev Digits : ℕ → List ℕ → ℕ → List ℕ → Type 0
  Digits len xs v rest =
      (ds : List ℕ) × AllDigits ds × (xs ≡ ds ++ 0x0A ∷ rest) × (v ≡ value_from len ds)

  read_len-Post :
      (fuel len : ℕ) (Z : Option (List ℕ) → Type 0) (fd : Fd)
      → Z none
      → length (pending fd) < fuel
      → Post r s (Digits len (pending fd)) Z (read_len r fuel len fd)
  unfolding read_len value_from
  read_len-Post zero len Z fd z h = absurd (omega arith)
  read_len-Post (suc fuel) len Z fd z h =
      bind-Post r s (λ c rest. pending fd ≡ c ∷ rest) (Digits len (pending fd)) Z
        (read_char r false none fd) _ (read_char-Post r s false none Z fd z)
        λ c fd' e. elim (Bool-cases (c == 0x0A)) [
          | inl newline ↦ rw newline ([], tt, e ∙ rw ((==_iff c 0x0A).0 newline), refl)
          | inr other ↦ rw other (
              digit c (digit? c) fd' e refl
                (λ d. read_len-Post fuel (len * 10 + d) Z fd' z (omega (arith, ap length e))))
        ]
    where
      digit :
          (c : ℕ) (d? : Option ℕ) (fd' : Fd)
          → pending fd ≡ c ∷ pending fd'
          → digit? c ≡ d?
          → ((d : ℕ)
              → Post r s
                  (Digits (len * 10 + d) (pending fd'))
                  Z
                  (read_len r fuel (len * 10 + d) fd'))
          → Post r s (Digits len (pending fd)) Z (read_len_digit r len (read_len r fuel) d? fd')
      digit c none fd' e q ih = z
      digit c (some d) fd' e q ih = elim (Bool-cases (ltb (len * 10 + d) (2 ^ 31))) [
        | inl fits ↦ rw fits (
            Post-mono r s (Digits (len * 10 + d) (pending fd')) (Digits len (pending fd)) Z
              (read_len r fuel (len * 10 + d) fd')
              (λ v rest (ds, all, split, eq). (
                c ∷ ds,
                (ground arith, ground arith, all),
                rw e (rw split),
                (let same : c - b'0' ≡ d = ground arith in rw same eq),
              ))
              (ih d))
        | inr over ↦ rw over tt
      ]

  -- The header in front of `rest`.
  abbrev Header : List ℕ → ℕ × ℕ → List ℕ → Type 0
  Header xs header rest =
      (ds : List ℕ) × AllDigits ds
      × (xs ≡ header.0 ∷ b' ' ∷ ds ++ 0x0A ∷ rest)
      × (value_from 0 ds ≡ header.1)
      × (header.1 < 0xFFFF)
      × (header.0 ≢ 0)

  read_header-Post :
      (fuel : ℕ) (eof : Bool) (Z : Option (List ℕ) → Type 0) (fd : Fd)
      → Z none
      → length (pending fd) < fuel
      → Post r s (Header (pending fd)) Z (read_header r fuel eof fd)
  unfolding read_header
  read_header-Post fuel eof Z fd z h =
      let Q = Header (pending fd) in
      bind-Post r s (λ c rest. pending fd ≡ c ∷ rest) Q Z (read_char r eof none fd) _
        (read_char-Post r s eof none Z fd z)
        λ type fd₁ e₁. guard-Post r s (not (type == 0)) none Q Z _ fd₁ z λ nonzero.
          bind-Post r s (λ c rest. pending fd₁ ≡ c ∷ rest) Q Z (read_char r false none fd₁) _
            (read_char-Post r s false none Z fd₁ z)
            λ c fd₂ e₂. guard-Post r s (c == b' ') none Q Z _ fd₂ z λ space.
              bind-Post r s (Digits 0 (pending fd₂)) Q Z (read_len r fuel 0 fd₂) _
                (read_len-Post fuel 0 Z fd₂ z (omega (arith, ap length e₁, ap length e₂)))
                λ len fd₃ d.
                  guard-Post r s (ltb len 0xFFFF) none Q Z (pure (type, len)) fd₃ z λ small. (
                    d.0,
                    d.1,
                    e₁ ∙ rw (e₂, (==_iff c b' ').0 space, d.2),
                    sym d.3,
                    ltb→lt len 0xFFFF small,
                    ground arith,
                  )

  -- ReadPacket ends on any finite stream, given more fuel than the stream has bytes. If it returns a
  -- type, the bytes that it took are a packet in the format of helpers/authproto.h with that type,
  -- which is not 0, and that message, whose length is the one in the header and below 0xFFFF. If it
  -- returns 0, either `*message` is NULL, or it took such a packet but for its last character.
  pub read_packet-Post :
      (fuel : ℕ) (eof : Bool) (fd : Fd)
      → length (pending fd) < fuel
      → Post r s (Accepts (pending fd)) (Leaves (pending fd)) (read_packet r fuel eof fd)
  unfolding read_packet read_end
  read_packet-Post fuel eof fd h =
      bind-Post r s (Header (pending fd)) Q Z (read_header r fuel eof fd) _
        (read_header-Post fuel eof Z fd (inl refl) h)
        λ header fd₁ (ds, all, split, value, small, nonzero).
          bind-Post r s (λ ys rest. (pending fd₁ ≡ ys ++ rest) × (length ys ≡ header.1)) Q Z
            (read_message r header.1 fd₁) _ (read_message-Post r s header.1 Z fd₁ (inl refl))
            λ message fd₂ (taken, len).
              let frame = λ (c : ℕ) (rest : List ℕ) (e : pending fd₂ ≡ c ∷ rest).
                let f : Frame (pending fd) header.0 message c rest =
                  (ds, all, split ∙ rw (taken, e), value ∙ sym len, rw len small, nonzero) in
                f in
              bind-Post r s (λ _ rest. pending fd₂ ≡ 0x0A ∷ rest) Q Z _ _
                (bind-Post r s (λ c rest. pending fd₂ ≡ c ∷ rest)
                  (λ _ rest. pending fd₂ ≡ 0x0A ∷ rest) Z (read_char r false none fd₂) _
                  (read_char-Post r s false none Z fd₂ (inl refl))
                  λ c fd₃ e. newline header.0 c message fd₂ fd₃ e (frame c (pending fd₃) e))
                λ _ fd₃ e. frame 0x0A (pending fd₃) e
    where
      Q : ℕ × List ℕ → List ℕ → Type 0
      Q = Accepts (pending fd)

      Z : Option (List ℕ) → Type 0
      Z = Leaves (pending fd)

      newline :
          (type c : ℕ) (message : List ℕ) (fd₂ fd₃ : Fd)
          → pending fd₂ ≡ c ∷ pending fd₃
          → Frame (pending fd) type message c (pending fd₃)
          → Post r s (λ _ rest. pending fd₂ ≡ 0x0A ∷ rest) Z (guard (c == 0x0A) (some message) fd₃)
      newline type c message fd₂ fd₃ e f = elim (Bool-cases (c == 0x0A)) [
        | inl ends ↦ rw ends (e ∙ rw ((==_iff c 0x0A).0 ends))
        | inr other ↦
            rw other (inr (type, c, message, pending fd₃, refl, (λ same. ground arith), f))
      ]
