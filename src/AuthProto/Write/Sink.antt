-- ===== src/AuthProto/Write/Sink.antt =====
-- What WriteChars and WritePacket of helpers/authproto.c put into a stream, whatever the sizes of
-- the pieces that write(2) takes.
use xsecurelock.Prelude.{
  ℕ, zero, suc, ◌+◌, ◌≤◌, ◌<◌, ◌≡◌, refl, sym, ◌∙◌, ap, List, [], ◌∷◌, ◌++◌, append-nil,
  append_assoc, arith, ltb, length, length-append, take, drop, take-append-take-drop, take-length,
  length-drop, Bool-cases, inl, inr, ltb→lt, lt→leb, ne→==,
}
use xsecurelock.AuthProto.Fd.{Writer, IsSink, Writes, WriteAnswer, write_error, wrote}
use xsecurelock.AuthProto.Decimal.{decimal, decimal-IsNumeral}
use xsecurelock.AuthProto.Write.{
  prefix, packet, after_write, write_chars_loop, write_chars, and_then, write_packet,
}

module _ (w : Writer) (s : IsSink w) where
  open w use {Fd, write}
  open s use {sent, writes}

  -- All of `n` bytes are written, and `out` is what has been sent then.
  abbrev pub Sends : ℕ × Fd → ℕ → List ℕ → Type 0
  Sends res n out = (fd : Fd) × (res ≡ (n, fd)) × (sent fd ≡ out)

  after_write-Sends :
      (again : ℕ → Fd → ℕ × Fd) (n : ℕ) (out all xs : List ℕ) (a : WriteAnswer × Fd)
      → Writes sent out xs a
      → ((k : ℕ) (fd : Fd)
          → 0 < k
          → k ≤ length xs
          → sent fd ≡ out ++ take k xs
          → Sends (again k fd) n all)
      → Sends (after_write w again a) n all
  unfolding after_write
  after_write-Sends again n out all xs (write_error, fd) h ih = absurd h
  after_write-Sends again n out all xs (wrote k, fd) h ih =
      rw (ne→== k 0 (omega (arith, h.0))) (ih k fd h.0 h.1 h.2)

  -- The invariant of the loop: the first `total` bytes of the buffer have been sent behind `out`.
  write_chars_loop-Sends :
      (fuel : ℕ) (buf out : List ℕ) (total : ℕ) (fd : Fd)
      → total ≤ length buf
      → length buf < total + fuel
      → sent fd ≡ out ++ take total buf
      → Sends (write_chars_loop w fuel buf total fd) (length buf) (out ++ buf)
  unfolding write_chars_loop
  write_chars_loop-Sends zero buf out total fd l h e = absurd (omega arith)
  write_chars_loop-Sends (suc fuel) buf out total fd l h e =
      elim (Bool-cases (ltb total (length buf))) [
        | inl more ↦ rw more (
            after_write-Sends (λ k. write_chars_loop w fuel buf (total + k)) (length buf)
              (out ++ take total buf) (out ++ buf) (drop total buf) (write (drop total buf) fd)
              (rw e at (
                writes (drop total buf) fd
                  (omega (arith, length-drop {0} total buf, ltb→lt total (length buf) more))))
              λ k fd' pos le e'.
                write_chars_loop-Sends fuel buf out (total + k) fd'
                  (omega (arith, length-drop {0} total buf)) (omega arith)
                  (e'
                    ∙ (append_assoc out (take total buf) (take k (drop total buf))
                        ∙ ap (◌++◌ out) (take-append-take-drop total k (total + k) buf refl))))
        | inr done ↦
            let full : total ≡ length buf = ground arith in
            rw done (fd, rw full, e ∙ rw (full, take-length buf))
      ]

  pub write_chars-Sends :
      (buf : List ℕ) (fd : Fd) → Sends (write_chars w buf fd) (length buf) (sent fd ++ buf)
  unfolding write_chars
  write_chars-Sends buf fd =
      write_chars_loop-Sends (suc (length buf)) buf (sent fd) 0 fd (omega arith) (omega arith)
        (sym (append-nil (sent fd)))

  -- A WriteChars of some bytes succeeds, and what follows sees them sent.
  and_then-sent :
      (b : ℕ) (bs out : List ℕ) (fd : Fd) (rest : Fd → Fd)
      → ((fd' : Fd) → sent fd' ≡ sent fd ++ b ∷ bs → sent (rest fd') ≡ out)
      → sent (and_then w (write_chars w (b ∷ bs) fd) rest) ≡ out
  unfolding and_then
  and_then-sent b bs out fd rest k =
      let (fd', e, p) = write_chars-Sends (b ∷ bs) fd in rw e (k fd' p)

  length-prefix : (type len : ℕ) → len < 0xFFFF → length (prefix type len) < 16
  length-prefix type len h =
      let n = (decimal-IsNumeral len (omega arith)).bounded in
      omega (arith, length-append {0} (decimal len) (0x0A ∷ []))

  -- A message shorter than 0xFFFF bytes is sent whole, as one packet.
  pub write_packet-sent :
      (type : ℕ) (message : List ℕ) (fd : Fd)
      → length message < 0xFFFF
      → sent (write_packet w type message fd) ≡ sent fd ++ packet type message
  unfolding write_packet
  write_packet-sent type [] fd h =
      rw (lt→leb 16 (length (prefix type 0)) (length-prefix type 0 h)) (
        and_then-sent type (b' ' ∷ decimal 0 ++ 0x0A ∷ []) (sent fd ++ packet type []) fd _ λ fd₁ p.
          and_then-sent 0x0A [] (sent fd ++ packet type []) fd₁ (λ fd'. fd')
            λ fd₂ q. simp (q, p, append_assoc))
  write_packet-sent type (b ∷ bs) fd h =
      let len = length (b ∷ bs) in
      let out = sent fd ++ packet type (b ∷ bs) in
      rw (lt→leb 0xFFFF len h, lt→leb 16 (length (prefix type len)) (length-prefix type len h))
        (and_then-sent type (b' ' ∷ decimal len ++ 0x0A ∷ []) out fd _ λ fd₁ p.
          rw (ne→== (length (b ∷ bs)) 0 (omega arith)) (
            and_then-sent b bs out fd₁ _ λ fd₂ q.
              and_then-sent 0x0A [] out fd₂ (λ fd'. fd') λ fd₃ e. simp (e, q, p, append_assoc)))
