-- ===== src/AuthProto/Read/Streams.antt =====
-- What the readers of helpers/authproto.c do on a stream, whatever the sizes of the pieces in which
-- read(2) hands it over.
use xsecurelock.Prelude.{
  ℕ, zero, suc, ◌+◌, ◌-◌, ◌*◌, ◌^◌, ◌≤◌, ◌<◌, ◌≡◌, refl, sym, ap, Bool, false, Option, none, List,
  [], ◌∷◌, ◌++◌, append-nil, append_assoc, arith, length, length-append, lt→ltb, le→ltb, ne→==,
}
use xsecurelock.AuthProto.Fd.{Reader, Reads, IsStream, ReadAnswer, read_error, got}
use xsecurelock.AuthProto.Decimal.{value_from, value_from-le, AllDigits, digit?-some}
use xsecurelock.AuthProto.Read.{
  Result, ok, M, bind, after_read, read_chars_loop, read_chars, read_char, read_len,
}

-- `ys` is no longer than `xs`, and both begin one list: `xs` goes on after `ys`.
split_prefix :
    (ys p xs rest : List ℕ)
    → ys ++ p ≡ xs ++ rest
    → length ys ≤ length xs
    → (zs : List ℕ) × (xs ≡ ys ++ zs) × (p ≡ zs ++ rest)
split_prefix [] p xs rest e h = (xs, refl, e)
split_prefix (y ∷ ys) p [] rest e h = elim h [ ]
split_prefix (y ∷ ys) p (x ∷ xs) rest e h =
    let (zs, f, g) = split_prefix ys p xs rest (cc) (omega arith) in (zs, cc, g)

module _ (r : Reader) (s : IsStream r) where
  open r use {Fd, read}
  open s use {pending, reads}

  -- The part goes on with the value `a` and leaves `rest` in the stream.
  abbrev pub Yields : {A : Type 0} → Result Fd A → A → List ℕ → Type 0
  Yields res a rest = (fd : Fd) × (res ≡ ok a fd) × (pending fd ≡ rest)

  pub bind-Yields :
      {A B : Type 0} (m : Result Fd A) (f : A → M Fd B) (a : A) (b : B) (mid rest : List ℕ)
      → Yields m a mid
      → ((fd : Fd) → pending fd ≡ mid → Yields (f a fd) b rest)
      → Yields (bind m f) b rest
  bind-Yields m f a b mid rest (fd, e, p) k = rw e (k fd p)

  after_read-Yields :
      (eof : Bool) (k : ℕ) (buf xs rest : List ℕ) (x : ℕ) (again : List ℕ → Fd → Result Fd (List ℕ))
      (a : ReadAnswer × Fd)
      → Reads pending k ((x ∷ xs) ++ rest) a
      → k ≤ length (x ∷ xs)
      → ((more zs : List ℕ) (fd : Fd)
          → x ∷ xs ≡ more ++ zs
          → 0 < length more
          → pending fd ≡ zs ++ rest
          → Yields (again (buf ++ more) fd) ((buf ++ more) ++ zs) rest)
      → Yields (after_read r eof buf again a) (buf ++ x ∷ xs) rest
  unfolding after_read
  after_read-Yields eof k buf xs rest x again (read_error, fd) h l ih = absurd h
  after_read-Yields eof k buf xs rest x again (got [], fd) h l ih = absurd (cc (h.2 refl))
  after_read-Yields eof k buf xs rest x again (got (b ∷ bs), fd) h l ih =
      let parts = split_prefix (b ∷ bs) (pending fd) (x ∷ xs) rest (sym h.0) (omega (arith, h.1)) in
      rw (parts.1, ← append_assoc buf (b ∷ bs) parts.0)
        (ih (b ∷ bs) parts.0 fd parts.1 (omega arith) parts.2)

  read_chars_loop-Yields :
      (fuel n : ℕ) (eof : Bool) (buf xs rest : List ℕ) (fd : Fd)
      → pending fd ≡ xs ++ rest
      → length buf + length xs ≡ n
      → length xs < fuel
      → Yields (read_chars_loop r fuel n eof buf fd) (buf ++ xs) rest
  unfolding read_chars_loop
  read_chars_loop-Yields zero n eof buf xs rest fd e l h = absurd (omega arith)
  read_chars_loop-Yields (suc fuel) n eof buf [] rest fd e l h =
      rw (le→ltb (length buf) n (omega arith)) (fd, rw (append-nil buf), e)
  read_chars_loop-Yields (suc fuel) n eof buf (x ∷ xs) rest fd e l h =
      rw (lt→ltb (length buf) n (omega arith)) (
        after_read-Yields eof (n - length buf) buf xs rest x (read_chars_loop r fuel n eof)
          (read (n - length buf) fd) (rw e at (reads (n - length buf) fd (omega arith)))
          (omega arith)
          λ more zs fd' split pos p.
            read_chars_loop-Yields fuel n eof (buf ++ more) zs rest fd' p
              (omega
                (arith, length-append {0} buf more, length-append {0} more zs, ap length split, l))
              (omega (arith, length-append {0} more zs, ap length split)))

  pub read_chars-Yields :
      (n : ℕ) (eof : Bool) (xs rest : List ℕ) (fd : Fd)
      → pending fd ≡ xs ++ rest
      → length xs ≡ n
      → Yields (read_chars r n eof fd) xs rest
  unfolding read_chars
  read_chars-Yields n eof xs rest fd e l =
      read_chars_loop-Yields (suc n) n eof [] xs rest fd e (omega arith) (omega arith)

  pub read_char-Yields :
      (eof : Bool) (message : Option (List ℕ)) (c : ℕ) (rest : List ℕ) (fd : Fd)
      → pending fd ≡ c ∷ rest
      → Yields (read_char r eof message fd) c rest
  unfolding read_char
  read_char-Yields eof message c rest fd e =
      bind-Yields (read_chars r 1 eof fd) _ (c ∷ []) c rest rest
        (read_chars-Yields 1 eof (c ∷ []) rest fd e refl) λ fd' p. (fd', refl, p)

  -- The loop for the length reads a numeral and the newline behind it.
  pub read_len-Yields :
      (fuel len : ℕ) (ds rest : List ℕ) (fd : Fd)
      → pending fd ≡ ds ++ 0x0A ∷ rest
      → AllDigits ds
      → value_from len ds < 2 ^ 31
      → length ds < fuel
      → Yields (read_len r fuel len fd) (value_from len ds) rest
  unfolding read_len value_from
  read_len-Yields zero len ds rest fd e d v h = absurd (omega arith)
  read_len-Yields (suc fuel) len [] rest fd e d v h =
      bind-Yields (read_char r false none fd) _ 0x0A len rest rest
        (read_char-Yields false none 0x0A rest fd e) λ fd' p. (fd', refl, p)
  read_len-Yields (suc fuel) len (c ∷ ds) rest fd e d v h =
      bind-Yields (read_char r false none fd) _ c (value_from len (c ∷ ds)) (ds ++ 0x0A ∷ rest) rest
        (read_char-Yields false none c (ds ++ 0x0A ∷ rest) fd e)
        λ fd' p.
          rw
            (
              ne→== c 0x0A (omega arith),
              digit?-some c d.0 d.1,
              lt→ltb (len * 10 + (c - b'0')) (2 ^ 31)
                  (omega (arith, value_from-le (len * 10 + (c - b'0')) ds)),
            )
            (read_len-Yields fuel (len * 10 + (c - b'0')) ds rest fd' p d.2 v (omega arith))
