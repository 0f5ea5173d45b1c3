-- ===== src/AuthProto/Sound/Parts.antt =====
-- helpers/authproto.c: what ReadChars and the parts of ReadPacket do to any bytes.
use xsecurelock.Prelude.{
  ℕ, zero, suc, ◌+◌, ◌-◌, ◌≤◌, ◌<◌, ◌≡◌, ◌⊎◌, inl, inr, refl, ap, Bool, true, false, Option, none,
  List, [], ◌∷◌, ◌++◌, append_assoc, arith, ltb, ◌==◌, length, length-append, Bool-cases, ltb→lt,
}
use xsecurelock.AuthProto.Fd.{Reader, Reads, IsStream, ReadAnswer, read_error, got}
use xsecurelock.AuthProto.Read.{
  Result, ok, return_zero, undefined, out_of_fuel, M, bind, after_read, read_chars_loop, read_chars,
  read_char, read_message, guard, first_or_return, or_return,
}

module _ (r : Reader) (s : IsStream r) where
  open r use {Fd, read}
  open s use {pending, reads}

  -- The part ends: with a value for which `Q` holds of it and of what is left in the stream, or
  -- with `return 0` and a `*message` for which `Z` holds, or by an overflow; the fuel lasts.
  abbrev pub Post :
      {A : Type 0} → (A → List ℕ → Type 0) → (Option (List ℕ) → Type 0) → Result Fd A → Type 0
  Post Q Z (ok a fd) = Q a (pending fd)
  Post Q Z (return_zero m fd) = Z m
  Post Q Z undefined = Unit {0}
  Post Q Z out_of_fuel = ⊥

  pub bind-Post :
      {A B : Type 0} (P : A → List ℕ → Type 0) (Q : B → List ℕ → Type 0)
      (Z : Option (List ℕ) → Type 0) (m : Result Fd A) (f : A → M Fd B)
      → Post P Z m
      → ((a : A) (fd : Fd) → P a (pending fd) → Post Q Z (f a fd))
      → Post Q Z (bind m f)
  bind-Post P Q Z (ok a fd) f h k = k a fd h
  bind-Post P Q Z (return_zero m fd) f h k = h
  bind-Post P Q Z undefined f h k = tt
  bind-Post P Q Z out_of_fuel f h k = h

  -- What ReadChars gives on `xs`: 0, or a prefix; the whole of `n` bytes unless an end of file is
  -- permitted.
  abbrev Took : List ℕ → ℕ → Bool → List ℕ → List ℕ → Type 0
  Took xs n eof ys rest =
      (ys ≡ []) ⊎ ((xs ≡ ys ++ rest) × (length ys ≤ n) × (eof ≡ false → length ys ≡ n))

  after_read-Post :
      (n k : ℕ) (eof : Bool) (buf xs : List ℕ) (again : List ℕ → Fd → Result Fd (List ℕ))
      (a : ReadAnswer × Fd)
      → Reads pending k xs a
      → length buf + k ≡ n
      → ((more : List ℕ) (fd : Fd)
          → xs ≡ more ++ pending fd
          → 0 < length more
          → length more ≤ k
          → Post (Took (buf ++ xs) n eof) (λ _. ⊥) (again (buf ++ more) fd))
      → Post (Took (buf ++ xs) n eof) (λ _. ⊥) (after_read r eof buf again a)
  unfolding after_read
  after_read-Post n k eof buf xs again (read_error, fd) h l ih = absurd h
  after_read-Post n k true buf xs again (got [], fd) h l ih =
      inr (ap (◌++◌ buf) h.0, omega arith, λ e. cc)
  after_read-Post n k false buf xs again (got [], fd) h l ih = inl refl
  after_read-Post n k eof buf xs again (got (b ∷ bs), fd) h l ih =
      ih (b ∷ bs) fd h.0 (omega arith) h.1

  read_chars_loop-Post :
      (fuel n : ℕ) (eof : Bool) (buf xs : List ℕ) (fd : Fd)
      → pending fd ≡ xs
      → length buf ≤ n
      → n < length buf + fuel
      → Post (Took (buf ++ xs) n eof) (λ _. ⊥) (read_chars_loop r fuel n eof buf fd)
  unfolding read_chars_loop
  read_chars_loop-Post zero n eof buf xs fd e l h = absurd (omega arith)
  read_chars_loop-Post (suc fuel) n eof buf xs fd e l h = elim (Bool-cases (ltb (length buf) n)) [
    | inl more ↦
        let lt = ltb→lt (length buf) n more in
        rw more (
          after_read-Post n (n - length buf) eof buf xs (read_chars_loop r fuel n eof)
            (read (n - length buf) fd) (rw e at (reads (n - length buf) fd (omega (arith, lt))))
            (omega (arith, lt))
            λ ys fd' split pos le.
              rw (split, ← append_assoc buf ys (pending fd'))
                (read_chars_loop-Post fuel n eof (buf ++ ys) (pending fd') fd' refl
                  (omega (arith, length-append {0} buf ys, lt))
                  (omega (arith, length-append {0} buf ys))))
    | inr done ↦ rw done (inr (rw e, l, λ _. ground arith))
  ]

  Post-weaken :
      {A : Type 0} (P : A → List ℕ → Type 0) (Z : Option (List ℕ) → Type 0) (m : Result Fd A)
      → Post P (λ _. ⊥) m
      → Post P Z m
  Post-weaken P Z (ok a fd) h = h
  Post-weaken P Z (return_zero m fd) h = absurd h
  Post-weaken P Z undefined h = tt
  Post-weaken P Z out_of_fuel h = h

  pub Post-mono :
      {A : Type 0} (P Q : A → List ℕ → Type 0) (Z : Option (List ℕ) → Type 0) (m : Result Fd A)
      → ((a : A) (rest : List ℕ) → P a rest → Q a rest)
      → Post P Z m
      → Post Q Z m
  Post-mono P Q Z (ok a fd) k h = k a (pending fd) h
  Post-mono P Q Z (return_zero m fd) k h = h
  Post-mono P Q Z undefined k h = tt
  Post-mono P Q Z out_of_fuel k h = h

  read_chars-Post :
      (n : ℕ) (eof : Bool) (Z : Option (List ℕ) → Type 0) (fd : Fd)
      → Post (Took (pending fd) n eof) Z (read_chars r n eof fd)
  unfolding read_chars
  read_chars-Post n eof Z fd =
      Post-weaken (Took (pending fd) n eof) Z (read_chars_loop r (suc n) n eof [] fd)
        (read_chars_loop-Post (suc n) n eof [] (pending fd) fd refl (omega arith) (omega arith))

  pub read_char-Post :
      (eof : Bool) (message : Option (List ℕ)) (Z : Option (List ℕ) → Type 0) (fd : Fd)
      → Z message
      → Post (λ c rest. pending fd ≡ c ∷ rest) Z (read_char r eof message fd)
  unfolding read_char
  read_char-Post eof message Z fd z =
      bind-Post (Took (pending fd) 1 eof) (λ c rest. pending fd ≡ c ∷ rest) Z
        (read_chars r 1 eof fd) (first_or_return r message) (read_chars-Post 1 eof Z fd) pick
    where
      pick :
          (buf : List ℕ) (fd' : Fd)
          → Took (pending fd) 1 eof buf (pending fd')
          → Post (λ c rest. pending fd ≡ c ∷ rest) Z (first_or_return r message buf fd')
      pick [] fd' t = z
      pick (c ∷ []) fd' (inl e) = absurd (cc e)
      pick (c ∷ []) fd' (inr t) = t.0
      pick (c ∷ d ∷ bs) fd' (inl e) = absurd (cc e)
      pick (c ∷ d ∷ bs) fd' (inr t) = absurd (omega (arith, t.1))

  pub read_message-Post :
      (len : ℕ) (Z : Option (List ℕ) → Type 0) (fd : Fd)
      → Z none
      → Post (λ ys rest. (pending fd ≡ ys ++ rest) × (length ys ≡ len)) Z (read_message r len fd)
  unfolding read_message
  read_message-Post len Z fd z = elim (Bool-cases (len == 0)) [
    | inl empty ↦ rw empty (refl, ground arith)
    | inr more ↦ rw more (
        bind-Post (Took (pending fd) len false)
          (λ ys rest. (pending fd ≡ ys ++ rest) × (length ys ≡ len)) Z (read_chars r len false fd)
          (or_return r none) (read_chars-Post len false Z fd) pick)
  ]
    where
      pick :
          (buf : List ℕ) (fd' : Fd)
          → Took (pending fd) len false buf (pending fd')
          → Post
              (λ ys rest. (pending fd ≡ ys ++ rest) × (length ys ≡ len))
              Z
              (or_return r none buf fd')
      pick [] fd' t = z
      pick (c ∷ bs) fd' (inl e) = absurd (cc e)
      pick (c ∷ bs) fd' (inr t) = (t.0, t.2 refl)

  pub guard-Post :
      {B : Type 0} (b : Bool) (message : Option (List ℕ)) (Q : B → List ℕ → Type 0)
      (Z : Option (List ℕ) → Type 0) (k : M Fd B) (fd : Fd)
      → Z message
      → (b ≡ true → Post Q Z (k fd))
      → Post Q Z (bind (guard b message fd) (λ _. k))
  guard-Post true message Q Z k fd z h = h refl
  guard-Post false message Q Z k fd z h = z
