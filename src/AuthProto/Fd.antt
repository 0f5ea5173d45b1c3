-- ===== src/AuthProto/Fd.antt =====
-- read(2) and write(2) on a file descriptor, as helpers/authproto.c uses them: parameters of the
-- model, since the kernel implements them. `Fd` is the state of whatever is behind the descriptor.
use xsecurelock.Prelude.{ℕ, ◌≤◌, ◌<◌, ◌≡◌, List, [], ◌++◌, length, take}

-- What read(2) answers: an error, or the bytes that it stored; no bytes mean end of file.
pub data ReadAnswer : Type 0 where
  read_error : ReadAnswer
  got : List ℕ → ReadAnswer

-- What write(2) answers: an error, or how many bytes it took.
pub data WriteAnswer : Type 0 where
  write_error : WriteAnswer
  wrote : ℕ → WriteAnswer

pub record Reader : Type 1 where
  pub Fd : Type 0
  pub read : ℕ → Fd → ReadAnswer × Fd

pub record Writer : Type 1 where
  pub Fd : Type 0
  pub write : List ℕ → Fd → WriteAnswer × Fd

-- One answer of read(2) for at most `n` bytes on a stream that still holds `xs`: it takes a prefix,
-- which is empty only at the end of the stream.
abbrev pub Reads : {F : Type 0} → (F → List ℕ) → ℕ → List ℕ → ReadAnswer × F → Type 0
Reads pending n xs (read_error, fd) = ⊥
Reads pending n xs (got ys, fd) = (xs ≡ ys ++ pending fd) × (length ys ≤ n) × (ys ≡ [] → xs ≡ [])

-- One answer of write(2) for the bytes `xs` after `out` has been sent: it takes a prefix of `xs`
-- that is not empty.
abbrev pub Writes : {F : Type 0} → (F → List ℕ) → List ℕ → List ℕ → WriteAnswer × F → Type 0
Writes sent out xs (write_error, fd) = ⊥
Writes sent out xs (wrote k, fd) = (0 < k) × (k ≤ length xs) × (sent fd ≡ out ++ take k xs)

-- A blocking pipe that no signal interrupts, seen from its reading end.
pub record IsStream (r : Reader) : Type 0 where
  pub pending : r.Fd → List ℕ
  pub reads : (n : ℕ) (fd : r.Fd) → 0 < n → Reads pending n (pending fd) (r.read n fd)

-- The same from its writing end, while the reader is there and takes what comes.
pub record IsSink (w : Writer) : Type 0 where
  pub sent : w.Fd → List ℕ
  pub writes : (xs : List ℕ) (fd : w.Fd) → 0 < length xs → Writes sent (sent fd) xs (w.write xs fd)
