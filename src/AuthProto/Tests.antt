-- ===== src/AuthProto/Tests.antt =====
-- Runs of the protocol of helpers/authproto.c over a pipe that cuts the bytes into small pieces.
use xsecurelock.Prelude.{
  ℕ, zero, suc, ◌≤◌, ◌<◌, ◌≡◌, refl, sym, true, false, some, List, [], ◌∷◌, ◌++◌, arith, ltb,
  if◌then◌else◌, length, take, drop, take-append-drop,
}
use xsecurelock.AuthProto.Fd.{Reader, IsStream, Reads, got, Writer, IsSink, Writes, wrote}
use xsecurelock.AuthProto.Decimal.{decimal, value_from}
use xsecurelock.AuthProto.Read.{
  ok, return_zero, undefined, read_packet, read_header, read_char, read_chars, read_len,
  read_message, read_end,
}
use xsecurelock.AuthProto.Read.Streams.{Yields}
use xsecurelock.AuthProto.Write.{prefix, packet, write_packet, write_chars}
use xsecurelock.AuthProto.Write.Sink.{write_packet-sent}
use xsecurelock.AuthProto.RoundTrip.{
  read_packet-write_packet, read_packet-leaks, read_packet-undefined,
}
use xsecurelock.AuthProto.Sound.Parts.{Post}
use xsecurelock.AuthProto.Sound.{Accepts, Leaves, read_packet-Post}

abbrev two_at_most : ℕ → ℕ
two_at_most n = if ltb n 2 then n else 2

abbrev pub pipe_out : Reader
pipe_out = record {
  Fd = List ℕ;
  read = λ n xs. (got (take (two_at_most n) xs), drop (two_at_most n) xs);
}

take_nonempty : (n : ℕ) (xs : List ℕ) → 0 < n → take n xs ≡ [] → xs ≡ []
take_nonempty zero xs h e = absurd (omega arith)
take_nonempty (suc n) [] h e = refl
take_nonempty (suc n) (x ∷ xs) h e = cc

length-take-le : (n : ℕ) (xs : List ℕ) → length (take n xs) ≤ n
length-take-le zero xs = omega arith
length-take-le (suc n) [] = omega arith
length-take-le (suc n) (x ∷ xs) = omega (arith, length-take-le n xs)

pub pipe_out-Reads :
    (n : ℕ) (xs : List ℕ) → 0 < n → Reads (λ (ys : List ℕ). ys) n xs (pipe_out.read n xs)
pipe_out-Reads n xs h = (
  sym (take-append-drop (two_at_most n) xs),
  ground (arith, length-take-le (two_at_most n) xs),
  take_nonempty (two_at_most n) xs (ground arith),
)

abbrev pub pipe_stream : IsStream pipe_out
pipe_stream = record { pending = λ xs. xs; reads = pipe_out-Reads }

abbrev pub pipe_in : Writer
pipe_in = record {
  Fd = List ℕ;
  write = λ xs out. (wrote (two_at_most (length xs)), out ++ take (two_at_most (length xs)) xs);
}

pub pipe_in-Writes :
    (xs out : List ℕ) → 0 < length xs → Writes (λ (ys : List ℕ). ys) out xs (pipe_in.write xs out)
pipe_in-Writes xs out h = (ground arith, ground arith, refl)

abbrev pub pipe_sink : IsSink pipe_in
pipe_sink = record { sent = λ xs. xs; writes = pipe_in-Writes }

-- "secret"
abbrev secret : List ℕ
secret = b's' ∷ b'e' ∷ b'c' ∷ b'r' ∷ b'e' ∷ b't' ∷ []

abbrev sent_secret : List ℕ
sent_secret = b'p' ∷ b' ' ∷ b'6' ∷ 0x0A ∷ secret ++ 0x0A ∷ []

write_secret : write_packet pipe_in b'p' secret [] ≡ sent_secret
unfolding write_packet write_chars decimal
write_secret = refl

read_secret :
    read_packet pipe_out 20 true (sent_secret ++ b'!' ∷ []) ≡ ok (b'p', secret) (b'!' ∷ [])
unfolding read_packet read_header read_char read_chars read_len read_message read_end
read_secret = refl

-- `len` is read as the number behind its leading zeros; an empty length counts as 0.
read_odd_lengths :
    (read_packet pipe_out 20 true (b'i' ∷ b' ' ∷ b'0' ∷ b'1' ∷ 0x0A ∷ b'x' ∷ 0x0A ∷ [])
      ≡ ok (b'i', b'x' ∷ []) [])
    × (read_packet pipe_out 20 true (b'i' ∷ b' ' ∷ 0x0A ∷ 0x0A ∷ []) ≡ ok (b'i', []) [])
unfolding read_packet read_header read_char read_chars read_len read_message read_end
read_odd_lengths = (refl, refl)

read_packet-write_packet_example :
    Yields pipe_out pipe_stream
      (read_packet pipe_out 11 false (write_packet pipe_in b'p' secret [] ++ b'!' ∷ []))
      (b'p', secret)
      (b'!' ∷ [])
read_packet-write_packet_example =
    read_packet-write_packet pipe_in pipe_sink pipe_out pipe_stream 11 false b'p' secret (b'!' ∷ [])
      [] (write_packet pipe_in b'p' secret [] ++ b'!' ∷ []) refl refl (omega arith) (omega arith)
      (omega arith)

read_packet-Post_example :
    Post pipe_out pipe_stream
      (Accepts sent_secret)
      (Leaves sent_secret)
      (read_packet pipe_out 20 true sent_secret)
read_packet-Post_example = read_packet-Post pipe_out pipe_stream 20 true sent_secret (omega arith)

abbrev leaking : List ℕ
leaking = prefix b'p' 6 ++ (secret ++ b'!' ∷ [])

read_packet-leaks_example :
    (fd' : List ℕ) × (read_packet pipe_out 11 false leaking ≡ return_zero (some secret) fd')
read_packet-leaks_example =
    read_packet-leaks pipe_out pipe_stream 11 false b'p' b'!' secret [] leaking refl (omega arith)
      (omega arith) (omega arith) (omega arith)

-- 4294967301, which would wrap around to 5
abbrev ten_digits : List ℕ
ten_digits = b'4' ∷ b'2' ∷ b'9' ∷ b'4' ∷ b'9' ∷ b'6' ∷ b'7' ∷ b'3' ∷ b'0' ∷ b'1' ∷ []

read_packet-undefined_example :
    read_packet pipe_out 11 false (b'p' ∷ b' ' ∷ ten_digits ++ 0x0A ∷ []) ≡ undefined
unfolding value_from
read_packet-undefined_example =
    read_packet-undefined pipe_out pipe_stream 11 false b'p' ten_digits (0x0A ∷ [])
      (b'p' ∷ b' ' ∷ ten_digits ++ 0x0A ∷ []) refl (omega arith) (omega arith) (omega arith)
      (omega arith)

write_packet-sent_example : write_packet pipe_in b'i' [] secret ≡ secret ++ packet b'i' []
write_packet-sent_example = write_packet-sent pipe_in pipe_sink b'i' [] secret (omega arith)
