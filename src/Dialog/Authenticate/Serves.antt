-- ===== src/Dialog/Authenticate/Serves.antt =====
-- helpers/auth_x11.c: the loop of Authenticate ends, and answers each prompt with one packet.
use xsecurelock.Prelude.{
  ℕ, zero, suc, ◌<◌, ◌≡◌, refl, sym, ◌∙◌, ap, Bool, true, false, List, [], ◌∷◌, ◌++◌, append-nil,
  append_assoc, Option, none, some, ◌==◌, if◌then◌else◌, length, length-append, arith,
}
use xsecurelock.Prelude.Int.{ℤ}
use xsecurelock.AuthProto.Fd.{Reader, Writer, IsStream, IsSink}
use xsecurelock.AuthProto.Read.{Result, ok, return_zero, read_packet}
use xsecurelock.AuthProto.Read
use xsecurelock.AuthProto.Write.{write_packet, packet}
use xsecurelock.AuthProto.Write.Sink.{write_packet-sent}
use xsecurelock.AuthProto.Sound.{Accepts, Leaves, read_packet-Post}
use xsecurelock.AuthProto.Sound.Parts.{Post}
use xsecurelock.Dialog.{Round, again, finished, prompt}
use xsecurelock.Dialog.Bounds.{FitsBuffers, prompt-FitsBuffers}
use xsecurelock.Dialog.Authenticate.{
  Sound, sound_info, sound_error, Event, rendered, played, waited_for_keypress, prompted,
  processing, unknown_type, Talk, Served, done, prompting, undefined, out_of_fuel, User, show,
  answer, on_packet, on_read, serve,
}

-- The packets that answer what has happened, the first one first.
abbrev pub reply : Event → List ℕ
reply (prompted message none) = packet b'x' []
reply (prompted message (some response)) = packet b'p' response
reply _ = []

abbrev pub replies : List Event → List ℕ
replies [] = []
replies (ev ∷ evs) = replies evs ++ reply ev

-- Prompt comes to an end, whatever has happened before it.
abbrev pub EndsPrompts : User → (List ℕ → ℤ) → ℕ → Type 0
EndsPrompts user mblen prompt_timeout =
    (log : List Event)
    → (response : Option (List ℕ)) × (prompt mblen prompt_timeout (user.now log) (user.inputs log)
        ≡ finished response)

module _ {r : Reader} {w : Writer} (sink : IsSink w) where
  -- The loop has come to `done`, behind events to which the responses are just those sent, or the
  -- length of a packet has overflowed.
  abbrev pub Serves : Talk r w → Served r w → Type 0
  Serves t (done t') =
      (new : List Event) × (t'.log ≡ new ++ t.log)
      × (sink.sent t'.responses ≡ sink.sent t.responses ++ replies new)
  Serves t prompting = ⊥
  Serves t undefined = Unit {0}
  Serves t out_of_fuel = ⊥

  Serves-after :
      (evs : List Event) (t u : Talk r w) (s : Served r w)
      → u.log ≡ evs ++ t.log
      → sink.sent u.responses ≡ sink.sent t.responses ++ replies evs
      → Serves u s
      → Serves t s
  Serves-after evs t u (done t') p q (new, a, b) =
      (new ++ evs, a ∙ rw (p, append_assoc), b ∙ rw (q, replies-append new evs, append_assoc))
    where
      replies-append : (new evs : List Event) → replies (new ++ evs) ≡ replies evs ++ replies new
      replies-append [] evs = sym (append-nil (replies evs))
      replies-append (ev ∷ new) evs = rw (replies-append new evs, append_assoc)
  Serves-after evs t u prompting p q s = s
  Serves-after evs t u undefined p q s = tt
  Serves-after evs t u out_of_fuel p q s = s

  module _ (user : User) (mblen : List ℕ → ℤ) (prompt_timeout : ℕ)
      (ends : EndsPrompts user mblen prompt_timeout) where
    answer-Serves :
        (next : Talk r w → Served r w) (message : List ℕ) (t : Talk r w) (round : Round)
        (response : Option (List ℕ))
        → round ≡ finished response
        → FitsBuffers mblen round
        → ((u : Talk r w) → u.requests ≡ t.requests → Serves u (next u))
        → Serves t (answer r w user mblen prompt_timeout next message t round)
    unfolding answer
    answer-Serves next message t (again st) response p h k = absurd (cc (p))
    answer-Serves next message t (finished none) response p h k =
        let u = record t {
          log = prompted message none ∷ t.log;
          responses = write_packet w b'x' [] t.responses;
        } in
        Serves-after (prompted message none ∷ []) t u (next u) refl
          (write_packet-sent w sink b'x' [] t.responses (omega arith)) (k u refl)
    answer-Serves next message t (finished (some text)) response p h k =
        let u = record t {
          log = processing ∷ prompted message (some text) ∷ t.log;
          responses = write_packet w b'p' text t.responses;
        } in
        Serves-after (processing ∷ prompted message (some text) ∷ []) t u (next u) refl
          (write_packet-sent w sink b'p' text t.responses (omega arith)
            ∙ ap (◌++◌ (sink.sent t.responses)) (sym (append-nil (packet b'p' text))))
          (k u refl)

    -- What a round makes of a packet.
    on_packet-Serves :
        (next : Talk r w → Served r w) (type : ℕ) (message : List ℕ) (t : Talk r w)
        → ((u : Talk r w) → u.requests ≡ t.requests → Serves u (next u))
        → Serves t (on_packet r w user mblen prompt_timeout next type message t)
    unfolding on_packet show
    on_packet-Serves next type message t k = go (type == b'i') (type == b'e') (type == b'P')
      where
        now : ℕ
        now = user.now t.log

        answered : Served r w
        answered =
            answer r w user mblen prompt_timeout next message t
              (prompt mblen prompt_timeout now (user.inputs t.log))

        shown : Bool → Sound → Talk r w
        shown is_warning sound = record t {
          log = waited_for_keypress ∷ played sound ∷ rendered message is_warning ∷ t.log;
        }

        after_show : (b : Bool) (s : Sound) → Serves t (next (shown b s))
        after_show b s =
            Serves-after (waited_for_keypress ∷ played s ∷ rendered message b ∷ []) t (shown b s)
              (next (shown b s)) refl (sym (append-nil (sink.sent t.responses)))
              (k (shown b s) refl)

        go :
            (i e p : Bool)
            → Serves t (
                if i
                then next (shown false sound_info)
                else if e
                then next (shown true sound_error)
                else if p
                then answered
                else done (record t { log = unknown_type type ∷ t.log }))
        go true e p = after_show false sound_info
        go false true p = after_show true sound_error
        go false false true =
            let (response, q) = ends t.log in
            answer-Serves next message t (prompt mblen prompt_timeout now (user.inputs t.log))
              response q (prompt-FitsBuffers mblen prompt_timeout now (user.inputs t.log)) k
        go false false false =
            (unknown_type type ∷ [], refl, sym (append-nil (sink.sent t.responses)))

    module _ (stream : IsStream r) where
      on_read-Serves :
          (next : Talk r w → Served r w) (t : Talk r w) (res : Result r.Fd (ℕ × List ℕ))
          → Post r stream
              (Accepts (stream.pending t.requests))
              (Leaves (stream.pending t.requests))
              res
          → ((u : Talk r w)
              → length (stream.pending u.requests) < length (stream.pending t.requests)
              → Serves u (next u))
          → Serves t (on_read r w user mblen prompt_timeout next t res)
      unfolding on_read
      on_read-Serves next t (ok (type, message) fd) (ds, all, split, p, q, nz) k =
          on_packet-Serves next type message (record t { requests = fd })
            λ u q. k u (rw q (shorter split))
        where
          shorter :
              stream.pending t.requests
                ≡ type ∷ b' ' ∷ ds ++ 0x0A ∷ (message ++ 0x0A ∷ stream.pending fd)
              → length (stream.pending fd) < length (stream.pending t.requests)
          shorter e = omega (
            arith,
            ap length e,
            length-append ds (0x0A ∷ (message ++ 0x0A ∷ stream.pending fd)),
            length-append message (0x0A ∷ stream.pending fd),
          )
      on_read-Serves next t (return_zero message fd) p k =
          ([], refl, sym (append-nil (sink.sent t.responses)))
      on_read-Serves next t Read.undefined p k = tt
      on_read-Serves next t Read.out_of_fuel p k = p

      -- On any finite stream of requests, with pipes that behave as documented and a user with whom
      -- every Prompt ends, the loop of Authenticate ends, given more rounds and fuel than the stream
      -- has bytes, if the length in a packet does not overflow. What it has sent then are the
      -- packets that answer its prompts, each with the response or as cancelled, in the order of
      -- the prompts, and nothing else.
      pub serve-Serves :
          (n fuel : ℕ) (t : Talk r w)
          → length (stream.pending t.requests) < n
          → length (stream.pending t.requests) < fuel
          → Serves t (serve r w user mblen prompt_timeout n fuel t)
      unfolding serve
      serve-Serves zero fuel t h l = absurd (omega arith)
      serve-Serves (suc n) fuel t h l =
          on_read-Serves (serve r w user mblen prompt_timeout n fuel) t
            (read_packet r fuel true t.requests) (read_packet-Post r stream fuel true t.requests l)
            λ u q. serve-Serves n fuel u (omega arith) (omega arith)
