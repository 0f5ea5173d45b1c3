-- ===== src/Dialog/Authenticate.antt =====
-- helpers/auth_x11.c: Authenticate, in the process that calls fork. It reads packets of authproto by
-- ReadPacket, lets the user answer by Prompt, and sends the responses by WritePacket. What the pipes
-- and the kernel do, and what the user types, are parameters. What is shown is in a log.
pub mod Serves
pub mod Proves
pub mod Returns
mod Tests
use xsecurelock.Prelude.{
  ℕ, zero, suc, Bool, true, false, List, [], ◌∷◌, Option, none, some, ◌==◌, if◌then◌else◌,
}
use xsecurelock.Prelude.Int.{ℤ, is_zero}
use xsecurelock.AuthProto.Fd.{Reader, Writer}
use xsecurelock.AuthProto.Read.{Result, ok, return_zero, read_packet}
use xsecurelock.AuthProto.Read
use xsecurelock.AuthProto.Write.{write_packet}
use xsecurelock.Sys.Calls.{ForkAnswer, fork_failed, child_pid, authproto_child, closed}
use xsecurelock.Sys.{Env, M, pure, ◌>>=◌, ◌>>◌, call, fork, pipe}
use xsecurelock.Process.{Waited, alive, died, wait_proc}
use xsecurelock.Dialog.{Input, Round, again, finished, prompt}

pub data Sound : Type 0 where
  sound_info sound_error sound_success : Sound

-- What the user sees and hears. WaitForKeypress returns after a second at most.
pub data Event : Type 0 where
  rendered : (message : List ℕ) (is_warning : Bool) → Event
  played : Sound → Event
  waited_for_keypress : Event
  -- Prompt, with the response if it has one
  prompted : (message : List ℕ) (response : Option (List ℕ)) → Event
  processing : Event
  unknown_type : ℕ → Event

-- The log, the last event first, and the ends of the pipes that the dialog has.
pub record Talk (r : Reader) (w : Writer) : Type 0 where
  pub log : List Event
  pub requests : r.Fd
  pub responses : w.Fd

-- How the loop ends: at `done`; or not, since Prompt still waits for input, the length of a packet
-- has overflowed, or the fuel of the model has run out.
pub data Served (r : Reader) (w : Writer) : Type 0 where
  done : Talk r w → Served r w
  prompting : Served r w
  undefined : Served r w
  out_of_fuel : Served r w

-- How Authenticate ends, if not by want of fuel.
pub data Outcome (r : Reader) (w : Writer) : Type 0 where
  returned : ℕ → Talk r w → Outcome r w
  stays_prompting : Outcome r w
  is_undefined : Outcome r w
  aborted : Outcome r w

-- What the user has: the clock as Prompt begins, and the input from then on.
pub record User : Type 0 where
  pub now : List Event → ℕ
  pub inputs : List Event → List Input

module _ (r : Reader) (w : Writer) (user : User) (mblen : List ℕ → ℤ) (prompt_timeout : ℕ) where
  abbrev note : Event → Talk r w → Talk r w
  note ev t = record t { log = ev ∷ t.log }

  -- RenderContext, PlaySound and WaitForKeypress for a message.
  unfoldable pub show : Bool → Sound → List ℕ → Talk r w → Talk r w
  show is_warning sound message t =
      note waited_for_keypress (note (played sound) (note (rendered message is_warning) t))

  -- Behind Prompt.
  unfoldable pub answer : (Talk r w → Served r w) → List ℕ → Talk r w → Round → Served r w
  answer next message t (again st) = prompting
  answer next message t (finished (some response)) = next (record t {
    log = processing ∷ prompted message (some response) ∷ t.log;
    responses = write_packet w b'p' response t.responses;
  })
  answer next message t (finished none) = next (record t {
    log = prompted message none ∷ t.log;
    responses = write_packet w b'x' [] t.responses;
  })

  -- The switch over the type, which is not 0; `next` is another round.
  unfoldable pub on_packet : (Talk r w → Served r w) → ℕ → List ℕ → Talk r w → Served r w
  unfolding show answer
  on_packet next type message t =
      if type == b'i'
      then next (show false sound_info message t)
      else if type == b'e'
      then next (show true sound_error message t)
      else if type == b'P'
      then answer next message t (prompt mblen prompt_timeout (user.now t.log) (user.inputs t.log))
      else done (note (unknown_type type) t)

  -- Behind ReadPacket.
  unfoldable pub on_read :
      (Talk r w → Served r w) → Talk r w → Result r.Fd (ℕ × List ℕ) → Served r w
  unfolding on_packet
  on_read next t (ok packet fd) = on_packet next packet.0 packet.1 (record t { requests = fd })
  on_read next t (return_zero message fd) = done (record t { requests = fd })
  on_read next t Read.undefined = undefined
  on_read next t Read.out_of_fuel = out_of_fuel

  -- The loop, with the rounds that it may take and the fuel of ReadPacket.
  unfoldable pub serve : ℕ → ℕ → Talk r w → Served r w
  unfolding on_read
  serve zero fuel t = out_of_fuel
  serve (suc n) fuel t = on_read (serve n fuel) t (read_packet r fuel true t.requests)

  module _ (e : Env) (authproto_executable : List ℕ) where
    -- Behind WaitProc: `return status != 0`.
    unfoldable pub on_status : Talk r w → Waited → M (Outcome r w)
    on_status t alive = pure aborted
    on_status t (died status) =
        if is_zero status
        then pure (returned 0 (note (played sound_success) t))
        else pure (returned 1 t)

    -- From `done` on, for the ends of the pipes and the process.
    unfoldable pub conclude : ℕ → ℕ → ℕ → Served r w → M (Outcome r w)
    unfolding on_status
    conclude requestfd responsefd pid (done t) =
        call (closed requestfd)
        >> (call (closed responsefd) >> (wait_proc e pid true >>= on_status t))
    conclude requestfd responsefd pid prompting = pure stays_prompting
    conclude requestfd responsefd pid undefined = pure is_undefined
    conclude requestfd responsefd pid out_of_fuel = λ world. none

    -- Behind fork, for both pipes.
    unfoldable pub on_fork : ℕ × ℕ → ℕ × ℕ → Talk r w → ForkAnswer → M (Outcome r w)
    unfolding conclude serve
    on_fork requestfd responsefd t fork_failed = pure (returned 1 t)
    on_fork requestfd responsefd t (child_pid pid) =
        call (closed requestfd.1)
        >> (call (closed responsefd.0)
            >> conclude requestfd.0 responsefd.1 pid (serve e.fuel e.fuel t))

    unfoldable pub on_second_pipe : ℕ × ℕ → Talk r w → Option (ℕ × ℕ) → M (Outcome r w)
    unfolding on_fork
    on_second_pipe requestfd t none = pure (returned 1 t)
    on_second_pipe requestfd t (some responsefd) =
        fork e (authproto_child authproto_executable responsefd.0 requestfd.1)
        >>= on_fork requestfd responsefd t

    unfoldable pub on_first_pipe : Talk r w → Option (ℕ × ℕ) → M (Outcome r w)
    unfolding on_second_pipe
    on_first_pipe t none = pure (returned 1 t)
    on_first_pipe t (some requestfd) = pipe e >>= on_second_pipe requestfd t

    -- Authenticate. `t` has the ends of the pipes that the dialog is to get.
    unfoldable pub authenticate : Talk r w → M (Outcome r w)
    unfolding on_first_pipe
    authenticate t = pipe e >>= on_first_pipe t
