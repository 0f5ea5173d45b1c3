-- ===== src/AuthChild.antt =====
-- auth_child.c: the authentication child of the main process.
pub mod Closed
pub mod Exits
pub mod Safety
pub mod Total
use xsecurelock.Prelude.{
  ℕ, Bool, true, false, not, ◌&&◌, ◌||◌, List, [], ◌∷◌, Option, none, some, ltb, leb, ◌==◌,
  if◌then◌else◌,
}
use xsecurelock.Prelude.Int.{pos, is_zero}
use xsecurelock.Settings.{get_int_setting}
use xsecurelock.Sys.Calls.{ForkAnswer, fork_failed, child_pid, auth_child, closed}
use xsecurelock.Sys.{Env, M, pure, ◌>>=◌, ◌>>◌, call, modify, gets, pipe, fork, write}
use xsecurelock.Process.{Waited, alive, died, wait_pgrp, kill_pgrp}

-- ContainsNonControl. A `char` from 128 on, which may be negative, counts as one that is no control
-- character, as it does in C either way.
pub contains_non_control : List ℕ → Bool
contains_non_control [] = false
contains_non_control (c ∷ buf) =
    (leb 128 c || (ltb 31 c && not (c == 127))) || contains_non_control buf

module _ (e : Env) where
  -- KillAuthChildSigHandler
  pub kill_auth_child_sig_handler : ℕ → M (Unit {0})
  kill_auth_child_sig_handler signo = do
    pid ← gets (λ w. w.auth_child_pid)
    if not (pid == 0) then (kill_pgrp e pid signo >> pure tt) else pure tt

  -- DiscardFirstKeypress
  pub discard_first_keypress : Bool
  discard_first_keypress =
      let want = get_int_setting e.getenv "XSECURELOCK_WANT_FIRST_KEYPRESS" (pos 0) in
      let def = if is_zero want then pos 1 else pos 0 in
      not (is_zero (get_int_setting e.getenv "XSECURELOCK_DISCARD_FIRST_KEYPRESS" def))

  -- WantAuthChild
  pub want_auth_child : Bool → M Bool
  want_auth_child force_auth =
      if force_auth then pure true else gets (λ w. not (w.auth_child_pid == 0))

  -- Behind WaitPgrp: clean up after a child that has ended.
  reaped : Waited → M Bool
  reaped alive = pure false
  reaped (died status) = do
    modify (λ w. record w { auth_child_pid = 0 })
    fd ← gets (λ w. w.auth_child_fd)
    call (closed fd)
    pure (is_zero status)

  -- The first part of WatchAuthChild: has a running child returned, and with success?
  reap_auth_child : M Bool
  unfolding reaped
  reap_auth_child = do
    pid ← gets (λ w. w.auth_child_pid)
    if not (pid == 0) then (wait_pgrp e pid false false >>= reaped) else pure false

  -- The keys for a child that has just been started.
  first_keys : Option (List ℕ) → Option (List ℕ)
  unfolding discard_first_keypress contains_non_control
  first_keys none = none
  first_keys (some stdinbuf) =
      if discard_first_keypress || not (contains_non_control stdinbuf) then none else some stdinbuf

  -- Behind fork, in the parent.
  started : ℕ × ℕ → Option (List ℕ) → ForkAnswer → M (Option (List ℕ))
  unfolding first_keys
  started pc stdinbuf fork_failed = pure stdinbuf
  started pc stdinbuf (child_pid pid) = do
    call (closed pc.0)
    modify (λ w. record w { auth_child_fd = pc.1; auth_child_pid = pid })
    pure (first_keys stdinbuf)

  -- Behind pipe.
  piped_child : ℕ → List ℕ → Option (List ℕ) → Option (ℕ × ℕ) → M (Option (List ℕ))
  unfolding started
  piped_child window executable stdinbuf none = pure stdinbuf
  piped_child window executable stdinbuf (some pc) =
      fork e (auth_child window executable pc.0) >>= started pc stdinbuf

  -- The second part: start the child. The result is what is left of `stdinbuf`.
  spawn_auth_child : ℕ → List ℕ → Option (List ℕ) → M (Option (List ℕ))
  unfolding piped_child
  spawn_auth_child window executable stdinbuf = pipe e >>= piped_child window executable stdinbuf

  -- The last part: send the keys.
  pub send_keys : Option (List ℕ) → M (Unit {0})
  send_keys none = pure tt
  send_keys (some []) = pure tt
  send_keys (some (c ∷ keys)) = do
    pid ← gets (λ w. w.auth_child_pid)
    fd ← gets (λ w. w.auth_child_fd)
    if not (pid == 0) then (write e fd (c ∷ keys) >> pure tt) else pure tt

  -- Behind the first part.
  watch_rest : ℕ → List ℕ → Bool → Option (List ℕ) → Bool → M (Bool × Bool)
  unfolding spawn_auth_child send_keys
  watch_rest window executable force_auth stdinbuf true = pure (true, false)
  watch_rest window executable force_auth stdinbuf false = do
    pid ← gets (λ w. w.auth_child_pid)
    keys ←
        (if force_auth && (pid == 0)
          then spawn_auth_child window executable stdinbuf
          else pure stdinbuf)
    running ← gets (λ w. not (w.auth_child_pid == 0))
    send_keys keys
    pure (false, running)

  -- WatchAuthChild: its result and `*auth_running`.
  pub watch_auth_child : ℕ → List ℕ → Bool → Option (List ℕ) → M (Bool × Bool)
  unfolding reap_auth_child watch_rest
  watch_auth_child window executable force_auth stdinbuf =
      reap_auth_child >>= watch_rest window executable force_auth stdinbuf
