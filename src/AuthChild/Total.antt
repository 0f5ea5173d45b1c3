-- ===== src/AuthChild/Total.antt =====
-- auth_child.c: WatchAuthChild returns.
use xsecurelock.Prelude.{
  ℕ, refl, List, [], ◌∷◌, Bool, true, false, not, ◌&&◌, Option, none, some, ◌==◌,
}
use xsecurelock.Prelude.Int.{is_zero}
use xsecurelock.Sys.Calls.{ForkAnswer, fork_failed, child_pid, auth_child, closed}
use xsecurelock.Sys.{Env, pipe}
use xsecurelock.Sys.Keeps.{Adds→Keeps}
use xsecurelock.Process.Closed.{
  IsClosed, IsTotal, modify-IsTotal, Closed-pure, Closed-gets, Closed-bind, Closed-then, Closed-if,
  Closed-call, Closed-fork,
}
use xsecurelock.Process.{Waited, alive, died}
use xsecurelock.AuthChild.Closed.{send_keys-Closed}
use xsecurelock.AuthChild.{
  reaped, reap_auth_child, started, piped_child, spawn_auth_child, watch_rest, watch_auth_child,
  first_keys,
}

module _ {e : Env} (c : IsClosed e (λ A m. IsTotal m)) where
  reaped-IsTotal : (r : Waited) → IsTotal (reaped e r)
  unfolding reaped
  reaped-IsTotal alive = Closed-pure c false
  reaped-IsTotal (died status) =
      Closed-then c (modify-IsTotal (λ w. record w { auth_child_pid = 0 })) (
        Closed-bind c (Closed-gets c (λ w. w.auth_child_fd))
          λ fd. Closed-then c (Closed-call c (closed fd)) (Closed-pure c (is_zero status)))

  reap_auth_child-IsTotal : IsTotal (reap_auth_child e)
  unfolding reap_auth_child
  reap_auth_child-IsTotal = Closed-bind c (Closed-gets c (λ w. w.auth_child_pid)) λ pid.
      Closed-if c (not (pid == 0)) (Closed-bind c (c.waits_pgrp pid) reaped-IsTotal)
        (Closed-pure c false)

  started-IsTotal :
      (pc : ℕ × ℕ) (stdinbuf : Option (List ℕ)) (a : ForkAnswer) → IsTotal (started e pc stdinbuf a)
  unfolding started
  started-IsTotal pc stdinbuf fork_failed = Closed-pure c stdinbuf
  started-IsTotal pc stdinbuf (child_pid pid) = Closed-then c (Closed-call c (closed pc.0)) (
      Closed-then c (modify-IsTotal (λ w. record w { auth_child_fd = pc.1; auth_child_pid = pid }))
        (Closed-pure c (first_keys e stdinbuf)))

  module _ (window : ℕ) (executable : List ℕ) (stdinbuf : Option (List ℕ)) where
    piped_child-IsTotal :
        (pc? : Option (ℕ × ℕ)) → IsTotal (piped_child e window executable stdinbuf pc?)
    unfolding piped_child
    piped_child-IsTotal none = Closed-pure c stdinbuf
    piped_child-IsTotal (some pc) =
        Closed-bind c (Closed-fork c (auth_child window executable pc.0))
          (started-IsTotal pc stdinbuf)

    spawn_auth_child-IsTotal : IsTotal (spawn_auth_child e window executable stdinbuf)
    unfolding spawn_auth_child
    spawn_auth_child-IsTotal =
        Closed-bind c (c.calls (pipe e) λ w. Adds→Keeps (_ ∷ []) w _ refl) piped_child-IsTotal

    watch_rest-IsTotal :
        (force_auth ok : Bool) → IsTotal (watch_rest e window executable force_auth stdinbuf ok)
    unfolding watch_rest
    watch_rest-IsTotal force_auth true = Closed-pure c (true, false)
    watch_rest-IsTotal force_auth false =
        Closed-bind c (Closed-gets c (λ w. w.auth_child_pid)) λ pid.
          Closed-bind c
            (Closed-if c (force_auth && (pid == 0)) spawn_auth_child-IsTotal
              (Closed-pure c stdinbuf))
            λ keys.
              Closed-bind c (Closed-gets c (λ w. not (w.auth_child_pid == 0)))
                λ running. Closed-then c (send_keys-Closed c keys) (Closed-pure c (false, running))

    pub watch_auth_child-IsTotal :
        (force_auth : Bool) → IsTotal (watch_auth_child e window executable force_auth stdinbuf)
    unfolding watch_auth_child
    watch_auth_child-IsTotal force_auth =
        Closed-bind c reap_auth_child-IsTotal (watch_rest-IsTotal force_auth)
