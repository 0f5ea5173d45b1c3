-- ===== src/AuthChild/Closed.antt =====
-- auth_child.c: sending keys, and the answer of WantAuthChild, have every property of Process.Closed.
use xsecurelock.Prelude.{ℕ, refl, List, [], ◌∷◌, Bool, true, false, not, Option, none, some, ◌==◌}
use xsecurelock.Sys.{Env, M, write}
use xsecurelock.Sys.Keeps.{Adds→Keeps}
use xsecurelock.Process.Closed.{
  IsClosed, Has, Closed-pure, Closed-gets, Closed-bind, Closed-then, Closed-if,
}
use xsecurelock.AuthChild.{want_auth_child, send_keys}

module _ {e : Env} {P : (A : Type 0) → M A → Type 0} (c : IsClosed e P) where
  write-Closed : (fd : ℕ) (bytes : List ℕ) → Has c (write e fd bytes)
  write-Closed fd bytes = c.calls (write e fd bytes) λ w. Adds→Keeps (_ ∷ []) w _ refl

  pub send_keys-Closed : (keys : Option (List ℕ)) → Has c (send_keys e keys)
  unfolding send_keys
  send_keys-Closed none = Closed-pure c tt
  send_keys-Closed (some []) = Closed-pure c tt
  send_keys-Closed (some (key ∷ keys)) =
      Closed-bind c (Closed-gets c (λ w. w.auth_child_pid)) λ pid.
        Closed-bind c (Closed-gets c (λ w. w.auth_child_fd)) λ fd.
          Closed-if c (not (pid == 0))
            (Closed-then c (write-Closed fd (key ∷ keys)) (Closed-pure c tt)) (Closed-pure c tt)

  pub want_auth_child-Closed : (force_auth : Bool) → Has c (want_auth_child e force_auth)
  unfolding want_auth_child
  want_auth_child-Closed true = Closed-pure c true
  want_auth_child-Closed false = Closed-gets c (λ w. not (w.auth_child_pid == 0))
