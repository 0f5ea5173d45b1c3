-- ===== src/Sys/Keeps.antt =====
-- Code of the main process that leaves the authentication child alone.
use xsecurelock.Prelude.{◌≡◌, refl, ◌∙◌, [], ◌∷◌}
use xsecurelock.Sys.Calls.{Call, Trace}
use xsecurelock.Sys.{World, call}
use xsecurelock.Sys.Spec.{Adds, Grows, Grows-refl, Grows-trans, IsPreorder, Stays}

-- Calls have been made, and the authentication child is the one it was.
pub record Keeps (w v : World) : Type 0 where
  pub grows : Grows w v
  pub pid : v.auth_child_pid ≡ w.auth_child_pid
  pub fd : v.auth_child_fd ≡ w.auth_child_fd

pub Keeps-IsPreorder : IsPreorder Keeps
Keeps-IsPreorder = record {
  reflexive = λ w. record { grows = Grows-refl w; pid = refl; fd = refl };
  transitive = λ {u} {v} {w} p q. record {
    grows = Grows-trans u v w p.grows q.grows;
    pid = q.pid ∙ p.pid;
    fd = q.fd ∙ p.fd;
  };
}

pub Adds→Keeps : (new : Trace) (w v : World) → Adds new w v → Keeps w v
Adds→Keeps new w v p = rw p (record { grows = (new, refl); pid = refl; fd = refl })

pub call-Keeps : (c : Call) → Stays Keeps (call c)
call-Keeps c = record { stays = λ w. Adds→Keeps (c ∷ []) w _ refl }
