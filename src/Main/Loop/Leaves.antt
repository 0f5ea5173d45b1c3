-- ===== src/Main/Loop/Leaves.antt =====
-- main.c: the loop of main is left when the authentication child has exited with 0.
use xsecurelock.Prelude.{ℕ, ◌<◌, ◌≡◌, refl, List, Bool, true, none, arith}
use xsecurelock.Sys.{Env, World}
use xsecurelock.Sys.Spec.{Finishes, bind-Finishes}
use xsecurelock.Process.Returns.{Asked, IsReliable}
use xsecurelock.Process.Closed.{IsTotal-IsClosed}
use xsecurelock.Process.Exits.{Exits}
use xsecurelock.Main.Watch.{watch_children}
use xsecurelock.Main.Watch.Exits.{watch_children-true}
use xsecurelock.Main.Loop.Events.{LoopSettings, LoopState, Event}
use xsecurelock.Main.Loop.{requested_saver_state, frame}

-- If there is an authentication child, waitpid reports that it has exited with 0 and otherwise behaves
-- as documented, and a child to which the program has sent SIGTERM since it was started ends within
-- `patience` wakeups, which is less than the fuel, then the round of the loop returns, and it leaves the
-- loop for `done`, whatever the state of the loop, its signals and its events are.
pub frame-none :
    (e : Env) (s : LoopSettings) (patience : ℕ)
    → IsReliable e patience Asked
    → patience < e.fuel
    → (signal_wakeup : Bool) (evs : List Event) (st : LoopState) (w : World)
    → ¬ (w.auth_child_pid ≡ 0)
    → Exits e w.auth_child_pid
    → Finishes (λ r _. r ≡ none) (frame e s signal_wakeup evs st w)
unfolding frame
frame-none e s patience reliable enough signal_wakeup evs st w running exits =
    bind-Finishes (λ r _. r ≡ true) (λ r _. r ≡ none)
      (watch_children e s.watch (requested_saver_state e s st w.blanked) none w) _
      (watch_children-true (IsTotal-IsClosed e patience reliable enough) s.watch
        (requested_saver_state e s st w.blanked) none w (ground arith) exits (omega arith))
      λ ok v p. rw (p, Finishes) refl
