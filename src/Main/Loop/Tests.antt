-- ===== src/Main/Loop/Tests.antt =====
-- main.c: the loop of main with a kernel whose processes end when they are asked to.
use xsecurelock.Prelude.{◌≡◌, refl, [], ◌∷◌, true, none, arith}
use xsecurelock.Sys.Spec.{Finishes}
use xsecurelock.Process.Returns.{Returns}
use xsecurelock.Main.Watch.{normal}
use xsecurelock.Main.Tests.{env, env-IsReliable, loop_settings, rounds, no_child, with_child}
use xsecurelock.Main.Loop.Events.{mouse}
use xsecurelock.Main.Loop.{frame, run, first_state}
use xsecurelock.Main.Loop.Total.{run-Returns}
use xsecurelock.Main.Loop.Leaves.{frame-none}

run-Returns_example : Returns (run env loop_settings normal rounds no_child)
run-Returns_example =
    run-Returns env loop_settings 0 env-IsReliable (omega arith) normal rounds no_child

frame-none_example :
    Finishes
      (λ r _. r ≡ none)
      (frame env loop_settings true (mouse ∷ []) (first_state env loop_settings normal) with_child)
frame-none_example =
    frame-none env loop_settings 0 env-IsReliable (omega arith) true (mouse ∷ [])
      (first_state env loop_settings normal) with_child (λ z. cc (z)) (λ tr. refl)
