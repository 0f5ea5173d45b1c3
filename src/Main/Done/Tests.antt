-- ===== src/Main/Done/Tests.antt =====
-- main.c: the end of main with a blanked screen and a window that had the focus.
use xsecurelock.Sys.Spec.{Finishes}
use xsecurelock.Main.Tests.{env, loop_settings, blanked_world, blanked_world-IsConsistent}
use xsecurelock.Main.Blank.Restore.{IsRestored}
use xsecurelock.Main.Done.{clean_up}
use xsecurelock.Main.Done.Restore.{Ending, clean_up-restores}

clean_up-restores_example :
    Finishes
      (λ _ v. IsRestored v × Ending env loop_settings v.trace)
      (clean_up env loop_settings 30 blanked_world)
clean_up-restores_example =
    clean_up-restores env loop_settings 30 blanked_world blanked_world-IsConsistent
