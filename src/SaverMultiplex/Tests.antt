-- ===== src/SaverMultiplex/Tests.antt =====
-- A change of the monitors, with savers that have ended as soon as they are waited for.
use xsecurelock.Prelude.{◌≡◌, refl, [], ◌∷◌, none, some, inl, true, arith}
use xsecurelock.Prelude.Int.{pos}
use xsecurelock.Sys.Spec.{Ends}
use xsecurelock.Process.Tests.{success, success-IsReliable, world}
use xsecurelock.SaverMultiplex.{Server, Screen, rounds, begin, exited_with}
use xsecurelock.SaverMultiplex.Runs.{RunsOn, rounds-RunsOn}

abbrev server : Server
server = record {
  new_window = λ tr. 40;
  area =
      λ tr. record { x = pos 0; y = pos 0; width = pos 800; height = pos 600; translated = none };
  monitors = λ tr. none;
  event_base = 90;
}

abbrev screen : Screen
screen = record {
  monitor = record {
    x = pos 0;
    y = pos 0;
    width = pos 800;
    height = pos 600;
    mwidth = pos 300;
    mheight = pos 200;
    is_primary = true;
  };
  window = 39;
}

-- A saver_multiplex that a saver_multiplex has started does nothing.
nested :
    begin success server 12 (b's' ∷ []) (pos 1) true screen.monitor world
    ≡ some (exited_with 1, world)
unfolding begin
nested = refl

rounds-RunsOn_example :
    Ends
      (RunsOn success server 12 (b's' ∷ []) 0 success-IsReliable (omega arith))
      (rounds success server 12 (b's' ∷ []) screen ((91 ∷ []) ∷ [] ∷ []) world)
rounds-RunsOn_example =
    rounds-RunsOn success server 12 (b's' ∷ []) 0 success-IsReliable (omega arith)
      ((91 ∷ []) ∷ [] ∷ []) screen world (inl refl)
