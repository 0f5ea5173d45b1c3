-- ===== src/Main/Tests.antt =====
-- Runs of the main process against a kernel and an X server that answer in a fixed way: the
-- authentication child is process 7 and has always exited with 0, and all others run until they are
-- asked to end.
use xsecurelock.Prelude.{
  arith, ℕ, ◌≡◌, refl, List, [], ◌∷◌, Bool, true, false, none, some, ◌==◌, if◌then◌else◌, inl, inr,
  Bool-cases, length,
}
use mathlib.Core.List.{reverse}
use xsecurelock.Prelude.Int.{pos, negsuc}
use xsecurelock.Sys.Calls.{
  Trace, x, dpms_enable, Child, child_pid, auth_child, saver_child, notify_child, authproto_child,
  reported, not_yet, exited, signaled, kill_ok, written, dpms_off, forked,
}
use xsecurelock.Sys.{Env, World, pure, ◌>>=◌}
use xsecurelock.Sys.Spec.{Adds, Ends, Finishes}
use xsecurelock.Process.{wait_pgrp}
use xsecurelock.Process.Tests.{step-exited, step-signaled}
use xsecurelock.Process.Ended.{Ended, wait_pgrp-Ended}
use xsecurelock.Process.Returns.{IsReliable, Asked, asked_to_end}
use xsecurelock.Process.{died}
use xsecurelock.AuthChild.{watch_auth_child}
use xsecurelock.AuthChild.Safety.{Proves, watch_auth_child-Proves}
use xsecurelock.UnmapAll.{unmap_all_windows, remap_all_windows}
use xsecurelock.UnmapAll.Restore.{Shows, unmap_all_windows-remap_all_windows}
use xsecurelock.SaverChild.{watch_saver_child}
use xsecurelock.SaverChild.Slots.{Others, watch_saver_child-frees}
use xsecurelock.Main.Blank.{off_state, maybe_blank_screen}
use xsecurelock.Main.Blank.Restore.{IsConsistent, maybe_blank_screen-IsConsistent}
use xsecurelock.Main.Watch.{normal, force_auth, Settings, watch_children}
use xsecurelock.Main.Watch.Safety.{Unlocks, watch_children-Unlocks}
use xsecurelock.Main.Grabs.{acquire_first_grabs}
use xsecurelock.Main.Grabs.Granted.{Grants, acquire_first_grabs-Grants}
use xsecurelock.Main.Key.{KeyPress, backspace, key_press_action}
use xsecurelock.Main.Key.Bounds.{Fits, key_press_action-Fits}
use xsecurelock.Main.Loop.{run}
use xsecurelock.Main.Loop.Events.{LoopSettings, Event, mouse, map_notify}
use xsecurelock.Main.Loop.Events.Unlock.{Unlocked}
use xsecurelock.Main.Loop.Unlock.{run-Unlocked}

abbrev pid_of : Child → ℕ
pid_of (auth_child window executable stdin) = 7
pid_of (saver_child window index executable) = 8
pid_of notify_child = 9
pid_of (authproto_child executable stdin stdout) = 10

abbrev pub env : Env
env = record {
  fuel = 3;
  getenv = λ name. none;
  waitpid = λ tr pid.
      if pid == 7
      then reported pid (exited 0)
      else if asked_to_end pid tr
      then reported pid (signaled 15)
      else not_yet;
  kill = λ tr target signo. kill_ok;
  fork = λ tr child. child_pid (pid_of child);
  pipe = λ tr. some (3, 4);
  write = λ tr fd bytes. written (length bytes);
  gettimeofday = λ tr. record { tv_sec = 100; tv_usec = 0 };
  dpms = λ tr. dpms_off;
  grab_pointer = λ tr. true;
  grab_keyboard = λ tr. true;
  top_sibling = λ tr w. none;
  tree = λ tr. record {
    children = 21 ∷ 22 ∷ [];
    is_unmapped = λ w. w == 22;
    client_window = λ w. w;
    class_hint = λ w. none;
  };
  input_focus = λ tr. 1;
}

pub env-IsReliable : IsReliable env 0 Asked
env-IsReliable = record {
  answers = λ tr pid. elim (Bool-cases (pid == 7)) [
    | inl auth ↦ inr (died (pos 0), rw auth (step-exited pid))
    | inr other ↦ elim (Bool-cases (asked_to_end pid tr)) [
      | inl asked ↦ inr (died (negsuc 14), rw (other, asked) (step-signaled pid))
      | inr running ↦ inl (rw (other, running) refl)
    ]
  ];
  wakes = λ tr pid asked h p. elim (Bool-cases (pid == 7)) [
    | inl auth ↦ cc (rw auth at p)
    | inr other ↦ cc (rw (other, asked) at p)
  ];
}

abbrev auth_program : List ℕ
auth_program = b'a' ∷ b'u' ∷ b't' ∷ b'h' ∷ b'_' ∷ b'x' ∷ []

abbrev settings : Settings
settings = record {
  auth_executable = auth_program;
  saver_executable = b's' ∷ [];
  saver_reset_on_auth_close = true;
  blank = record { blank_timeout = pos 600; blank_dpms_state = off_state };
  auth_win = 13;
  saver_win = 12;
}

abbrev pub loop_settings : LoopSettings
loop_settings = record {
  watch = settings;
  root_win = 10;
  background_win = 11;
  saver_win = 12;
  obscurer_win = 14;
  composite_win = 0;
  my_windows = 14 ∷ 11 ∷ 12 ∷ 13 ∷ [];
  saver_stop_on_blank = true;
  xss_sleep_lock_fd = none;
  has_notify_command = true;
  key_command = λ name. none;
}

abbrev pub no_child : World
no_child = record {
  trace = [];
  auth_child_pid = 0;
  auth_child_fd = 0;
  saver_child_pid = λ index. 0;
  time_to_blank = record { tv_sec = 0; tv_usec = 0 };
  blanked = false;
  must_disable_dpms = false;
}

-- The authentication child has been started.
abbrev pub with_child : World
with_child = record no_child {
  trace = forked (auth_child 13 auth_program 3) (child_pid 7) ∷ [];
  auth_child_pid = 7;
  auth_child_fd = 4;
}

-- A mouse event starts the authentication child, and the next round sees that it has exited.
abbrev pub rounds : List (Bool × List Event)
rounds = (false, map_notify 11 ∷ mouse ∷ []) ∷ (false, []) ∷ []

run-Unlocked_example :
    Ends
      (λ r v. r ≡ none → Unlocked env loop_settings v.trace)
      (run env loop_settings normal rounds no_child)
run-Unlocked_example = run-Unlocked env loop_settings normal rounds no_child refl

watch_children-Unlocks_example :
    Ends
      (Unlocks env settings with_child)
      (watch_children env settings force_auth (some (b'a' ∷ [])) with_child)
watch_children-Unlocks_example =
    watch_children-Unlocks env settings force_auth (some (b'a' ∷ [])) with_child (inr (3, inl refl))

watch_auth_child-Proves_example :
    Ends
      (λ r v. Proves 13 auth_program with_child r.0 v)
      (watch_auth_child env 13 auth_program true none with_child)
watch_auth_child-Proves_example =
    watch_auth_child-Proves 13 auth_program env true none with_child (inr (3, inl refl))

wait_pgrp-Ended_example :
    Ends
      (λ r v. (new : Trace) × Adds new with_child v × Ended 7 false r new)
      (wait_pgrp env 7 false false with_child)
wait_pgrp-Ended_example = wait_pgrp-Ended env 7 false false with_child

unmap_all_windows-remap_all_windows_example :
    Finishes
      (λ s v.
        (us : List ℕ) × Shows us (reverse us) no_child v
        × (s.windows ≡ 21 ∷ 0 ∷ 23 ∷ [])
        × (s.first_unmapped_window ≡ 3))
      ((unmap_all_windows env
            (record { windows = 21 ∷ 0 ∷ 23 ∷ []; first_unmapped_window = 3 })
            (λ w. pure (w == 21))
          >>= λ r. remap_all_windows env r.1)
        no_child)
unmap_all_windows-remap_all_windows_example =
    unmap_all_windows-remap_all_windows env (λ w. pure (w == 21)) (λ w v. ([], refl, refl, refl))
      (21 ∷ 0 ∷ 23 ∷ []) no_child

acquire_first_grabs-Grants_example :
    Ends (λ r v. Grants no_child r.0 v) (acquire_first_grabs env (11 ∷ []) true no_child)
acquire_first_grabs-Grants_example = acquire_first_grabs-Grants env (11 ∷ []) true no_child

abbrev control_backspace : KeyPress
control_backspace = record {
  len = pos 17;
  bytes = 0x08 ∷ [];
  is_text = true;
  keysym = backspace;
  control = true;
  keyname = none;
}

key_press_action-Fits_example : Fits (key_press_action (λ name. none) control_backspace)
key_press_action-Fits_example = key_press_action-Fits (λ name. none) control_backspace

-- A saver runs as process 8.
abbrev with_saver : World
with_saver = record no_child { saver_child_pid = λ index. if index == 0 then 8 else 0 }

watch_saver_child-frees_example :
    Finishes
      (λ _ u. (u.saver_child_pid 0 ≡ 0) × Others 0 with_saver u)
      (watch_saver_child env 12 (pos 0) (b's' ∷ []) false with_saver)
watch_saver_child-frees_example =
    watch_saver_child-frees env 0 env-IsReliable (omega arith) 12 0 (b's' ∷ []) with_saver
      (omega arith)

-- The screen is blanked, and the program has enabled DPMS.
abbrev pub blanked_world : World
blanked_world = record no_child {
  trace = x dpms_enable ∷ [];
  blanked = true;
  must_disable_dpms = true;
}

abbrev pub blanked_world-IsConsistent : IsConsistent blanked_world
blanked_world-IsConsistent = record { flag = refl; while_blanked = λ on. refl }

maybe_blank_screen-IsConsistent_example :
    Finishes (λ _ v. IsConsistent v) (maybe_blank_screen env settings.blank blanked_world)
maybe_blank_screen-IsConsistent_example =
    maybe_blank_screen-IsConsistent env settings.blank blanked_world blanked_world-IsConsistent
