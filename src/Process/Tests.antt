-- ===== src/Process/Tests.antt =====
-- wait_pgrp.c with a kernel whose processes have all ended.
use xsecurelock.Prelude.{ℕ, ◌≡◌, inr, [], true, false, none, some, ==_refl}
use xsecurelock.Prelude.Int.{pos, negsuc}
use xsecurelock.Sys.Calls.{
  Trace, reported, exited, signaled, child_pid, kill_ok, fork_failed, not_written, dpms_missing,
}
use xsecurelock.Sys.{Env, World}
use xsecurelock.Process.{died, step, final_status}
use xsecurelock.Process.Returns.{IsReliable}

abbrev pub ended : Env
ended = record {
  fuel = 1;
  getenv = λ name. none;
  waitpid = λ tr pid. reported pid (exited 1);
  kill = λ tr target signo. kill_ok;
  fork = λ tr child. fork_failed;
  pipe = λ tr. none;
  write = λ tr fd bytes. not_written;
  gettimeofday = λ tr. record { tv_sec = 0; tv_usec = 0 };
  dpms = λ tr. dpms_missing;
  grab_pointer = λ tr. false;
  grab_keyboard = λ tr. false;
  top_sibling = λ tr w. none;
  tree = λ tr. record {
    children = [];
    is_unmapped = λ w. true;
    client_window = λ w. w;
    class_hint = λ w. none;
  };
  input_focus = λ tr. 0;
}

abbrev pub world : World
world = record {
  trace = [];
  auth_child_pid = 7;
  auth_child_fd = 4;
  saver_child_pid = λ index. 0;
  time_to_blank = record { tv_sec = 0; tv_usec = 0 };
  blanked = false;
  must_disable_dpms = false;
}

-- A kernel that can start processes, which exit with 0.
abbrev pub success : Env
success = record ended {
  fuel = 20;
  pipe = λ tr. some (3, 4);
  fork = λ tr child. child_pid 9;
  waitpid = λ tr pid. reported pid (exited 0);
}

pub success-IsReliable : {Expected : ℕ → Trace → Type 0} → IsReliable success 0 Expected
unfolding step final_status
success-IsReliable = record {
  answers = λ tr pid. inr (died (pos 0), rw (==_refl pid));
  wakes = λ tr pid ex h p. cc (p);
}

pub step-exited : (pid : ℕ) → step pid (reported pid (exited 0)) ≡ some (died (pos 0))
unfolding step final_status
step-exited pid = rw (==_refl pid)

pub step-signaled : (pid : ℕ) → step pid (reported pid (signaled 15)) ≡ some (died (negsuc 14))
unfolding step final_status
step-signaled pid = rw (==_refl pid)
