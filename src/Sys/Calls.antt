-- ===== src/Sys/Calls.antt =====
-- The calls of the main process, each with the answer that it got.
use xsecurelock.Prelude.{ℕ, Bool, List, Option}
use xsecurelock.Prelude.Int.{ℤ}

-- SIGUSR1 and SIGTERM
abbrev pub sigusr1 : ℕ
sigusr1 = 10

abbrev pub sigterm : ℕ
sigterm = 15

pub data Errno : Type 0 where
  echild eintr other_error : Errno

-- What WIFSIGNALED, WTERMSIG, WIFEXITED and WEXITSTATUS say of a status; `stopped` is neither.
pub data Status : Type 0 where
  signaled : ℕ → Status
  exited : ℕ → Status
  stopped : Status

-- waitpid (pid, &status, WNOHANG): -1, 0, or a process.
pub data WaitAnswer : Type 0 where
  wait_failed : Errno → WaitAnswer
  not_yet : WaitAnswer
  reported : ℕ → Status → WaitAnswer

-- kill (-pid, …) and kill (pid, …)
pub data Target : Type 0 where
  group process : ℕ → Target

pub data KillAnswer : Type 0 where
  kill_ok no_such_process kill_failed : KillAnswer

-- The parent's side of fork.
pub data ForkAnswer : Type 0 where
  fork_failed : ForkAnswer
  child_pid : ℕ → ForkAnswer

-- What the code behind `pid == 0` runs, by the process that calls fork.
pub data Child : Type 0 where
  -- the authentication module: its window, its program, and the end of the pipe that becomes stdin
  auth_child : (window : ℕ) (executable : List ℕ) (stdin : ℕ) → Child
  -- the saver: its window, index and program
  saver_child : (window index : ℕ) (executable : List ℕ) → Child
  -- the command to run once the screen is locked
  notify_child : Child
  -- the program behind the dialog: the ends of pipes that become stdin and stdout
  authproto_child : (executable : List ℕ) (stdin stdout : ℕ) → Child

-- The result of write(2): -1, or the number of bytes.
pub data Written : Type 0 where
  not_written : Written
  written : ℕ → Written

pub record Time : Type 0 where
  pub tv_sec : ℕ
  pub tv_usec : ℕ

-- DPMSQueryExtension and DPMSInfo: no such extension, or whether DPMS is on.
pub data DpmsAnswer : Type 0 where
  dpms_missing dpms_off dpms_on : DpmsAnswer

pub data DpmsMode : Type 0 where
  standby suspend off : DpmsMode

-- Requests to the X server without an answer.
pub data Request : Type 0 where
  clear_window unmap_window map_window map_raised raise_window undefine_cursor : ℕ → Request
  move_resize_window : (window x y width height : ℕ) → Request
  create_window : (parent window : ℕ) (x y width height : ℤ) → Request
  destroy_window release_overlay_window : ℕ → Request
  grab_server ungrab_server close_display : Request
  set_input_focus : ℕ → Request
  force_screen_saver : Bool → Request
  dpms_enable dpms_disable flush : Request
  dpms_force_level : DpmsMode → Request

-- XGetClassHint
pub record ClassHint : Type 0 where
  pub res_class : List ℕ
  pub res_name : List ℕ

-- What the X server says of windows while it is grabbed: XQueryTree of the root window, bottom to
-- top, and for a window XGetWindowAttributes, XmuClientWindow and XGetClassHint.
pub record Tree : Type 0 where
  pub children : List ℕ
  pub is_unmapped : ℕ → Bool
  pub client_window : ℕ → ℕ
  pub class_hint : ℕ → Option ClassHint

pub data Call : Type 0 where
  waited : ℕ → WaitAnswer → Call
  suspended : Call
  -- sigprocmask: block SIGUSR1 and SIGTERM, and SIGCHLD if so; restore the old mask
  blocked : Bool → Call
  restored : Call
  killed : Target → ℕ → KillAnswer → Call
  forked : Child → ForkAnswer → Call
  piped : Option (ℕ × ℕ) → Call
  closed : ℕ → Call
  wrote : ℕ → List ℕ → Written → Call
  clock : Time → Call
  asked_dpms : DpmsAnswer → Call
  grabbed_pointer grabbed_keyboard : Bool → Call
  -- the topmost sibling of a window, if XQueryTree gives any
  asked_top : ℕ → Option ℕ → Call
  queried_tree : Call
  asked_focus : ℕ → Call
  ran_command : List ℕ → Call
  x : Request → Call

abbrev pub Trace : Type 0
Trace = List Call
