-- ===== src/Lib.antt =====
-- A model of XSecureLock, a screen locker for X11, with the theorems that make it safe.
--
-- The main process (main.c) grabs the pointer and the keyboard, covers the screen and then runs a
-- loop. In it WatchChildren looks after two kinds of children: a saver, which draws, and on demand
-- the authentication module, whose exit with status 0 unlocks the screen. The authentication module
-- (helpers/auth_x11.c) starts helpers/authproto_pam.c and talks to it in packets
-- (helpers/authproto.c). A saver may be helpers/saver_multiplex.c, which runs a saver on the
-- monitor that helpers/monitors.c chooses.
--
-- Where what is:
--   * Prelude: names of the libraries, Boolean tests, lists by native numbers, signed integers.
--   * AuthProto: helpers/authproto.c, ReadPacket and WritePacket. Descriptors are records of
--     operations (Fd), with laws for a stream and for a sink. Reading takes fuel, which the theorems
--     bound by the length of what is there. Undefined behaviour of C is a result.
--   * Settings: env_settings.c. getenv, access, and the text of a variable are parameters.
--   * EnvInfo: env_info.c. The host and user database are parameters.
--   * Sys: the global variables of the main process and the calls that it makes, as a trace, the last
--     call first. The kernel and the X server are a parameter, Env, whose answers may depend on
--     everything that has happened; so a theorem for all Env holds for any behaviour of theirs. Code
--     is a function M A, from a World to a result and a World; `none` says that the loop of WaitProc
--     has used up its fuel, the rounds that it may make; nothing else in the main process needs fuel.
--     Process.Returns shows when there is enough.
--     Sys.Spec has postconditions, Sys.Keeps what leaves the authentication child alone. The modules
--     named Closed go once through the code, for every property in the sense of Process.Closed.
--   * Process: wait_pgrp.c, KillPgrp, WaitProc and WaitPgrp.
--   * AuthChild, SaverChild: auth_child.c and saver_child.c, WatchAuthChild and WatchSaverChild.
--   * UnmapAll: unmap_all.c.
--   * Monitors: helpers/monitors.c. What XRandR and the X server answer is a parameter.
--   * SaverMultiplex: helpers/saver_multiplex.c, its saver and the rounds of its loop.
--   * Main: main.c. Start has the arguments, the checks and the settings before anything is locked,
--     Blank the functions from ResetBlankScreenTimer to UnblankScreen, Watch WatchChildren and WakeUp,
--     Grabs AcquireGrabs and MaybeRaiseWindow, Key the decoding of a key press, Loop.Events the
--     events, Loop the loop, and Done what comes behind `done`.
--   * MlockPage: mlock_page.h. Export: xscreensaver_api.c.
--   * Pam: helpers/authproto_pam.c. A call of the PAM library is a Script, any sequence of
--     conversations and then a status.
--   * Dialog: helpers/auth_x11.c. Dialog itself has Prompt, the line editor (mblen is a parameter);
--     Windows the windows and where they are; Texts the line with the user and the host; Indicators the
--     line with the keyboard layout and the modifiers; Authenticate the loop that serves the packets of
--     the other side, which takes fuel: one round for a packet.
--
-- Taken as given: all optional extensions are compiled in; ALWAYS_REINSTATE_GRABS, AUTO_RAISE and
-- SHOW_CURSOR_DURING_AUTH are undefined, as main.c has them; malloc succeeds; an int has 32 and a long
-- 64 bits, and coordinates do not overflow an int. Log lines, sleeping and the wiping of memory are
-- left out. What a new child does before its program runs is not modelled; the program is named by a
-- Child. Signal handlers run between the steps of the loop only.
-- Not modelled: of helpers/auth_x11.c the drawing, fonts, colours, sounds, SwitchKeyboardLayout and the
-- set-up in its main; ComputePpi of helpers/monitors.c, which is in floating point; of wait_pgrp.c
-- ForkWithoutSigHandlers, StartPgrp and ExecvHelper; of main.c the creation of windows and cursors;
-- and pure output.
mod Prelude
pub mod AuthProto
pub mod Settings
pub mod Sys
pub mod Process
pub mod AuthChild
pub mod SaverChild
pub mod UnmapAll
pub mod Main
pub mod Pam
pub mod Dialog
pub mod Monitors
pub mod SaverMultiplex
pub mod Export
pub mod EnvInfo
pub mod MlockPage
