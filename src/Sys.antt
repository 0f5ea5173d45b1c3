-- ===== src/Sys.antt =====
-- What main.c, auth_child.c, saver_child.c and wait_pgrp.c have in common: the global variables of
-- the main process, the calls that it makes of the kernel and of the X server, and a monad for code
-- that makes such calls. The kernel and the X server are a parameter, `Env`: its answers may depend
-- on all calls made so far, so it stands for any behaviour. Log lines are left out everywhere.
pub mod Calls
pub mod Spec
pub mod Keeps
use Prim.Native.String.{String}
use xsecurelock.Prelude.{ℕ, Bool, List, [], ◌∷◌, Option, none, some}
use Calls.{
  Call, Trace, WaitAnswer, KillAnswer, ForkAnswer, Target, Child, Time, waited, killed, forked,
  piped, wrote, clock, Written, asked_dpms, DpmsAnswer, grabbed_pointer, grabbed_keyboard,
  asked_top, queried_tree, asked_focus, Tree,
}

pub record Env : Type 0 where
  -- The rounds that the model of a loop over answers of the kernel may take.
  pub fuel : ℕ
  pub getenv : String → Option (List ℕ)
  pub waitpid : Trace → ℕ → WaitAnswer
  pub kill : Trace → Target → ℕ → KillAnswer
  pub fork : Trace → Child → ForkAnswer
  pub pipe : Trace → Option (ℕ × ℕ)
  pub write : Trace → ℕ → List ℕ → Written
  pub gettimeofday : Trace → Time
  pub dpms : Trace → DpmsAnswer
  pub grab_pointer : Trace → Bool
  pub grab_keyboard : Trace → Bool
  pub top_sibling : Trace → ℕ → Option ℕ
  pub tree : Trace → Tree
  pub input_focus : Trace → ℕ

-- The global variables of the main process, and the calls made so far, the last one first.
pub record World : Type 0 where
  pub trace : Trace
  -- auth_child.c
  pub auth_child_pid : ℕ
  pub auth_child_fd : ℕ
  -- saver_child.c, below MAX_SAVERS
  pub saver_child_pid : ℕ → ℕ
  -- main.c
  pub time_to_blank : Time
  pub blanked : Bool
  pub must_disable_dpms : Bool

-- `none` means that a loop has not ended within the fuel.
abbrev pub M : Type 0 → Type 0
M A = World → Option (A × World)

abbrev pub pure : {A : Type 0} → A → M A
pure a w = some (a, w)

abbrev pub bind : {A B : Type 0} → Option (A × World) → (A → M B) → Option (B × World)
bind none f = none
bind (some (a, w)) f = f a w

infixl 5 ◌>>=◌ ◌>>◌
abbrev pub ◌>>=◌ : {A B : Type 0} → M A → (A → M B) → M B
◌>>=◌ m f w = bind (m w) f

abbrev pub ◌>>◌ : {A B : Type 0} → M A → M B → M B
◌>>◌ m k w = bind (m w) (λ _. k)

abbrev pub call : Call → M (Unit {0})
call c w = some (tt, record w { trace = c ∷ w.trace })

abbrev pub modify : (World → World) → M (Unit {0})
modify f w = some (tt, f w)

abbrev pub gets : {A : Type 0} → (World → A) → M A
gets f w = some (f w, w)

-- The calls that have an answer.
module _ (e : Env) where
  abbrev pub waitpid : ℕ → M WaitAnswer
  waitpid pid w =
      let a = e.waitpid w.trace pid in some (a, record w { trace = waited pid a ∷ w.trace })

  abbrev pub kill : Target → ℕ → M KillAnswer
  kill target signo w =
      let a = e.kill w.trace target signo in
      some (a, record w { trace = killed target signo a ∷ w.trace })

  abbrev pub fork : Child → M ForkAnswer
  fork child w =
      let a = e.fork w.trace child in some (a, record w { trace = forked child a ∷ w.trace })

  abbrev pub pipe : M (Option (ℕ × ℕ))
  pipe w = let a = e.pipe w.trace in some (a, record w { trace = piped a ∷ w.trace })

  abbrev pub write : ℕ → List ℕ → M Written
  write fd bytes w =
      let a = e.write w.trace fd bytes in some (a, record w { trace = wrote fd bytes a ∷ w.trace })

  abbrev pub gettimeofday : M Time
  gettimeofday w =
      let a = e.gettimeofday w.trace in some (a, record w { trace = clock a ∷ w.trace })

  abbrev pub dpms : M DpmsAnswer
  dpms w = let a = e.dpms w.trace in some (a, record w { trace = asked_dpms a ∷ w.trace })

  abbrev pub grab_pointer : M Bool
  grab_pointer w =
      let a = e.grab_pointer w.trace in some (a, record w { trace = grabbed_pointer a ∷ w.trace })

  abbrev pub grab_keyboard : M Bool
  grab_keyboard w =
      let a = e.grab_keyboard w.trace in some (a, record w { trace = grabbed_keyboard a ∷ w.trace })

  abbrev pub top_sibling : ℕ → M (Option ℕ)
  top_sibling win w =
      let a = e.top_sibling w.trace win in some (a, record w { trace = asked_top win a ∷ w.trace })

  abbrev pub tree : M Tree
  tree w = some (e.tree w.trace, record w { trace = queried_tree ∷ w.trace })

  abbrev pub input_focus : M ℕ
  input_focus w =
      let a = e.input_focus w.trace in some (a, record w { trace = asked_focus a ∷ w.trace })
