-- ===== src/Process/Closed.antt =====
-- A property that calls, changes to variables other than those of the authentication child, and waiting
-- have, and that sequences inherit, is had by the code that is made of them. Two such properties are to
-- leave the authentication child alone, and to return.
use xsecurelock.Prelude.{
  ℕ, ◌<◌, refl, [], ◌∷◌, Bool, true, false, Option, none, some, if◌then◌else◌,
}
use xsecurelock.Sys.Calls.{Trace, sigterm, Call, Child}
use xsecurelock.Sys.{Env, World, M, pure, ◌>>=◌, ◌>>◌, call, modify, gets, gettimeofday, dpms, fork}
use xsecurelock.Sys.Spec.{
  Ends, Ends-mono, Finishes, Finishes-mono, bind-Finishes, Finishes→Ends, Grows-refl, Adds, Stays,
  Stays-bind, Stays-then, Stays-pure,
}
use xsecurelock.Sys.Keeps.{Keeps, Keeps-IsPreorder, Adds→Keeps}
use xsecurelock.Process.{Waited, kill_pgrp, wait_pgrp, wait_proc}
use xsecurelock.Process.Spec.{
  kill_pgrp-Signals, Justified, Signals, kill_pgrp-Finishes, wait_pgrp-Justified,
  wait_proc-Justified,
}
use xsecurelock.Process.Returns.{
  IsReliable, Returns, Asked, Asked-IsStable, kill_pgrp-Asked, wait_pgrp-Returns, wait_proc-Returns,
}

pub record IsClosed (e : Env) (P : (A : Type 0) → M A → Type 0) : Type 1 where
  pub calls : {A : Type 0} (m : M A) → ((w : World) → Finishes (λ _ v. Keeps w v) (m w)) → P A m
  pub bind : {A B : Type 0} {m : M A} {f : A → M B} → P A m → ((a : A) → P B (f a)) → P B (m >>= f)
  -- waiting that does not block
  pub waits_pgrp : (pid : ℕ) → P Waited (wait_pgrp e pid false false)
  pub waits_proc : (pid : ℕ) → P Waited (wait_proc e pid false)
  -- to ask a process to end and to wait for that
  pub stops :
      {B : Type 0} (pid : ℕ) (f : Waited → M B)
      → ((r : Waited) → P B (f r))
      → P B ((kill_pgrp e pid sigterm >> pure tt) >> (wait_pgrp e pid true true >>= f))

-- The code has the property.
abbrev pub Has :
    {e : Env} {P : (A : Type 0) → M A → Type 0} (c : IsClosed e P) {A : Type 0} → M A → Type 0
Has {P} c {A} m = P A m

module _ {e : Env} {P : (A : Type 0) → M A → Type 0} (c : IsClosed e P) where
  pub Closed-pure : {A : Type 0} (a : A) → Has c (pure a)
  Closed-pure a = c.calls (pure a) λ w. record { grows = Grows-refl w; pid = refl; fd = refl }

  pub Closed-gets : {A : Type 0} (f : World → A) → Has c (gets f)
  Closed-gets f = c.calls (gets f) λ w. record { grows = Grows-refl w; pid = refl; fd = refl }

  pub Closed-bind :
      {A B : Type 0} {m : M A} {f : A → M B} → Has c m → ((a : A) → Has c (f a)) → Has c (m >>= f)
  Closed-bind h k = c.bind h k

  pub Closed-then : {A B : Type 0} {m : M A} {k : M B} → Has c m → Has c k → Has c (m >> k)
  Closed-then h k = c.bind h (λ _. k)

  pub Closed-if :
      {A : Type 0} {m k : M A} (b : Bool) → Has c m → Has c k → Has c (if b then m else k)
  Closed-if true h k = h
  Closed-if false h k = k

  pub Closed-call : (made : Call) → Has c (call made)
  Closed-call made = c.calls (call made) λ w. Adds→Keeps (made ∷ []) w _ refl

  pub Closed-modify : (f : World → World) → ((w : World) → Keeps w (f w)) → Has c (modify f)
  Closed-modify f h = c.calls (modify f) h

  pub Closed-gettimeofday : Has c (gettimeofday e)
  Closed-gettimeofday = c.calls (gettimeofday e) λ w. Adds→Keeps (_ ∷ []) w _ refl

  pub Closed-dpms : Has c (dpms e)
  Closed-dpms = c.calls (dpms e) λ w. Adds→Keeps (_ ∷ []) w _ refl

  pub Closed-fork : (child : Child) → Has c (fork e child)
  Closed-fork child = c.calls (fork e child) λ w. Adds→Keeps (_ ∷ []) w _ refl

  pub Closed-kill_pgrp : (pid signo : ℕ) → Has c (kill_pgrp e pid signo)
  Closed-kill_pgrp pid signo = c.calls (kill_pgrp e pid signo) λ w.
      Finishes-mono (Signals e pid signo w) (λ _ v. Keeps w v) (kill_pgrp e pid signo w)
        (kill_pgrp-Finishes e pid signo w) λ a v (new, b, p, made). Adds→Keeps new w v p

kill_pgrp-Keeps : (e : Env) (pid signo : ℕ) → Stays Keeps (kill_pgrp e pid signo)
kill_pgrp-Keeps e pid signo = record {
  stays = λ w.
      Ends-mono (Signals e pid signo w) (λ _ v. Keeps w v) (kill_pgrp e pid signo w)
        (kill_pgrp-Signals e pid signo w) λ a v (new, b, p, made). Adds→Keeps new w v p;
}

Justified-Keeps :
    (pid : ℕ) (m : M Waited) → ((w : World) → Ends (Justified pid w) (m w)) → Stays Keeps m
Justified-Keeps pid m h = record {
  stays = λ w.
      Ends-mono (Justified pid w) (λ _ v. Keeps w v) (m w) (h w)
        λ r v (new, p, why). Adds→Keeps new w v p;
}

-- To leave the authentication child alone.
pub Keeps-IsClosed : (e : Env) → IsClosed e (λ A m. Stays Keeps m)
Keeps-IsClosed e = record {
  calls = λ m h. record { stays = λ w. Finishes→Ends (λ _ v. Keeps w v) (m w) (h w) };
  bind = λ h k. Stays-bind Keeps-IsPreorder h k;
  waits_pgrp = λ pid.
      Justified-Keeps pid (wait_pgrp e pid false false) (wait_pgrp-Justified e pid false false);
  waits_proc = λ pid. Justified-Keeps pid (wait_proc e pid false) (wait_proc-Justified e pid false);
  stops = λ pid f h.
      Stays-then Keeps-IsPreorder
        (Stays-then Keeps-IsPreorder (kill_pgrp-Keeps e pid sigterm)
          (Stays-pure Keeps-IsPreorder tt))
        (Stays-bind Keeps-IsPreorder
          (Justified-Keeps pid (wait_pgrp e pid true true) (wait_pgrp-Justified e pid true true))
          h);
}

-- To return, from any world.
pub record IsTotal {A : Type 0} (m : M A) : Type 0 where
  pub ends : (w : World) → Finishes (λ _ _. Unit {0}) (m w)

Returns→Finishes : {A : Type 0} (m : Option (A × World)) → Returns m → Finishes (λ _ _. Unit {0}) m
Returns→Finishes none (r, p) = absurd (cc (p))
Returns→Finishes (some (a, w)) h = tt

pub IsTotal-IsClosed :
    (e : Env) (patience : ℕ)
    → IsReliable e patience Asked
    → patience < e.fuel
    → IsClosed e (λ A m. IsTotal m)
IsTotal-IsClosed e patience reliable enough = record {
  calls = λ m h. record {
    ends = λ w. Finishes-mono (λ _ v. Keeps w v) (λ _ _. Unit {0}) (m w) (h w) λ _ _ _. tt;
  };
  bind = λ {A} {B} {m} {f} h k. record {
    ends = λ w.
        bind-Finishes (λ _ _. Unit {0}) (λ _ _. Unit {0}) (m w) f (h.ends w) λ a v _. (k a).ends v;
  };
  waits_pgrp = λ pid. record {
    ends = λ w. Returns→Finishes (wait_pgrp e pid false false w) (
        wait_pgrp-Returns e patience Asked-IsStable reliable pid false false w
          (λ b. absurd (cc (b))) enough);
  };
  waits_proc = λ pid. record {
    ends = λ w. Returns→Finishes (wait_proc e pid false w) (
        wait_proc-Returns e patience Asked-IsStable reliable pid false w (λ b. absurd (cc (b)))
          enough);
  };
  stops = λ pid f h. record {
    ends = λ w.
        bind-Finishes (λ _ v. Asked pid v.trace) (λ _ _. Unit {0})
          ((kill_pgrp e pid sigterm >> pure tt) w) _
          (bind-Finishes (λ _ v. Asked pid v.trace × ((new : Trace) × Adds new w v))
            (λ _ v. Asked pid v.trace) (kill_pgrp e pid sigterm w) _ (kill_pgrp-Asked e pid w)
            λ _ v (asked, adds). asked)
          λ _ v asked.
            bind-Finishes (λ _ _. Unit {0}) (λ _ _. Unit {0}) (wait_pgrp e pid true true v) f
              (Returns→Finishes (wait_pgrp e pid true true v) (
                wait_pgrp-Returns e patience Asked-IsStable reliable pid true true v (λ b. asked)
                  enough))
              λ r u _. (h r).ends u;
  };
}

-- A change to any variable.
pub modify-IsTotal : (f : World → World) → IsTotal (modify f)
modify-IsTotal f = record { ends = λ w. tt }

Finishes→Returns : {A : Type 0} (m : Option (A × World)) → Finishes (λ _ _. Unit {0}) m → Returns m
Finishes→Returns none h = absurd h
Finishes→Returns (some r) h = (r, refl)

pub IsTotal-Returns : {A : Type 0} (m : M A) → IsTotal m → (w : World) → Returns (m w)
IsTotal-Returns m h w = Finishes→Returns (m w) (h.ends w)
