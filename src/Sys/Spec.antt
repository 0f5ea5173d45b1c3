-- ===== src/Sys/Spec.antt =====
-- Postconditions for the monad, and what a call leaves in the trace.
use xsecurelock.Prelude.{
  ◌≡◌, refl, ◌∙◌, ◌⊎◌, inl, inr, [], ◌∷◌, ◌++◌, append_assoc, Option, none, some, Bool, true, false,
  if◌then◌else◌,
}
use xsecurelock.Sys.Calls.{Call, Trace}
use xsecurelock.Sys.{World, M, pure, bind, ◌>>=◌, ◌>>◌, gets}

-- `c` is one of the calls.
abbrev pub Made : Call → Trace → Type 0
Made c [] = ⊥
Made c (d ∷ tr) = (c ≡ d) ⊎ Made c tr

pub Made-append_left : (c : Call) (new old : Trace) → Made c new → Made c (new ++ old)
Made-append_left c [] old h = absurd h
Made-append_left c (d ∷ new) old (inl e) = inl e
Made-append_left c (d ∷ new) old (inr h) = inr (Made-append_left c new old h)

pub Made-append_right : (c : Call) (new old : Trace) → Made c old → Made c (new ++ old)
Made-append_right c [] old h = h
Made-append_right c (d ∷ new) old h = inr (Made-append_right c new old h)

-- If the code returns, `R` holds of its result and of the world that it leaves.
abbrev pub Ends : {A : Type 0} → (A → World → Type 0) → Option (A × World) → Type 0
Ends R none = Unit {0}
Ends R (some (a, w)) = R a w

-- The code returns, and `R` holds of its result and of the world that it leaves.
abbrev pub Finishes : {A : Type 0} → (A → World → Type 0) → Option (A × World) → Type 0
Finishes R none = ⊥
Finishes R (some (a, w)) = R a w

pub bind-Finishes :
    {A B : Type 0} (P : A → World → Type 0) (R : B → World → Type 0) (m : Option (A × World))
    (f : A → M B)
    → Finishes P m
    → ((a : A) (w : World) → P a w → Finishes R (f a w))
    → Finishes R (bind m f)
bind-Finishes P R none f h k = absurd h
bind-Finishes P R (some (a, w)) f h k = k a w h

pub Finishes-mono :
    {A : Type 0} (P R : A → World → Type 0) (m : Option (A × World))
    → Finishes P m
    → ((a : A) (w : World) → P a w → R a w)
    → Finishes R m
Finishes-mono P R none h k = absurd h
Finishes-mono P R (some (a, w)) h k = k a w h

pub Finishes→Ends :
    {A : Type 0} (R : A → World → Type 0) (m : Option (A × World)) → Finishes R m → Ends R m
Finishes→Ends R none h = tt
Finishes→Ends R (some (a, w)) h = h

-- Code that returns, and whose results have both properties.
pub Ends→Finishes :
    {A : Type 0} (P Q R : A → World → Type 0) (m : Option (A × World))
    → ((r : A × World) × (m ≡ some r))
    → Ends P m
    → Ends Q m
    → ((a : A) (w : World) → P a w → Q a w → R a w)
    → Finishes R m
Ends→Finishes P Q R none (r, e) p q k = absurd (cc (e))
Ends→Finishes P Q R (some (a, w)) (r, e) p q k = k a w p q

pub bind-Ends :
    {A B : Type 0} (P : A → World → Type 0) (R : B → World → Type 0) (m : Option (A × World))
    (f : A → M B)
    → Ends P m
    → ((a : A) (w : World) → P a w → Ends R (f a w))
    → Ends R (bind m f)
bind-Ends P R none f h k = tt
bind-Ends P R (some (a, w)) f h k = k a w h

pub Ends-mono :
    {A : Type 0} (P R : A → World → Type 0) (m : Option (A × World))
    → Ends P m
    → ((a : A) (w : World) → P a w → R a w)
    → Ends R m
Ends-mono P R none h k = tt
Ends-mono P R (some (a, w)) h k = k a w h

pub Ends-both :
    {A : Type 0} (P Q R : A → World → Type 0) (m : Option (A × World))
    → Ends P m
    → Ends Q m
    → ((a : A) (w : World) → P a w → Q a w → R a w)
    → Ends R m
Ends-both P Q R none p q k = tt
Ends-both P Q R (some (a, w)) p q k = k a w p q

-- A postcondition that does not depend on what `m` does.
pub bind-Ends_any :
    {A B : Type 0} (R : B → World → Type 0) (m : Option (A × World)) (f : A → M B)
    → ((a : A) (w : World) → Ends R (f a w))
    → Ends R (bind m f)
bind-Ends_any R none f k = tt
bind-Ends_any R (some (a, w)) f k = k a w

-- The calls made since.
abbrev pub Grows : World → World → Type 0
Grows w v = (new : Trace) × (v.trace ≡ new ++ w.trace)

pub Grows-refl : (w : World) → Grows w w
Grows-refl w = ([], refl)

pub Grows-trans : (u v w : World) → Grows u v → Grows v w → Grows u w
Grows-trans u v w (new, p) (newer, q) = (newer ++ new, q ∙ rw (p, append_assoc))

pub Made-Grows : (c : Call) (v w : World) → Grows v w → Made c v.trace → Made c w.trace
Made-Grows c v w (new, p) h = rw p (Made-append_right c new v.trace h)

-- Nothing but the trace has changed, and `new` is what it has more.
abbrev pub Adds : Trace → World → World → Type 0
Adds new w v = v ≡ record w { trace = new ++ w.trace }

pub Adds-trans : (n m : Trace) (u v w : World) → Adds n u v → Adds m v w → Adds (m ++ n) u w
Adds-trans n m u v w p q = q ∙ rw (p, append_assoc)

-- Every run of the code that returns leads from a world to one that it is related to, for a
-- relation that is reflexive and transitive.
pub record IsPreorder (R : World → World → Type 0) : Type 0 where
  pub reflexive : (w : World) → R w w
  pub transitive : {u v w : World} → R u v → R v w → R u w

pub record Stays {A : Type 0} (R : World → World → Type 0) (m : M A) : Type 0 where
  pub stays : (w : World) → Ends (λ _ v. R w v) (m w)

module _ {R : World → World → Type 0} (o : IsPreorder R) where
  pub Stays-pure : {A : Type 0} (a : A) → Stays R (pure a)
  Stays-pure a = record { stays = λ w. o.reflexive w }

  pub Stays-gets : {A : Type 0} (f : World → A) → Stays R (gets f)
  Stays-gets f = record { stays = λ w. o.reflexive w }

  pub Stays-bind :
      {A B : Type 0} {m : M A} {f : A → M B}
      → Stays R m
      → ((a : A) → Stays R (f a))
      → Stays R (m >>= f)
  Stays-bind {m} {f} h k = record {
    stays = λ w.
        bind-Ends (λ _ v. R w v) (λ _ v. R w v) (m w) f (h.stays w)
          λ a v r.
            Ends-mono (λ _ u. R v u) (λ _ u. R w u) (f a v) ((k a).stays v)
              λ b u r'. o.transitive r r';
  }

  pub Stays-then : {A B : Type 0} {m : M A} {k : M B} → Stays R m → Stays R k → Stays R (m >> k)
  Stays-then h k = Stays-bind h (λ _. k)

pub Stays-if :
    {A : Type 0} {R : World → World → Type 0} {m k : M A} (b : Bool)
    → Stays R m
    → Stays R k
    → Stays R (if b then m else k)
Stays-if true h k = h
Stays-if false h k = k
