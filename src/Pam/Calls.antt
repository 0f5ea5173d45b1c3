-- ===== src/Pam/Calls.antt =====
-- helpers/authproto_pam.c: what a call of the PAM library leaves in the log.
use xsecurelock.Prelude.{
  ℕ, zero, suc, ◌≡◌, refl, ◌∙◌, ◌⊎◌, inl, inr, List, [], ◌∷◌, ◌++◌, append_assoc, Bool, true, false,
  ◌||◌, Option, if◌then◌else◌,
}
use xsecurelock.Pam.{
  Status, pam_success, pam_conv_err, pam_abort, pam_maxtries, pam_new_authtok_reqd, other_status,
  Style, prompt_echo_off, prompt_echo_on, error_msg, text_info, other_style, Message, PamCall,
  Event, entered, returned_with, Log, Conversed, responses, conv_failed, Script, finish,
  converse_then, Library, PamSettings, PamState, Outcome, returned, exited, and_then, note, prompt,
  converse_one, conversed, converse_loop, run_script, is_final, attempt, call_attempts,
  call_pam_with_retries,
}

abbrev pub In : Event → Log → Type 0
In ev [] = ⊥
In ev (d ∷ log) = (ev ≡ d) ⊎ In ev log

In-append_left : (ev : Event) (new old : Log) → In ev new → In ev (new ++ old)
In-append_left ev [] old h = absurd h
In-append_left ev (d ∷ new) old (inl p) = inl p
In-append_left ev (d ∷ new) old (inr h) = inr (In-append_left ev new old h)

In-append_right : (ev : Event) (new old : Log) → In ev old → In ev (new ++ old)
In-append_right ev [] old h = h
In-append_right ev (d ∷ new) old h = inr (In-append_right ev new old h)

abbrev pub Later : PamState → PamState → Type 0
Later w v = (new : Log) × (v.log ≡ new ++ w.log)

-- `ev` has happened from `w` to `v`.
abbrev pub Said : Event → PamState → PamState → Type 0
Said ev w v = (new : Log) × (v.log ≡ new ++ w.log) × In ev new

pub Later-trans : (u v w : PamState) → Later u v → Later v w → Later u w
Later-trans u v w (n, p) (m, q) = (m ++ n, q ∙ rw (p, append_assoc))

pub Said-before : (ev : Event) (u v w : PamState) → Later u v → Said ev v w → Said ev u w
Said-before ev u v w (n, p) (m, q, h) = (m ++ n, q ∙ rw (p, append_assoc), In-append_left ev m n h)

pub Said-after : (ev : Event) (u v w : PamState) → Said ev u v → Later v w → Said ev u w
Said-after ev u v w (n, p, h) (m, q) = (m ++ n, q ∙ rw (p, append_assoc), In-append_right ev m n h)

pub Said→Later : (ev : Event) (w v : PamState) → Said ev w v → Later w v
Said→Later ev w v (n, p, h) = (n, p)

-- If the program has not exited.
abbrev pub Returns : {A : Type 0} → (A → PamState → Type 0) → Outcome A → Type 0
Returns R (returned a v) = R a v
Returns R (exited v) = Unit {0}

pub and_then-Returns :
    {A B : Type 0} (P : A → PamState → Type 0) (R : B → PamState → Type 0) (m : Outcome A)
    (f : A → PamState → Outcome B)
    → Returns P m
    → ((a : A) (v : PamState) → P a v → Returns R (f a v))
    → Returns R (and_then m f)
and_then-Returns P R (returned a v) f h k = k a v h
and_then-Returns P R (exited v) f h k = tt

pub Returns-mono :
    {A : Type 0} (P R : A → PamState → Type 0) (m : Outcome A)
    → Returns P m
    → ((a : A) (v : PamState) → P a v → R a v)
    → Returns R m
Returns-mono P R (returned a v) h k = k a v h
Returns-mono P R (exited v) h k = tt

module _ (lib : Library) (s : PamSettings) where
  open s use {service_name, user_name, no_pam_rhost, check_account_type}

  converse_one-Later :
      (style : Style) (text : List ℕ) (w : PamState) → Later w (converse_one lib s style text w).1
  unfolding converse_one prompt
  converse_one-Later prompt_echo_off text w = (_ ∷ _ ∷ [], refl)
  converse_one-Later prompt_echo_on text w = (_ ∷ _ ∷ [], refl)
  converse_one-Later error_msg text w = (_ ∷ [], refl)
  converse_one-Later text_info text w = (_ ∷ [], refl)
  converse_one-Later other_style text w = ([], refl)

  conversed-Later :
      (status : Status) (resp : Option (List ℕ)) (w v : PamState) (rest : Conversed × PamState)
      → Later w v
      → Later v rest.1
      → Later w (conversed lib s status resp v rest).1
  unfolding conversed
  conversed-Later pam_success resp w v (responses rs, u) g h = Later-trans w v u g h
  conversed-Later pam_success resp w v (conv_failed st, u) g h = Later-trans w v u g h
  conversed-Later pam_conv_err resp w v rest g h = g
  conversed-Later pam_abort resp w v rest g h = g
  conversed-Later pam_maxtries resp w v rest g h = g
  conversed-Later pam_new_authtok_reqd resp w v rest g h = g
  conversed-Later (other_status n) resp w v rest g h = g

  converse_loop-Later : (ms : List Message) (w : PamState) → Later w (converse_loop lib s ms w).1
  unfolding converse_loop
  converse_loop-Later [] w = ([], refl)
  converse_loop-Later (m ∷ ms) w =
      let first = converse_one lib s m.style m.text w in
      conversed-Later first.0.0 first.0.1 w first.1 (converse_loop lib s ms first.1)
        (converse_one-Later m.style m.text w) (converse_loop-Later ms first.1)

  run_script-Said :
      (op : PamCall) (script : Script) (w : PamState)
      → Returns (λ status v. Said (returned_with op status) w v) (run_script lib s op script w)
  unfolding run_script
  run_script-Said op (finish status) w = (_ ∷ [], refl, inl refl)
  run_script-Said op (converse_then ms next) w =
      go w.conv_error
        (run_script-Said op (next (converse_loop lib s ms w).0) (converse_loop lib s ms w).1)
    where
      v : PamState
      v = (converse_loop lib s ms w).1

      rest : Outcome Status
      rest = run_script lib s op (next (converse_loop lib s ms w).0) v

      go :
          (b : Bool)
          → Returns (λ status u. Said (returned_with op status) v u) rest
          → Returns (λ status u. Said (returned_with op status) w u) (if b then exited w else rest)
      go true h = tt
      go false h = Returns-mono _ _ rest h λ status u said.
          Said-before (returned_with op status) w v u (converse_loop-Later ms w) said

  attempt-Said :
      (op : PamCall) (w : PamState)
      → Returns (λ status v. Said (returned_with op status) w v) (attempt lib s op w)
  unfolding attempt
  attempt-Said op w =
      let begun = note (entered op) (record w { conv_error = false }) in
      Returns-mono (λ status v. Said (returned_with op status) begun v) _
        (run_script lib s op (lib.call begun.log op) begun)
        (run_script-Said op (lib.call begun.log op) begun)
        λ status v said.
          Said-before (returned_with op status) w begun v (entered op ∷ [], refl) said

  call_attempts-Said :
      (op : PamCall) (n : ℕ) (w : PamState)
      → Returns (λ status v. Said (returned_with op status) w v) (call_attempts lib s op n w)
  unfolding call_attempts
  call_attempts-Said op zero w = attempt-Said op w
  call_attempts-Said op (suc n) w =
      and_then-Returns (λ status v. Said (returned_with op status) w v)
        (λ status v. Said (returned_with op status) w v) (attempt lib s op w) _ (attempt-Said op w)
        λ status v said.
          go status v (v.conv_error || is_final lib s status) said (call_attempts-Said op n v)
    where
      go :
          (status : Status) (v : PamState) (b : Bool)
          → Said (returned_with op status) w v
          → Returns (λ st u. Said (returned_with op st) v u) (call_attempts lib s op n v)
          → Returns
              (λ st u. Said (returned_with op st) w u)
              (if b then returned status v else call_attempts lib s op n v)
      go status v true said again = said
      go status v false said again = Returns-mono _ _ (call_attempts lib s op n v) again λ st u h.
          Said-before (returned_with op st) w v u (Said→Later (returned_with op status) w v said) h

  pub call_pam_with_retries-Said :
      (op : PamCall) (w : PamState)
      → Returns (λ status v. Said (returned_with op status) w v) (call_pam_with_retries lib s op w)
  unfolding call_pam_with_retries
  call_pam_with_retries-Said op w = call_attempts-Said op 2 w
