-- ===== src/Pam/Granted.antt =====
-- helpers/authproto_pam.c: the program exits with 0 only if PAM has authenticated the user.
use mathlib.Core.Path.{subst}
use xsecurelock.Prelude.{
  ℕ, ◌≡◌, refl, ◌⊎◌, inl, inr, List, [], ◌∷◌, Bool, true, false, not, ◌&&◌, Option, none, some,
  if◌then◌else◌, Bool-cases, ap, arith,
}
use xsecurelock.Settings.{has_slash}
use xsecurelock.Pam.{
  Status, pam_success, pam_conv_err, pam_abort, pam_maxtries, pam_new_authtok_reqd, other_status,
  is_success, authenticate, acct_mgmt, chauthtok, returned_with, started, item_set, refreshed,
  Library, PamSettings, PamState, Outcome, returned, and_then, note, call_pam_with_retries,
  account_status, refresh, check_account, authenticated, with_item, with_items, authenticate_user,
  main,
}
use xsecurelock.Pam.Calls.{
  Later, Later-trans, Said, Said-before, Said-after, Said→Later, Returns, Returns-mono,
  and_then-Returns, call_pam_with_retries-Said,
}

module _ (lib : Library) (s : PamSettings) where
  open s use {service_name, user_name, no_pam_rhost, check_account_type}

  -- PAM has said that the account may be used, or a new password has been set.
  abbrev pub AccountFine : PamState → PamState → Type 0
  AccountFine w v =
      Said (returned_with acct_mgmt pam_success) w v
      ⊎ Said (returned_with chauthtok pam_success) w v

  AccountFine-after : (u v w : PamState) → AccountFine u v → Later v w → AccountFine u w
  AccountFine-after u v w (inl h) g = inl (Said-after _ u v w h g)
  AccountFine-after u v w (inr h) g = inr (Said-after _ u v w h g)

  abbrev Checked : PamState → Status → PamState → Type 0
  Checked w status v = Later w v × (status ≡ pam_success → AccountFine w v)

  account_status-Checked :
      (first : Status) (w v : PamState)
      → Said (returned_with acct_mgmt first) w v
      → Returns (Checked w) (account_status lib s first v)
  unfolding account_status
  account_status-Checked pam_success w v h = (Said→Later _ w v h, λ _. inl h)
  account_status-Checked pam_conv_err w v h = (Said→Later _ w v h, λ e. absurd (cc (e)))
  account_status-Checked pam_abort w v h = (Said→Later _ w v h, λ e. absurd (cc (e)))
  account_status-Checked pam_maxtries w v h = (Said→Later _ w v h, λ e. absurd (cc (e)))
  account_status-Checked (other_status n) w v h = (Said→Later _ w v h, λ e. absurd (cc (e)))
  account_status-Checked pam_new_authtok_reqd w v h =
      Returns-mono (λ status u. Said (returned_with chauthtok status) v u) (Checked w)
        (call_pam_with_retries lib s chauthtok v) (call_pam_with_retries-Said lib s chauthtok v)
        λ status u said.
          let before =
            Said-before (returned_with chauthtok status) w v u (Said→Later _ w v h) said in
          (
            Said→Later _ w u before,
            λ e. inr (subst (λ (st : Status). Said (returned_with chauthtok st) w u) e before),
          )

  abbrev Allowed : PamState → Status → PamState → Type 0
  Allowed w status v =
      Later w v × (status ≡ pam_success → check_account_type ≡ true → AccountFine w v)

  fine : (status : Status) → is_success status ≡ true → status ≡ pam_success
  fine pam_success h = refl
  fine pam_conv_err h = absurd (cc (h))
  fine pam_abort h = absurd (cc (h))
  fine pam_maxtries h = absurd (cc (h))
  fine pam_new_authtok_reqd h = absurd (cc (h))
  fine (other_status n) h = absurd (cc (h))

  check_account-Allowed : (w : PamState) → Returns (Allowed w) (check_account lib s w)
  unfolding check_account refresh
  check_account-Allowed w =
      and_then-Returns (λ status v. Said (returned_with acct_mgmt status) w v) (Allowed w)
        (call_pam_with_retries lib s acct_mgmt w) _ (call_pam_with_retries-Said lib s acct_mgmt w)
        λ first v said.
          and_then-Returns (Checked w) (Allowed w) (account_status lib s first v) _
            (account_status-Checked first w v said)
            λ second u h. go second u h check_account_type refl
    where
      end : PamState → PamState
      end u = note (refreshed (lib.setcred u.log)) u

      refreshed_once : (u : PamState) → Later u (end u)
      refreshed_once u = (_ ∷ [], refl)

      go :
          (second : Status) (u : PamState)
          → Checked w second u
          → (b : Bool) → check_account_type ≡ b
          → Returns (Allowed w) (
              if b && not (is_success second)
              then returned second u
              else refresh lib s pam_success u)
      go second u (g, h) false off =
          (Later-trans w u (end u) g (refreshed_once u), λ _ on. absurd (cc (on, off)))
      go second u (g, h) true on = elim (Bool-cases (is_success second)) [
        | inl well ↦
            rw (well, Returns)
              (
                Later-trans w u (end u) g (refreshed_once u),
                λ _ _. AccountFine-after w u (end u) (h (fine second well)) (refreshed_once u),
              )
        | inr ill ↦ rw (ill, Returns) (g, λ e _. h e)
      ]

  -- PAM has authenticated the user, and, if PAM_CHECK_ACCOUNT_TYPE is defined, has also said that
  -- the account may be used or has set a new password.
  abbrev pub Authenticated : PamState → PamState → Type 0
  Authenticated w v =
      Said (returned_with authenticate pam_success) w v
      × (check_account_type ≡ true → AccountFine w v)

  Authenticated-before : (u w v : PamState) → Later u w → Authenticated w v → Authenticated u v
  Authenticated-before u w v g (a, h) = (Said-before _ u w v g a, λ on. before (h on))
    where
      before : AccountFine w v → AccountFine u v
      before (inl x) = inl (Said-before _ u w v g x)
      before (inr x) = inr (Said-before _ u w v g x)

  abbrev Sound : PamState → Status → PamState → Type 0
  Sound w status v = status ≡ pam_success → Authenticated w v

  authenticated-Sound :
      (status : Status) (w v : PamState)
      → Said (returned_with authenticate status) w v
      → Returns (Sound w) (authenticated lib s status v)
  unfolding authenticated
  authenticated-Sound pam_success w v said =
      Returns-mono (Allowed v) (Sound w) (check_account lib s v) (check_account-Allowed v)
        λ status u (g, h) e. (
          Said-after (returned_with authenticate pam_success) w v u said g,
          λ on. AccountFine-before u (h e on),
        )
    where
      AccountFine-before : (u : PamState) → AccountFine v u → AccountFine w u
      AccountFine-before u (inl x) = inl (Said-before _ w v u (Said→Later _ w v said) x)
      AccountFine-before u (inr x) = inr (Said-before _ w v u (Said→Later _ w v said) x)
  authenticated-Sound pam_conv_err w v said = λ e. absurd (cc (e))
  authenticated-Sound pam_abort w v said = λ e. absurd (cc (e))
  authenticated-Sound pam_maxtries w v said = λ e. absurd (cc (e))
  authenticated-Sound pam_new_authtok_reqd w v said = λ e. absurd (cc (e))
  authenticated-Sound (other_status n) w v said = λ e. absurd (cc (e))

  with_item-Sound :
      (next : PamState → Outcome Status) (w : PamState)
      → ((v : PamState) → Returns (Sound v) (next v))
      → Returns (Sound w) (with_item lib s next w)
  unfolding with_item
  with_item-Sound next w h = elim (Bool-cases (is_success (lib.set_item w.log))) [
    | inl well ↦
        rw (well, Returns)
          (Returns-mono (Sound v) (Sound w) (next v) (h v) λ status u k e.
            Authenticated-before w v u (item_set (lib.set_item w.log) ∷ [], refl) (k e))
    | inr ill ↦ rw (ill, Returns) λ e. absurd (cc (ill, ap is_success e))
  ]
    where
      v : PamState
      v = note (item_set (lib.set_item w.log)) w

  with_items-Sound : (w : PamState) → Returns (Sound w) (with_items lib s w)
  unfolding with_items
  with_items-Sound w = go no_pam_rhost
    where
      last : PamState → Outcome Status
      last v = and_then (call_pam_with_retries lib s authenticate v) (authenticated lib s)

      last-Sound : (v : PamState) → Returns (Sound v) (last v)
      last-Sound v =
          and_then-Returns (λ status u. Said (returned_with authenticate status) v u) (Sound v)
            (call_pam_with_retries lib s authenticate v) (authenticated lib s)
            (call_pam_with_retries-Said lib s authenticate v)
            λ status u said. authenticated-Sound status v u said

      rest : PamState → Outcome Status
      rest = with_item lib s (with_item lib s last)

      rest-Sound : (v : PamState) → Returns (Sound v) (rest v)
      rest-Sound v = with_item-Sound (with_item lib s last) v λ u. with_item-Sound last u last-Sound

      go : (b : Bool) → Returns (Sound w) (if b then rest w else with_item lib s rest w)
      go true = rest-Sound w
      go false = with_item-Sound rest w rest-Sound

  authenticate_user-Sound :
      (w : PamState) → Returns (λ r v. Sound w r.0 v) (authenticate_user lib s w)
  unfolding authenticate_user
  authenticate_user-Sound w = go (has_slash service_name) user_name
    where
      v : PamState
      v = note (started (lib.start w.log)) w

      start : Bool → Outcome (Status × Bool)
      start b =
          if b
          then and_then (with_items lib s v) (λ r u. returned (r, true) u)
          else returned (lib.start w.log, false) v

      go_start :
          (b : Bool) → is_success (lib.start w.log) ≡ b → Returns (λ r u. Sound w r.0 u) (start b)
      go_start true e =
          and_then-Returns (Sound v) (λ r u. Sound w r.0 u) (with_items lib s v) _
            (with_items-Sound v)
            λ r u h e'. Authenticated-before w v u (started (lib.start w.log) ∷ [], refl) (h e')
      go_start false e = λ e'. absurd (cc (e, ap is_success e'))

      go :
          (slash : Bool) (name? : Option (List ℕ))
          → Returns
              (λ r u. Sound w r.0 u)
              (if slash
                then returned (other_status 1, false) w
                else elim name? as (λ _. Outcome (Status × Bool)) [
                  | none ↦ returned (other_status 1, false) w
                  | some name ↦ start (is_success (lib.start w.log))
                ])
      go true name? = λ e. absurd (cc (e))
      go false none = λ e. absurd (cc (e))
      go false (some name) = go_start (is_success (lib.start w.log)) refl

  -- If the program returns 0 from main, then pam_authenticate has returned PAM_SUCCESS meanwhile, and
  -- if PAM_CHECK_ACCOUNT_TYPE is defined, pam_acct_mgmt or pam_chauthtok has returned it too;
  -- whatever the library answers and whatever conversations it holds.
  pub main-Authenticated :
      (w : PamState) → Returns (λ code v. code ≡ 0 → Authenticated w v) (main lib s w)
  unfolding main
  main-Authenticated w =
      and_then-Returns (λ r v. Sound w r.0 v) (λ code v. code ≡ 0 → Authenticated w v)
        (authenticate_user lib s w) _ (authenticate_user-Sound w)
        λ r v h.
          go r v h (is_success r.0) refl (is_success (if r.1 then lib.end v.log else pam_success))
    where
      go :
          (r : Status × Bool) (v : PamState)
          → Sound w r.0 v
          → (well : Bool) → is_success r.0 ≡ well
          → (ended : Bool) → ◌≡◌ {A = ℕ} (if well && ended then 0 else 1) 0
          → Authenticated w v
      go r v h true e true z = h (fine r.0 e)
      go r v h true e false z = absurd (omega arith)
      go r v h false e ended z = absurd (omega arith)
