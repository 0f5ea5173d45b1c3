-- ===== src/Pam.antt =====
-- helpers/authproto_pam.c: authentication by PAM. The PAM library is a parameter, `Library`: what its
-- functions answer may depend on all that has happened, and a call may hold any conversations. The
-- other end of the packets is a parameter too; what ReadPacket and WritePacket do is in AuthProto.
pub mod Calls
pub mod Granted
mod Tests
use xsecurelock.Prelude.{
  ℕ, zero, suc, Bool, true, false, not, ◌&&◌, ◌||◌, List, [], ◌∷◌, Option, none, some, ◌==◌,
  if◌then◌else◌,
}
use xsecurelock.Settings.{has_slash}

-- The values of a PAM status that the program tells apart.
pub data Status : Type 0 where
  pam_success pam_conv_err pam_abort pam_maxtries pam_new_authtok_reqd : Status
  other_status : ℕ → Status

abbrev pub is_success : Status → Bool
is_success pam_success = true
is_success _ = false

pub data Style : Type 0 where
  prompt_echo_off prompt_echo_on error_msg text_info other_style : Style

pub record Message : Type 0 where
  pub style : Style
  pub text : List ℕ

pub data PamCall : Type 0 where
  authenticate acct_mgmt chauthtok : PamCall

pub data Event : Type 0 where
  sent : (type : ℕ) (text : List ℕ) → Event
  received : (type : ℕ) (text : Option (List ℕ)) → Event
  -- a call of the library has begun, or has returned
  entered : PamCall → Event
  returned_with : PamCall → Status → Event
  started : Status → Event
  item_set : Status → Event
  refreshed : Status → Event

abbrev pub Log : Type 0
Log = List Event

-- What Converse gives to its caller: a status, and the responses if it is PAM_SUCCESS.
pub data Conversed : Type 0 where
  responses : List (Option (List ℕ)) → Conversed
  conv_failed : Status → Conversed

-- A call of the library: it returns, or it holds a conversation first.
pub data Script : Type 0 where
  finish : Status → Script
  converse_then : List Message → (Conversed → Script) → Script

pub record Library : Type 0 where
  pub call : Log → PamCall → Script
  pub start : Log → Status
  pub set_item : Log → Status
  pub setcred : Log → Status
  pub end : Log → Status
  -- ReadPacket (0, &resp, 0): the type, and `resp`.
  pub reply : Log → ℕ × Option (List ℕ)

-- The settings, and what configure has found.
pub record PamSettings : Type 0 where
  pub service_name : List ℕ
  pub user_name : Option (List ℕ)
  pub no_pam_rhost : Bool
  -- PAM_CHECK_ACCOUNT_TYPE
  pub check_account_type : Bool

pub record PamState : Type 0 where
  pub log : Log
  pub conv_error : Bool

-- A result, or exit (1).
pub data Outcome (A : Type 0) : Type 0 where
  returned : A → PamState → Outcome A
  exited : PamState → Outcome A

abbrev pub and_then : {A B : Type 0} → Outcome A → (A → PamState → Outcome B) → Outcome B
and_then (returned a w) f = f a w
and_then (exited w) f = exited w

abbrev pub note : Event → PamState → PamState
note ev w = record w { log = ev ∷ w.log }

module _ (lib : Library) (s : PamSettings) where
  open s use {service_name, user_name, no_pam_rhost, check_account_type}

  -- A prompt: the type of the packet, and the type that the response has to have.
  prompt : ℕ → ℕ → List ℕ → PamState → (Status × Option (List ℕ)) × PamState
  prompt type expected text w =
      let asked = note (sent type text) w in
      let r = lib.reply asked.log in
      ((if r.0 == expected then pam_success else pam_conv_err, r.1), note (received r.0 r.1) asked)

  -- ConverseOne
  converse_one : Style → List ℕ → PamState → (Status × Option (List ℕ)) × PamState
  unfolding prompt
  converse_one prompt_echo_off text w = prompt b'P' b'p' text w
  converse_one prompt_echo_on text w = prompt b'U' b'u' text w
  converse_one error_msg text w = ((pam_success, none), note (sent b'e' text) w)
  converse_one text_info text w = ((pam_success, none), note (sent b'i' text) w)
  converse_one other_style text w = ((pam_conv_err, none), w)

  -- Behind one step of the loop of Converse: its result, and that of the rest.
  conversed : Status → Option (List ℕ) → PamState → Conversed × PamState → Conversed × PamState
  conversed pam_success resp w (responses rs, w') = (responses (resp ∷ rs), w')
  conversed pam_success resp w (conv_failed status, w') = (conv_failed status, w')
  conversed status resp w rest = (conv_failed status, record w { conv_error = true })

  -- The loop of Converse; a failure frees all responses and sets conv_error.
  converse_loop : List Message → PamState → Conversed × PamState
  unfolding converse_one conversed
  converse_loop [] w = (responses [], w)
  converse_loop (m ∷ ms) w =
      let first = converse_one m.style m.text w in
      conversed first.0.0 first.0.1 first.1 (converse_loop ms first.1)

  -- A call of the library. Converse exits if it is called again after a failure.
  run_script : PamCall → Script → PamState → Outcome Status
  unfolding converse_loop
  run_script op (finish status) w = returned status (note (returned_with op status) w)
  run_script op (converse_then ms next) w =
      let r = converse_loop ms w in
      let after = run_script op (next r.0) r.1 in if w.conv_error then exited w else after

  -- Statuses for which a call is not repeated.
  is_final : Status → Bool
  is_final pam_abort = true
  is_final pam_maxtries = true
  is_final pam_new_authtok_reqd = true
  is_final pam_success = true
  is_final pam_conv_err = false
  is_final (other_status n) = false

  -- One round of the loop of CallPAMWithRetries.
  attempt : PamCall → PamState → Outcome Status
  unfolding run_script
  attempt op w =
      let begun = note (entered op) (record w { conv_error = false }) in
      run_script op (lib.call begun.log op) begun

  -- The loop, with `n + 1` attempts left.
  call_attempts : PamCall → ℕ → PamState → Outcome Status
  unfolding attempt is_final
  call_attempts op zero w = attempt op w
  call_attempts op (suc n) w = and_then (attempt op w) λ status v.
      let again = call_attempts op n v in
      if v.conv_error || is_final status then returned status v else again

  -- CallPAMWithRetries
  pub call_pam_with_retries : PamCall → PamState → Outcome Status
  unfolding call_attempts
  call_pam_with_retries op w = call_attempts op 2 w

  -- PAM_NEW_AUTHTOK_REQD: the account's status is then that of changing the password.
  account_status : Status → PamState → Outcome Status
  unfolding call_pam_with_retries
  account_status pam_new_authtok_reqd w = call_pam_with_retries chauthtok w
  account_status status w = returned status w

  refresh : Status → PamState → Outcome Status
  refresh status w = returned status (note (refreshed (lib.setcred w.log)) w)

  -- Behind a successful pam_authenticate.
  check_account : PamState → Outcome Status
  unfolding account_status refresh
  check_account w = and_then (call_pam_with_retries acct_mgmt w) λ first v.
      and_then (account_status first v) λ second u.
        if check_account_type && not (is_success second)
        then returned second u
        else refresh pam_success u

  authenticated : Status → PamState → Outcome Status
  unfolding check_account
  authenticated pam_success w = check_account w
  authenticated status w = returned status w

  -- pam_set_item; the rest only if it succeeds.
  with_item : (PamState → Outcome Status) → PamState → Outcome Status
  with_item next w =
      let status = lib.set_item w.log in
      let v = note (item_set status) w in if is_success status then next v else returned status v

  -- PAM_RHOST, PAM_RUSER, PAM_TTY, and then pam_authenticate.
  with_items : PamState → Outcome Status
  unfolding with_item authenticated
  with_items w =
      let rest =
        with_item
          (with_item (λ v. and_then (call_pam_with_retries authenticate v) authenticated)) in
      if no_pam_rhost then rest w else with_item rest w

  -- Authenticate, with whether there is a handle.
  authenticate_user : PamState → Outcome (Status × Bool)
  unfolding with_items
  authenticate_user w =
      if has_slash service_name then returned (other_status 1, false) w else elim user_name [
        | none ↦ returned (other_status 1, false) w
        | some name ↦
            let status = lib.start w.log in
            let v = note (started status) w in
            if is_success status
            then and_then (with_items v) (λ r u. returned (r, true) u)
            else returned (status, false) v
      ]

  -- main: the exit status.
  pub main : PamState → Outcome ℕ
  unfolding authenticate_user
  main w = and_then (authenticate_user w) λ r v.
      let ended = if r.1 then lib.end v.log else pam_success in
      returned (if is_success r.0 && is_success ended then 0 else 1) v
