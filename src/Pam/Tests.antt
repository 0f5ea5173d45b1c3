-- ===== src/Pam/Tests.antt =====
-- A run of helpers/authproto_pam.c with a library that asks for a password once.
use xsecurelock.Prelude.{◌≡◌, [], ◌∷◌, true, false, some}
use xsecurelock.Pam.{
  Library, PamSettings, PamState, main, finish, converse_then, pam_success, prompt_echo_off,
}
use xsecurelock.Pam.Calls.{Returns}
use xsecurelock.Pam.Granted.{Authenticated, main-Authenticated}

abbrev library : Library
library = record {
  call = λ log op.
      converse_then (record { style = prompt_echo_off; text = b'?' ∷ [] } ∷ [])
        λ r. finish pam_success;
  start = λ log. pam_success;
  set_item = λ log. pam_success;
  setcred = λ log. pam_success;
  end = λ log. pam_success;
  reply = λ log. (b'p', some (b'x' ∷ []));
}

abbrev settings : PamSettings
settings = record {
  service_name = b'l' ∷ [];
  user_name = some (b'u' ∷ []);
  no_pam_rhost = false;
  check_account_type = true;
}

abbrev begin : PamState
begin = record { log = []; conv_error = false }

main-Authenticated_example :
    Returns
      (λ code v. code ≡ 0 → Authenticated library settings begin v)
      (main library settings begin)
main-Authenticated_example = main-Authenticated library settings begin
