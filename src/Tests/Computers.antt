-- ===== src/Tests/Computers.antt =====
-- A computer that has what passkey needs.
use passkey.Base.{◌≡◌, ◌↔◌, true, ◌||◌, [], ◌∷◌, none, some, same, any}
use passkey.Base.Text.{Text, codes}
use passkey.Environment.{Computer, ready, check_environment}
use passkey.Environment.Required.{IsReady, check_environment-IsReady}

abbrev pub computer : Computer
computer = record {
  is_dir = λ path. same path (codes "/etc/pam.d") || same path (codes "/run/systemd/system");
  is_file = λ path. any (same path) (
      codes "/usr/lib/security/pam_unix.so"
      ∷ codes "/usr/lib/security/pam_u2f.so"
      ∷ codes "/usr/lib/security/pam_passkey.so"
      ∷ codes "/usr/bin/pamu2fcfg"
      ∷ codes "/usr/bin/fido2-token"
      ∷ codes "/usr/bin/sudo"
      ∷ []);
  read = λ path. none;
  path = some (codes "/usr/bin" ∷ []);
  euid = 1000;
  bluetooth_active = true;
}

check_environment-IsReady_example :
    (check_environment computer ≡ ready) ↔ ((dir : Text) × IsReady computer dir)
check_environment-IsReady_example = check_environment-IsReady computer
