-- ===== src/Environment.antt =====
-- src/cli.rs: what a computer needs, `check_environment`, and the packages that it names. What the
-- files and the running services are enters as one record.
pub mod Required
use passkey.Base.{
  ℕ, Bool, true, false, not, ◌&&◌, ◌||◌, List, [], ◌∷◌, ◌++◌, Option, none, some, if◌then◌else◌,
  ◌==◌, same, any, map, find, find_map, or_else,
}
use passkey.Base.Text.{
  Text, codes, lines, split_whitespace, strip_prefix, trim_start, contains, trim_start_matches,
  trim_end_matches,
}
use passkey.Hid.{is_some, is_empty}
use passkey.Registry.{read_optional}

-- The computer: which paths are directories and files, the texts of files that can be read, the
-- directories of PATH, the effective user, and whether the Bluetooth service is active.
pub record Computer : Type 0 where
  pub is_dir : Text → Bool
  pub is_file : Text → Bool
  pub read : Text → Option Text
  pub path : Option (List Text)
  pub euid : ℕ
  pub bluetooth_active : Bool

-- `Path::join` of a relative name.
abbrev pub child : Text → Text → Text
child dir name = dir ++ 47 ∷ name

abbrev module_dirs : List Text
module_dirs =
    codes "/usr/lib/security"
    ∷ codes "/usr/lib64/security"
    ∷ codes "/lib/security"
    ∷ codes "/lib64/security"
    ∷ codes "/usr/lib/x86_64-linux-gnu/security"
    ∷ codes "/lib/x86_64-linux-gnu/security"
    ∷ codes "/usr/lib/aarch64-linux-gnu/security"
    ∷ codes "/lib/aarch64-linux-gnu/security"
    ∷ []

unfoldable pub pam_module_dir : Computer → Option Text
pam_module_dir h = find (λ dir. h.is_file (child dir (codes "pam_unix.so"))) module_dirs

abbrev pub takes_password : Text → Bool
takes_password line =
    not (is_some (strip_prefix (codes "#") (trim_start line)))
    && (contains line (codes "pam_unix.so")
        && (contains line (codes "try_first_pass") || contains line (codes "use_first_pass")))

abbrev any_line : (Text → Bool) → Option Text → Bool
any_line p none = false
any_line p (some text) = any p (lines text)

unfoldable unix_takes_password : Computer → Bool
unfolding lines strip_prefix trim_start contains
unix_takes_password h =
    any (λ file. any_line takes_password (h.read (codes "/etc/pam.d/" ++ file)))
      (codes "system-auth" ∷ codes "common-auth" ∷ codes "password-auth" ∷ [])

abbrev has_module : Computer → Option Text → Bool
has_module h none = false
has_module h (some dir) = h.is_file (child dir (codes "pam_passkey.so"))

-- The condition under which `pam_line` names the module of passkey.
unfoldable uses_module : Computer → Bool
unfolding pam_module_dir unix_takes_password
uses_module h = has_module h (pam_module_dir h) && unix_takes_password h

-- `package`, with the words of the distribution.
abbrev id_value : Text → Option Text
id_value line = or_else (strip_prefix (codes "ID=") line) (strip_prefix (codes "ID_LIKE=") line)

abbrev words_of : Option Text → List Text
words_of none = []
words_of (some value) = split_whitespace (trim_end_matches 34 (trim_start_matches 34 value))

abbrev id_words : List Text → List Text
id_words [] = []
id_words (line ∷ ls) = words_of (id_value line) ++ id_words ls

abbrev pub has : Text → List Text → Bool
has id ids = any (λ value. same value id) ids

unfoldable package_of : Computer → Text → Text → Text → Text
unfolding lines strip_prefix split_whitespace trim_end_matches trim_start_matches same
package_of h arch debian fedora =
    let ids : List Text = id_words (lines (read_optional (h.read (codes "/etc/os-release")))) in
    if has (codes "arch") ids
    then arch
    else if has (codes "debian") ids || has (codes "ubuntu") ids
    then debian
    else if has (codes "fedora") ids || has (codes "rhel") ids
    then fedora
    else arch
      ++ (codes " (Arch) / " ++ (debian ++ (codes " (Debian) / " ++ (fedora ++ codes " (Fedora)"))))

abbrev in_path : Computer → Text → Option (List Text) → Bool
in_path h program none = false
in_path h program (some dirs) = any (λ dir. h.is_file (child dir program)) dirs

unfoldable pub program_exists : Computer → Text → Bool
program_exists h program = in_path h program h.path

unfoldable has_systemd : Computer → Bool
has_systemd h = h.is_dir (codes "/run/systemd/system")

unfoldable pub has_bluetooth : Computer → Bool
unfolding has_systemd program_exists
has_bluetooth h =
    if has_systemd h
    then h.bluetooth_active
    else program_exists h (codes "bluetoothd") || h.is_file (codes "/usr/lib/bluetooth/bluetoothd")

-- How `check_environment` ends, by its error; the texts of the missing requirements are kept.
pub data Verdict : Type 0 where
  ready : Verdict
  no_pam : Verdict
  missing : List Text → Verdict
  no_transport : Verdict

abbrev pub unless : Bool → Text → List Text
unless true text = []
unless false text = text ∷ []

-- The requirements that the computer does not meet.
unfoldable pub missing_of : Computer → Text → List Text
unfolding package_of program_exists
missing_of h dir =
    unless (h.is_file (child dir (codes "pam_u2f.so"))) (
      codes "pam_u2f.so: " ++ package_of h (codes "pam-u2f") (codes "libpam-u2f") (codes "pam-u2f"))
    ++ (unless (h.is_file (child dir (codes "pam_passkey.so"))) (
          codes "pam_passkey.so is not in "
          ++ (dir ++ (codes " (install passkey with PAMDIR=" ++ (dir ++ codes ")"))))
        ++ (unless (program_exists h (codes "pamu2fcfg")) (
              codes "pamu2fcfg: "
              ++ package_of h (codes "pam-u2f") (codes "pamu2fcfg") (codes "pamu2fcfg"))
            ++ (unless (program_exists h (codes "fido2-token")) (
                  codes "fido2-token: "
                  ++ package_of h (codes "libfido2") (codes "fido2-tools") (codes "fido2-tools"))
                ++ unless (h.euid == 0 || program_exists h (codes "sudo"))
                    (codes "sudo (or run passkey as root)"))))

abbrev pub checked : Computer → List Text → Verdict
checked h (text ∷ texts) = missing (text ∷ texts)
checked h [] =
    if not (program_exists h (codes "adb"))
      && (not (has_bluetooth h) && not (h.is_dir (codes "/etc/passkey/wifi")))
    then no_transport
    else ready

abbrev pub with_modules : Computer → Option Text → Verdict
with_modules h none = no_pam
with_modules h (some dir) =
    if not (h.is_dir (codes "/etc/pam.d")) then no_pam else checked h (missing_of h dir)

unfoldable pub check_environment : Computer → Verdict
unfolding pam_module_dir missing_of program_exists has_bluetooth
check_environment h = with_modules h (pam_module_dir h)
