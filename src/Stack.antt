-- ===== src/Stack.antt =====
-- src/cli.rs: the line of a PAM service that `passkey configure` adds and `passkey uninstall` takes
-- out again, over the lines of the service's file.
pub mod Loop
pub mod Undo
pub mod Service
use passkey.Base.{
  ℕ, Bool, true, false, not, ◌&&◌, ◌||◌, List, [], ◌∷◌, ◌++◌, Option, none, some, if◌then◌else◌,
  ◌==◌, same, any, filter,
}
use passkey.Base.Text.{Text, codes, lines, join, contains, strip_prefix, trim_start}
use passkey.Hid.{is_some, is_empty}

abbrev pub mark : Text
mark = codes "# passkey: fingerprint from your Android device (undo with: passkey uninstall)"

abbrev pub keys_path : Text
keys_path = codes "/etc/passkey/u2f_keys"

-- The services of `ON_EMPTY`.
abbrev pub on_empty : List Text
on_empty =
    codes "kde" ∷ codes "plasmalogin" ∷ codes "sddm" ∷ codes "gdm-password" ∷ codes "lightdm" ∷ []

-- `pam_line`, for a host name and for whether the module is installed and the stack's pam_unix
-- takes a password that was typed before.
unfoldable pub pam_line : Text → Bool → Text → Text
unfolding same
pam_line hostname takes_password service =
    let mode : Text = if any (same service) on_empty then codes "on-empty" else codes "parallel" in
    let origin : Text = codes "pam://" ++ hostname in
    let u2f : Text =
      codes "authfile="
      ++ (keys_path
          ++ (codes " origin="
              ++ (origin
                  ++ (codes " appid=" ++ (origin ++ codes " userverification=1 nouserok"))))) in
    if takes_password
    then codes "-auth      sufficient   pam_passkey.so mode=" ++ (mode ++ (codes " " ++ u2f))
    else codes "-auth      sufficient   pam_u2f.so "
      ++ (u2f
          ++ codes
              " cue [cue_prompt=Confirm with your fingerprint on your device, or reject there to type your password]")

abbrev without_dash : Text → Option Text → Text
without_dash line (some rest) = rest
without_dash line none = line

unfoldable pub is_auth : Text → Bool
unfolding same trim_start strip_prefix
is_auth line =
    let rest = without_dash (trim_start line) (strip_prefix (codes "-") (trim_start line)) in
    same rest (codes "auth")
    || is_some (strip_prefix (codes "auth ") rest)
    || is_some (strip_prefix (codes "auth\t") rest)

unfoldable pub is_guard : Text → Bool
unfolding contains
is_guard line =
    any (contains line) (
      codes "pam_nologin.so"
      ∷ codes "pam_securetty.so"
      ∷ codes "pam_shells.so"
      ∷ codes "pam_rootok.so"
      ∷ [])
    || contains line (codes "pam_faillock.so") && contains line (codes "preauth")

unfoldable pub is_ours : Text → Bool
unfolding same contains
is_ours line =
    same line mark
    || (contains line (codes "pam_passkey.so") || contains line (codes "pam_u2f.so"))
      && contains line (codes "authfile=" ++ keys_path)

-- `if output.last() == Some(&MARK) { output.pop(); }`; the output is kept newest line first.
abbrev pop_mark : List Text → List Text
pop_mark [] = []
pop_mark (line ∷ output) = if same line mark then output else line ∷ output

-- The loop of `pam_add`. The result has the output and whether the line was inserted.
unfoldable pub add_loop : Text → List Text → Bool → List Text → List Text × Bool
add_loop wanted output inserted [] = (output, inserted)
add_loop wanted output inserted (line ∷ rest) =
    let marked = add_loop wanted (line ∷ output) inserted rest in
    let dropped = add_loop wanted output true rest in
    let replaced = add_loop wanted (wanted ∷ output) true rest in
    let placed = add_loop wanted (line ∷ wanted ∷ mark ∷ pop_mark output) true rest in
    if same line mark
    then marked
    else if is_ours line
    then (if inserted then dropped else replaced)
    else if not inserted && (is_auth line && not (is_guard line))
    then placed
    else marked

abbrev pub rev_append {ℓ} : {A : Type ℓ} → List A → List A → List A
rev_append [] ys = ys
rev_append (x ∷ xs) ys = rev_append xs (x ∷ ys)

abbrev if_inserted : List Text × Bool → Option (List Text)
if_inserted (output, inserted) = if inserted then some (rev_append output []) else none

-- `pam_add` on the lines of the file: the new lines, or none if the file stays as it is.
unfoldable pub add : Text → List Text → Option (List Text)
unfolding add_loop
add wanted input =
    if any (λ line. same line wanted) input
    then none
    else if_inserted (add_loop wanted [] false input)

-- `pam_remove` on the lines of the file.
unfoldable pub remove : List Text → Option (List Text)
remove input =
    if not (any is_ours input) then none else some (filter (λ line. not (is_ours line)) input)
