-- ===== src/Stack/Service.antt =====
-- src/cli.rs: the files of a PAM service around its lines, and the loops of `configure` and
-- `uninstall` over the services.
pub mod Written
pub mod Restored
pub mod Every
use passkey.Base.{
  Bool, true, false, ◌&&◌, ◌||◌, List, [], ◌∷◌, ◌++◌, Option, none, some, if◌then◌else◌, same,
}
use passkey.Base.Text.{Text, codes, lines, join}
use passkey.Stack.{add, remove, pam_line, on_empty}

-- The content of the service's file in /etc/pam.d (where that is a link, of the file it leads to)
-- and in /usr/lib/pam.d, and whether /etc/passkey/copied has its marker.
pub record Service : Type 0 where
  pub etc : Option Text
  pub vendor : Option Text
  pub copied : Bool

-- `format!("{}\n", lines.join("\n"))`.
abbrev pub joined : List Text → Text
joined ls = join (codes "\n") ls ++ codes "\n"

abbrev write_added : Bool → Service → Option (List Text) → Service
write_added copied f none = f
write_added copied f (some output) = record f {
  etc = some (joined output);
  copied = copied || f.copied;
}

-- `pam_add`, for the line that `pam_line` gives.
unfoldable pub pam_add : Text → Service → Service
unfolding add lines join
pam_add wanted f = elim f.etc [
  | some text ↦ write_added false f (add wanted (lines text))
  | none ↦ elim f.vendor [ some text ↦ write_added true f (add wanted (lines text)) | none ↦ f ]
]

abbrev equals : Option Text → Text → Bool
equals none text = false
equals (some t) text = same t text

abbrev write_restored : Service → Option (List Text) → Service
write_restored f none = f
write_restored f (some ls) =
    if f.copied && equals f.vendor (joined ls)
    then record f { etc = none; copied = false }
    else record f { etc = some (joined ls); copied = false }

unfoldable pub pam_remove : Service → Service
unfolding remove lines join same
pam_remove f = elim f.etc [ some text ↦ write_restored f (remove (lines text)) | none ↦ f ]

-- `PARALLEL.iter().chain(ON_EMPTY)`.
abbrev pub services : List Text
services = codes "sudo" ∷ codes "sudo-i" ∷ codes "su" ∷ codes "login" ∷ codes "polkit-1" ∷ on_empty

-- A loop that changes the files of one service after another.
unfoldable pub for_each : (Text → Service → Service) → List Text → (Text → Service) → Text → Service
unfolding same
for_each op [] files = files
for_each op (s ∷ ss) files = for_each op ss (λ t. if same t s then op s (files s) else files t)

-- The loop of `configure`, and that of `uninstall`.
unfoldable pub add_all : Text → Bool → (Text → Service) → Text → Service
unfolding for_each pam_add pam_line
add_all hostname takes_password files =
    for_each (λ service. pam_add (pam_line hostname takes_password service)) services files

unfoldable pub remove_all : (Text → Service) → Text → Service
unfolding for_each pam_remove
remove_all files = for_each (λ service. pam_remove) services files
