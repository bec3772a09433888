-- ===== src/Pam.antt =====
-- pam/src/lib.rs: the PAM module. The password prompt and the helper that asks the phones run
-- beside each other; what they give enters as one observation for each round of the loop. A
-- status of PAM is a natural number here.
pub mod Success
pub mod Finish
use passkey.Base.{
  ℕ, zero, suc, Bool, true, false, not, ◌&&◌, ◌||◌, List, [], ◌∷◌, ◌++◌, Option, none, some,
  if◌then◌else◌, ltb, ◌==◌, same, any, take, drop,
}
use passkey.Base.Text.{Text, codes, lines, strip_prefix}
use passkey.Hid.{is_empty, is_some}
use passkey.Auth.{line_of}

abbrev pub pam_success : ℕ
pam_success = 0

abbrev pam_conv_err : ℕ
pam_conv_err = 19

abbrev pub pam_ignore : ℕ
pam_ignore = 25

abbrev max_args : ℕ
max_args = 32

-- `PromptResult`; no answer is the null pointer.
pub record PromptResult : Type 0 where
  pub status : ℕ
  pub answer : Option Text

-- `Ask::answer`: the helper's verdict, none yet, or an error of the pipe.
pub data Answer : Type 0 where
  verdict : Bool → Answer
  waiting : Answer
  broken : Answer

-- One round of the loop: the prompt's result, if it has come; the status of `pam_set_item` and
-- whether the helper starts, for the case that they are called; the helper's answer; and whether
-- its deadline has passed.
pub record Tick : Type 0 where
  pub prompt : Option PromptResult
  pub set_item : ℕ
  pub starts : Bool
  pub answer : Answer
  pub expired : Bool

-- The variables of the loop. `authtok` is the item that `pam_set_item` was called with.
pub record Login : Type 0 where
  pub asking : Bool
  pub tries : ℕ
  pub prompting : Bool
  pub result : ℕ
  pub authtok : Option Text

pub data Next : Type 0 where
  go : Login → Next
  stop : Login → Next

-- The empty answer: the helper is asked, again if need be.
abbrev restart : Bool → Login → Login
restart starts s =
    if not s.asking && ltb s.tries 3
    then if starts then record s { asking = true; tries = suc s.tries } else s
    else s

abbrev go_if_asking : Login → Next
go_if_asking s = if s.asking then go s else stop s

-- The result of the prompt, which runs no longer.
unfoldable pub entered : Tick → ℕ → Option Text → Login → Next
entered t status none s =
    stop (record s { result = if status == pam_success then pam_conv_err else status })
entered t status (some []) s =
    if not (status == pam_success)
    then stop (record s { result = status })
    else go_if_asking (restart t.starts s)
entered t status (some (c ∷ text)) s =
    if not (status == pam_success)
    then stop (record s { result = status })
    else stop (record s {
      result = if t.set_item == pam_success then pam_ignore else t.set_item;
      authtok = some (c ∷ text);
    })

unfoldable pub hear : Tick → Option PromptResult → Login → Next
unfolding entered
hear t none s = go s
hear t (some p) s =
    if s.prompting then entered t p.status p.answer (record s { prompting = false }) else go s

-- The helper's answer is no approval, or none came in time.
abbrev give_up : Login → Next
give_up s =
    if s.prompting then go (record s { asking = false }) else stop (record s { asking = false })

unfoldable pub judge : Tick → Answer → Login → Next
judge t (verdict approved) s =
    if not s.asking
    then give_up s
    else if approved
    then stop (record s { asking = false; result = pam_success })
    else give_up s
judge t waiting s = if not s.asking then give_up s else if t.expired then give_up s else go s
judge t broken s = if not s.asking then give_up s else go (record s { asking = false })

abbrev pub and_then : Next → (Login → Next) → Next
and_then (stop s) f = stop s
and_then (go s) f = f s

unfoldable pub step : Tick → Login → Next
unfolding hear judge
step t s = and_then (hear t t.prompt s) (judge t t.answer)

-- The `loop`. `none` means that the observations ended before it did.
unfoldable pub loop : List Tick → Login → Option Login
unfolding step
loop [] s = none
loop (t ∷ ts) s = elim (step t s) [ go s' ↦ loop ts s' | stop s' ↦ some s' ]

-- The options of `authenticate`.
pub record Config : Type 0 where
  pub on_empty : Bool
  pub helper : Text
  pub authfile : Option Text
  pub options : List Text

abbrev other_arg : Config → Text → Option Text → Config
other_arg c arg none = record c { options = c.options ++ arg ∷ [] }
other_arg c arg (some file) = record c { authfile = some file; options = c.options ++ arg ∷ [] }

abbrev arg_of : Config → Text → Option Text → Config
arg_of c arg (some path) = record c { helper = path }
arg_of c arg none = other_arg c arg (strip_prefix (codes "authfile=") arg)

unfoldable pub parse : Config → List Text → Config
unfolding same strip_prefix
parse c [] = c
parse c (arg ∷ args) =
    parse
      (if same arg (codes "mode=on-empty")
        then record c { on_empty = true }
        else if same arg (codes "mode=parallel")
        then c
        else arg_of c arg (strip_prefix (codes "helper=") arg))
      args

-- `device_present`, over the contents of the uevent files.
abbrev has_device : Option Text → Bool
has_device none = false
has_device (some text) =
    any (λ line. same line (codes "HID_ID=0003:00001209:00007AB1")) (lines text)

unfoldable device_present : List (Option Text) → Bool
unfolding lines same
device_present files = any has_device files

abbrev is_registration : Option Text → Bool
is_registration none = false
is_registration (some rest) = not (is_empty rest)

unfoldable user_registered : Option Text → Text → Bool
unfolding lines line_of
user_registered none user = false
user_registered (some text) user = any (λ line. is_registration (line_of user line)) (lines text)

-- What `authenticate` meets: the uevent files, the file system, the user that `pam_get_user`
-- gives, and whether the helper starts at once.
pub record Host : Type 0 where
  pub default_helper : Text
  pub uevents : List (Option Text)
  pub read_file : Text → Option Text
  pub executable : Text → Bool
  pub user : Option Text
  pub starts : Bool

abbrev pub config : Host → List Text → Config
config w args =
    parse (record { on_empty = false; helper = w.default_helper; authfile = none; options = [] })
      (take max_args args)

-- The guards before the loop.
unfoldable pub is_ready : Host → Config → Option Text → Option Text → Bool
unfolding device_present user_registered
is_ready w c none user = false
is_ready w c (some authfile) none = false
is_ready w c (some authfile) (some user) =
    device_present w.uevents && user_registered (w.read_file authfile) user && w.executable c.helper

abbrev pub begun : Bool → Login
begun asking = record {
  asking = asking;
  tries = if asking then 1 else 0;
  prompting = true;
  result = pam_ignore;
  authtok = none;
}

abbrev pub idle : Login
idle = record { asking = false; tries = 0; prompting = false; result = pam_ignore; authtok = none }

-- `authenticate`, for pointers that are not null: the loop's last state, whose `result` is the
-- status that is returned. In the mode on-empty the helper is not started yet.
unfoldable pub authenticate : Host → List Text → List Tick → Option Login
unfolding is_ready parse loop
authenticate w args ticks =
    let c = config w args in
    if is_ready w c c.authfile w.user
    then loop ticks (begun (not c.on_empty && w.starts))
    else some idle
