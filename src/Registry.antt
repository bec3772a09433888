-- ===== src/Registry.antt =====
-- src/cli.rs: the registered keys of the users, and their names. `root_store` and `root_remove`
-- rewrite the two files, `handles_for` and `names_for` read them, and `remove` chooses a key by
-- its number or name. A file that does not exist is `none`.
pub mod Lines
pub mod Bodies
pub mod Stored
pub mod Removed
pub mod Once
pub mod Handles
pub mod Files
pub mod History
pub mod Names
pub mod Choice
use passkey.Base.{
  ℕ, zero, suc, Bool, true, false, not, ◌&&◌, ◌||◌, List, [], ◌∷◌, ◌++◌, Option, none, some, map,
  if◌then◌else◌, ◌==◌, same, any, filter, find_map,
}
use passkey.Base.Text.{
  Text, codes, lines, split, splitn, join, strip_prefix, trim_start_matches, first,
}
use passkey.Base.Decimal.{decimal}
use passkey.Hid.{is_empty, is_some}

pub record Store : Type 0 where
  pub keys : Option Text
  pub names : Option Text

abbrev pub read_optional : Option Text → Text
read_optional none = []
read_optional (some text) = text

unfoldable pub lines_file : List Text → Text
lines_file [] = []
lines_file (line ∷ ls) = if is_empty line then lines_file ls else line ++ 10 ∷ lines_file ls

-- `format!("{user}:")`.
abbrev pub owner : Text → Text
owner user = user ++ 58 ∷ []

abbrev pub owned : Text → Text → Bool
owned user line = is_some (strip_prefix (owner user) line)

-- The key of the user's line, or a line of its own if the user has none.
unfoldable pub add_credential : Text → Text → List Text → List Text
unfolding strip_prefix
add_credential user credential [] = (user ++ credential) ∷ []
add_credential user credential (line ∷ ls) =
    if owned user line then (line ++ credential) ∷ ls else line ∷ add_credential user credential ls

abbrev pub handle_of : Text → Text
handle_of credential = first (split 44 credential)

abbrev pub name_entry : Text → Text → Text → Text
name_entry user handle name = user ++ 9 ∷ (handle ++ 9 ∷ (name ++ 10 ∷ []))

abbrev pub is_break : ℕ → Bool
is_break c = c == 9 || c == 10 || c == 13

-- `root_store`, over the lines of its input. The result has no value where it is an error.
unfoldable pub store_lines : Text → List Text → Store → Option Store
unfolding lines lines_file add_credential split strip_prefix trim_start_matches
store_lines user (credential ∷ name ∷ rest) s =
    if not (is_some (strip_prefix (codes ":") credential)) || any is_break name
    then none
    else some (record {
      keys = some (
          lines_file (
            add_credential user credential
              (filter (λ line. not (is_empty line)) (lines (read_optional s.keys)))));
      names = some (
          lines_file (lines (read_optional s.names))
          ++ name_entry user (handle_of (trim_start_matches 58 credential)) name);
    })
store_lines user _ s = none

unfoldable pub root_store : Text → Text → Store → Option Store
unfolding store_lines lines
root_store user input s = store_lines user (lines input) s

-- The user's line without the credentials of a handle.
abbrev pub other_credential : Text → Text → Bool
other_credential handle credential = not (same (handle_of credential) handle)

abbrev pub line_without : Text → List Text → List Text
line_without handle [] = []
line_without handle (user ∷ fields) =
    let credentials : List Text = filter (other_credential handle) fields in
    if is_empty credentials then [] else (owner user ++ join (58 ∷ []) credentials) ∷ []

-- The loop of `root_remove`.
unfoldable pub remove_lines : Text → Text → List Text → List Text
unfolding strip_prefix split join same
remove_lines user handle [] = []
remove_lines user handle (line ∷ ls) =
    (if not (owned user line) then line ∷ [] else line_without handle (split 58 line))
    ++ remove_lines user handle ls

-- Whether the first two fields of a line of names are the user and the handle.
abbrev pub names_handle : Text → Text → List Text → Bool
names_handle user handle (u ∷ h ∷ rest) = same u user && same h handle
names_handle user handle _ = false

unfoldable pub root_remove : Text → Text → Store → Option Store
unfolding lines lines_file remove_lines split same
root_remove user handle s = elim s.keys [
  | none ↦ none
  | some keys ↦ some (record {
    keys = some (lines_file (remove_lines user handle (lines keys)));
    names = some (
        lines_file (
          filter (λ line. not (names_handle user handle (split 9 line)))
            (lines (read_optional s.names))));
  })
]

-- `unwrap_or_default`.
abbrev pub or_default : Option Text → Text
or_default none = []
or_default (some t) = t

-- `handles_for`, over the lines of the keys.
abbrev pub handles_of : Text → List Text
handles_of body = filter (λ handle. not (is_empty handle)) (map handle_of (split 58 body))

abbrev pub body_of : Text → List Text → Option Text
body_of user ls = find_map (strip_prefix (owner user)) ls

unfoldable pub handles_for : Text → Store → List Text
unfolding lines strip_prefix split
handles_for user s = handles_of (or_default (body_of user (lines (read_optional s.keys))))

-- The name on a line, if the line is the user's and the handle's.
abbrev pub name_on : Text → Text → List Text → Option Text
name_on user handle (u ∷ h ∷ rest) =
    if same u user && same h handle then some (first rest) else none
name_on user handle _ = none

abbrev pub name_of : Text → Text → List Text → Option Text
name_of user handle ls = find_map (λ line. name_on user handle (splitn 3 9 line)) ls

abbrev pub name_or : ℕ → Option Text → Text
name_or index none = codes "Android device " ++ decimal (suc index)
name_or index (some name) =
    if is_empty name then codes "Android device " ++ decimal (suc index) else name

abbrev pub names_from : Text → List Text → ℕ → List Text → List Text
names_from user ls index [] = []
names_from user ls index (handle ∷ handles) =
    name_or index (name_of user handle ls) ∷ names_from user ls (suc index) handles

unfoldable pub names_for : Text → Store → List Text
unfolding handles_for lines splitn same decimal
names_for user s = names_from user (lines (read_optional s.names)) 0 (handles_for user s)

-- `remove`: the key that the argument names, by its number or its name. `none` stands for the
-- error, and `some none` for the panic of `handles[index]`.
abbrev pub matches : Text → ℕ → Text → Bool
matches which index name = same which (decimal (suc index)) || same which name

abbrev pub position : Text → ℕ → List Text → Option ℕ
position which index [] = none
position which index (name ∷ names) =
    if matches which index name then some index else position which (suc index) names

abbrev pub get_elem? {ℓ} : {A : Type ℓ} → List A → ℕ → Option A
get_elem? [] i = none
get_elem? (x ∷ xs) zero = some x
get_elem? (x ∷ xs) (suc i) = get_elem? xs i

abbrev pub indexed : List Text → Option ℕ → Option (Option Text)
indexed handles none = none
indexed handles (some index) = some (get_elem? handles index)

unfoldable pub remove : Text → Text → Store → Option (Option Text)
unfolding names_for handles_for same decimal
remove user which s = indexed (handles_for user s) (position which 0 (names_for user s))
