-- ===== src/Registry/Files.antt =====
-- The files of keys that the two commands write, and the handles after `root_remove`.
use passkey.Base.{
  All-filter, All-both, All-append, ◌≡◌, sym, ap, ◌∙◌, not, List, [], ◌∷◌, ◌++◌, Option, some,
  subst, if◌then◌else◌, same, same→eq, filter, All, arith, Bool-cases, Option-cases, inl, inr,
}
use mathlib.Core.Option.{some-injective}
use passkey.Base.Text.{Text, lines, split, join}
use passkey.Base.Split.{Without, Without-append, Without-join, unlines}
use passkey.Hid.{is_empty}
use passkey.Registry.{
  Store, read_optional, lines_file, owner, add_credential, other_credential, line_without,
  names_handle, owned, remove_lines, root_remove, or_default, handles_of, handles_for,
}
use passkey.Base.Lines.{IsLine, lines-IsLine, split-Without}
use passkey.Registry.Lines.{written, lines_file-unlines, lines-lines_file}
use passkey.Registry.Bodies.{body-written}
use passkey.Registry.Stored.{IsUser, IsCredential, stored, add_credential-IsLine}
use passkey.Registry.Removed.{gone}
use passkey.Registry.Once.{OwnedOnce, OwnedOnce-written, OwnedOnce-add, OwnedOnce-remove}
use passkey.Registry.Handles.{handles_in, handles-remove_lines, body_other-remove_lines}

-- The lines that `root_remove` writes.
line_without-IsLine :
    (handle : Text) (ts : List Text) → All IsLine ts → All IsLine (line_without handle ts)
line_without-IsLine handle [] h = tt
line_without-IsLine handle (user ∷ fields) h =
    elim (Bool-cases (is_empty (filter (other_credential handle) fields))) [
      | inl e ↦ rw e tt
      | inr e ↦ rw e (
        joined (filter (other_credential handle) fields)
            (All-filter IsLine (other_credential handle) fields h.1),
        tt,
      )
    ]
  where
    firsts : (us : List Text) → All IsLine us → All (Without 10) us
    firsts [] k = tt
    firsts (u ∷ us) k = (k.0.0, firsts us k.1)

    seconds : (us : List Text) → All IsLine us → All (Without 13) us
    seconds [] k = tt
    seconds (u ∷ us) k = (k.0.1, seconds us k.1)

    joined : (us : List Text) → All IsLine us → IsLine (owner user ++ join (58 ∷ []) us)
    joined us k = (
      Without-append 10 (owner user) (join (58 ∷ []) us)
          (Without-append 10 user (58 ∷ []) h.0.0 ((λ e. absurd (omega arith)), tt))
          (Without-join 10 58 us (λ e. absurd (omega arith)) (firsts us k)),
      Without-append 13 (owner user) (join (58 ∷ []) us)
          (Without-append 13 user (58 ∷ []) h.0.1 ((λ e. absurd (omega arith)), tt))
          (Without-join 13 58 us (λ e. absurd (omega arith)) (seconds us k)),
    )

remove_lines-IsLine :
    (user handle : Text) (ls : List Text) → All IsLine ls → All IsLine (remove_lines user handle ls)
unfolding remove_lines
remove_lines-IsLine user handle [] h = tt
remove_lines-IsLine user handle (line ∷ ls) h = elim (Bool-cases (owned user line)) [
  | inl e ↦ rw e (
      All-append IsLine (line_without handle (split 58 line)) (remove_lines user handle ls)
        (line_without-IsLine handle (split 58 line) (
          All-both (Without 10) (Without 13) (split 58 line) (split-Without 58 10 line h.0.0)
            (split-Without 58 13 line h.0.1)))
        (remove_lines-IsLine user handle ls h.1))
  | inr e ↦ rw e (h.0, remove_lines-IsLine user handle ls h.1)
]

-- The file of keys as the commands keep it.
pub record IsRegistry (s : Store) : Type 0 where
  pub no_return : Without 13 (read_optional s.keys)
  pub once : (user : Text) → Without 58 user → OwnedOnce user (lines (read_optional s.keys))

unlines-no_return : (ls : List Text) → All IsLine ls → Without 13 (unlines ls)
unlines-no_return [] h = tt
unlines-no_return (l ∷ ls) h =
    Without-append 13 l (10 ∷ unlines ls) h.0.1
      ((λ e. absurd (omega arith)), unlines-no_return ls h.1)

-- A file that is written from lines with one line for each user at most.
IsRegistry-file :
    (ls : List Text) (names : Option Text)
    → All IsLine ls
    → ((user : Text) → Without 58 user → OwnedOnce user ls)
    → IsRegistry (record { keys = some (lines_file ls); names = names })
IsRegistry-file ls names h k = record {
  no_return =
      subst (Without 13) (sym (lines_file-unlines ls))
        (unlines-no_return (written ls) (All-filter IsLine (λ line. not (is_empty line)) ls h));
  once = λ user u.
      subst (OwnedOnce user) (sym (lines-lines_file ls h)) (OwnedOnce-written user ls (k user u));
}

pub stored-IsRegistry :
    (user c name : Text) (s : Store)
    → IsUser user
    → IsCredential c
    → IsRegistry s
    → IsRegistry (stored user c name s)
stored-IsRegistry user c name s u k h =
    let ls : List Text = lines (read_optional s.keys) in
    IsRegistry-file (add_credential user (58 ∷ c) (written ls)) (stored user c name s).names
      (add_credential-IsLine user c (written ls) u.line k.line (
        All-filter IsLine (λ line. not (is_empty line)) ls
          (lines-IsLine (read_optional s.keys) h.no_return)))
      (λ other v.
        OwnedOnce-add user u.no_colon other v c (written ls)
          (OwnedOnce-written other ls (h.once other v)))

-- `root_remove` where there is a file of keys.
abbrev pub removed : Text → Text → Text → Store → Store
removed user handle keys s = record {
  keys = some (lines_file (remove_lines user handle (lines keys)));
  names = some (
      lines_file (
        filter (λ line. not (names_handle user handle (split 9 line)))
          (lines (read_optional s.names))));
}

pub root_remove-removed :
    (user handle keys : Text) (s : Store)
    → s.keys ≡ some keys
    → root_remove user handle s ≡ some (removed user handle keys s)
unfolding root_remove
root_remove-removed user handle keys s e = rw e

pub removed-IsRegistry :
    (user handle keys : Text) (s : Store)
    → IsUser user
    → s.keys ≡ some keys
    → IsRegistry s
    → IsRegistry (removed user handle keys s)
removed-IsRegistry user handle keys s u e h =
    let r : Without 13 keys = subst (λ t. Without 13 (read_optional t)) e h.no_return in
    IsRegistry-file (remove_lines user handle (lines keys)) (removed user handle keys s).names
      (remove_lines-IsLine user handle (lines keys) (lines-IsLine keys r))
      (λ other v.
        OwnedOnce-remove user u.no_colon other v handle (lines keys)
          (subst (λ t. OwnedOnce other (lines (read_optional t))) e (h.once other v)))

-- The handles of everyone after a removal.
pub handles_for-root_remove :
    (user other handle : Text) (s s' : Store)
    → IsUser user
    → IsUser other
    → IsRegistry s
    → root_remove user handle s ≡ some s'
    → handles_for other s'
      ≡ (if same user other then gone handle (handles_for other s) else handles_for other s)
unfolding handles_for root_remove
handles_for-root_remove user other handle s s' u v h e = elim (Option-cases s.keys) [
  | inl n ↦ cc (rw n at e)
  | inr (keys, n) ↦
      let ls : List Text = lines keys in
      let is : removed user handle keys s ≡ s' =
        some-injective (removed user handle keys s) s'
          (sym (root_remove-removed user handle keys s n) ∙ e) in
      let r : Without 13 keys = subst (λ t. Without 13 (read_optional t)) n h.no_return in
      let once : OwnedOnce other ls =
        subst (λ t. OwnedOnce other (lines (read_optional t))) n (h.once other v.no_colon) in
      let read : handles_for other s' ≡ handles_in other (remove_lines user handle ls) =
        ap (λ t. handles_in other (lines (read_optional t.keys))) (sym is)
        ∙ ap (handles_in other) (
            lines-lines_file (remove_lines user handle ls)
              (remove_lines-IsLine user handle ls (lines-IsLine keys r)))
        ∙ ap (λ o. handles_of (or_default o)) (body-written other (remove_lines user handle ls)) in
      let before : handles_for other s ≡ handles_in other ls =
        ap (λ t. handles_in other (lines (read_optional t))) n in
      read ∙ elim (Bool-cases (same user other)) [
        | inl q ↦
            let p : user ≡ other = same→eq user other q in
            rw q (
              ap (λ t. handles_in other (remove_lines t handle ls)) p
              ∙ handles-remove_lines other handle ls v.no_colon once
              ∙ ap (gone handle) (sym before))
        | inr q ↦ rw q (
            ap (λ o. handles_of (or_default o))
              (body_other-remove_lines user other handle ls q u.no_colon v.no_colon)
            ∙ sym before)
      ]
]
