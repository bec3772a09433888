-- ===== src/Registry/Handles.antt =====
-- The handles of the users after `root_remove`.
use passkey.Base.{
  ◌≡◌, refl, sym, ap, ◌∙◌, false, List, [], ◌∷◌, ◌++◌, none, some, same, Option-cases, inl, inr,
  or_else,
}
use passkey.Base.Text.{Text, strip_prefix}
use passkey.Base.Split.{Without}
use passkey.Registry.{owner, remove_lines, or_default, handles_of, body_of}
use passkey.Registry.Bodies.{owned-other, body-some, body-none}
use passkey.Registry.Stored.{handles_of-nil}
use passkey.Registry.Once.{Free, OwnedOnce}
use passkey.Registry.Removed.{
  gone, Rest, remove_lines-Rest, remove_lines-other, strip-kept, handles-left_nil,
}

body-unowned :
    (user handle : Text) (ls : List Text)
    → Free user ls
    → body_of user (remove_lines user handle ls) ≡ none
unfolding remove_lines
body-unowned user handle [] h = refl
body-unowned user handle (t ∷ ls) h =
    ap (body_of user) (remove_lines-other user handle t ls h.0)
    ∙ body-none user t (remove_lines user handle ls) h.0
    ∙ body-unowned user handle ls h.1

-- The handles that are read from some lines.
abbrev pub handles_in : Text → List Text → List Text
handles_in user ls = handles_of (or_default (body_of user ls))

handles_in-some :
    (user line b : Text) (ls : List Text)
    → strip_prefix (owner user) line ≡ some b
    → handles_in user (line ∷ ls) ≡ handles_of b
handles_in-some user line b ls e = ap (λ o. handles_of (or_default o)) (body-some user line b ls e)

handles_in-none :
    (user line : Text) (ls : List Text)
    → strip_prefix (owner user) line ≡ none
    → handles_in user (line ∷ ls) ≡ handles_in user ls
handles_in-none user line ls e = ap (λ o. handles_of (or_default o)) (body-none user line ls e)

pub handles-remove_lines :
    (user handle : Text) (ls : List Text)
    → Without 58 user
    → OwnedOnce user ls
    → handles_in user (remove_lines user handle ls) ≡ gone handle (handles_in user ls)
unfolding remove_lines
handles-remove_lines user handle [] h k = handles_of-nil ∙ ap (gone handle) (sym handles_of-nil)
handles-remove_lines user handle (line ∷ ls) h k =
    elim (Option-cases (strip_prefix (owner user) line)) [
      | inl e ↦
          ap (handles_in user) (remove_lines-other user handle line ls e)
          ∙ handles_in-none user line (remove_lines user handle ls) e
          ∙ handles-remove_lines user handle ls h k.1
          ∙ ap (gone handle) (sym (handles_in-none user line ls e))
      | inr (b, e) ↦
          owned_line b (k.0 b e) (remove_lines user handle (line ∷ ls))
            (remove_lines-Rest user handle line b ls h e)
          ∙ ap (gone handle) (sym (handles_in-some user line b ls e))
    ]
  where
    owned_line :
        (b : Text)
        → Free user ls
        → (out : List Text) → Rest user handle b ls out
        → handles_in user out ≡ gone handle (handles_of b)
    owned_line b free out (Rest.dropped n o) =
        ap (handles_in user) o
        ∙ ap (λ r. handles_of (or_default r)) (body-unowned user handle ls free)
        ∙ handles_of-nil
        ∙ handles-left_nil handle b n
    owned_line b free out (Rest.kept t e o) =
        ap (handles_in user) o
        ∙ handles_in-some user (owner user ++ t) t (remove_lines user handle ls) (strip-kept user t)
        ∙ e

-- The others keep their lines.
pub body_other-remove_lines :
    (user other handle : Text) (ls : List Text)
    → same user other ≡ false
    → Without 58 user
    → Without 58 other
    → body_of other (remove_lines user handle ls) ≡ body_of other ls
unfolding remove_lines
body_other-remove_lines user other handle [] q h k = refl
body_other-remove_lines user other handle (line ∷ ls) q h k =
    elim (Option-cases (strip_prefix (owner user) line)) [
      | inl e ↦
          ap (body_of other) (remove_lines-other user handle line ls e)
          ∙ ap (or_else (strip_prefix (owner other) line))
              (body_other-remove_lines user other handle ls q h k)
      | inr (b, e) ↦
          owned_line b (remove_lines user handle (line ∷ ls))
            (remove_lines-Rest user handle line b ls h e)
          ∙ body_other-remove_lines user other handle ls q h k
          ∙ sym (body-none other line ls (owned-other user other line b q h k e))
    ]
  where
    owned_line :
        (b : Text) (out : List Text)
        → Rest user handle b ls out
        → body_of other out ≡ body_of other (remove_lines user handle ls)
    owned_line b out (Rest.dropped n o) = ap (body_of other) o
    owned_line b out (Rest.kept t e o) =
        ap (body_of other) o
        ∙ body-none other (owner user ++ t) (remove_lines user handle ls)
            (owned-other user other (owner user ++ t) t q h k (strip-kept user t))
