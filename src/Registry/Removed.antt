-- ===== src/Registry/Removed.antt =====
-- What `root_remove` does to the handles of the users.
use passkey.Base.{
  All-filter, ◌≡◌, refl, sym, ap, ◌∙◌, not, List, [], ◌∷◌, ◌++◌, none, some, ◌⊎◌, subst, same,
  filter, append_assoc, map, All, Bool-cases, inl, inr,
}
use passkey.Base.Text.{Text, split, strip_prefix, join}
use passkey.Base.Split.{Without, split-append, split-join}
use passkey.Hid.{is_empty}
use passkey.Registry.{owner, handle_of, other_credential, line_without, remove_lines, handles_of}
use passkey.Base.Lines.{split_self}
use passkey.Registry.Bodies.{strip_some, strip-owner}

abbrev pub gone : Text → List Text → List Text
gone handle ts = filter (λ t. not (same t handle)) ts

List-cases {ℓ} : {A : Type ℓ} (xs : List A) → (xs ≡ []) ⊎ ((y : A) × (ys : List A) × (xs ≡ y ∷ ys))
List-cases [] = inl refl
List-cases (x ∷ xs) = inr (x, xs, refl)

-- The handles that are left are those of the credentials that are left.
handles-gone :
    (handle : Text) (ts : List Text)
    → filter (λ t. not (is_empty t)) (map handle_of (filter (other_credential handle) ts))
      ≡ gone handle (filter (λ t. not (is_empty t)) (map handle_of ts))
handles-gone handle [] = refl
handles-gone handle (t ∷ ts) = elim (Bool-cases (same (handle_of t) handle)) [
  | inl e ↦ elim (Bool-cases (is_empty (handle_of t))) [
    | inl n ↦ rw (e, n) (handles-gone handle ts)
    | inr n ↦ rw (e, n, e) (handles-gone handle ts)
  ]
  | inr e ↦ elim (Bool-cases (is_empty (handle_of t))) [
    | inl n ↦ rw (e, n) (handles-gone handle ts)
    | inr n ↦ rw (e, n, e) (ap (λ us. handle_of t ∷ us) (handles-gone handle ts))
  ]
]

-- The credentials of a line that `root_remove` keeps.
abbrev pub left : Text → Text → List Text
left handle b = filter (other_credential handle) (split 58 b)

handles-left :
    (handle b t : Text) (ts : List Text)
    → left handle b ≡ t ∷ ts
    → handles_of (join (58 ∷ []) (t ∷ ts)) ≡ gone handle (handles_of b)
handles-left handle b t ts e =
    ap (λ us. filter (λ u. not (is_empty u)) (map handle_of us))
      (split-join 58 t ts (
          subst (All (Without 58)) e
            (All-filter (Without 58) (other_credential handle) (split 58 b) (split_self 58 b)))
        ∙ sym e)
    ∙ handles-gone handle (split 58 b)

pub handles-left_nil : (handle b : Text) → left handle b ≡ [] → [] ≡ gone handle (handles_of b)
handles-left_nil handle b e =
    ap (λ us. filter (λ u. not (is_empty u)) (map handle_of us)) (sym e)
    ∙ handles-gone handle (split 58 b)

-- One line of the loop.
split-owned :
    (user line b : Text)
    → Without 58 user
    → strip_prefix (owner user) line ≡ some b
    → split 58 line ≡ user ∷ split 58 b
split-owned user line b h e =
    ap (split 58) (strip_some (owner user) line b e ∙ append_assoc user (58 ∷ []) b)
    ∙ split-append 58 user b h

pub remove_lines-other :
    (user handle line : Text) (ls : List Text)
    → strip_prefix (owner user) line ≡ none
    → remove_lines user handle (line ∷ ls) ≡ line ∷ remove_lines user handle ls
unfolding remove_lines
remove_lines-other user handle line ls e = rw e

remove_lines-owned :
    (user handle line b : Text) (ls : List Text)
    → Without 58 user
    → strip_prefix (owner user) line ≡ some b
    → remove_lines user handle (line ∷ ls)
      ≡ line_without handle (user ∷ split 58 b) ++ remove_lines user handle ls
unfolding remove_lines
remove_lines-owned user handle line b ls h e = rw (e, split-owned user line b h e)

line_without-nil :
    (user handle b : Text) → left handle b ≡ [] → line_without handle (user ∷ split 58 b) ≡ []
line_without-nil user handle b e = rw e

line_without-cons :
    (user handle b t : Text) (ts : List Text)
    → left handle b ≡ t ∷ ts
    → line_without handle (user ∷ split 58 b) ≡ (owner user ++ join (58 ∷ []) (t ∷ ts)) ∷ []
line_without-cons user handle b t ts e = rw e

pub strip-kept : (user t : Text) → strip_prefix (owner user) (owner user ++ t) ≡ some t
strip-kept user t =
    ap (strip_prefix (owner user)) (append_assoc user (58 ∷ []) t) ∙ strip-owner user t

-- What the loop makes of the user's first line.
pub data Rest (user handle b : Text) (ls out : List Text) : Type 0 where
  dropped : left handle b ≡ [] → out ≡ remove_lines user handle ls → Rest user handle b ls out
  kept :
      (t : Text)
      → handles_of t ≡ gone handle (handles_of b)
      → out ≡ (owner user ++ t) ∷ remove_lines user handle ls
      → Rest user handle b ls out

pub remove_lines-Rest :
    (user handle line b : Text) (ls : List Text)
    → Without 58 user
    → strip_prefix (owner user) line ≡ some b
    → Rest user handle b ls (remove_lines user handle (line ∷ ls))
remove_lines-Rest user handle line b ls h e = elim (List-cases (left handle b)) [
  | inl n ↦ dropped n (
      remove_lines-owned user handle line b ls h e
      ∙ ap (λ out. out ++ remove_lines user handle ls) (line_without-nil user handle b n))
  | inr (t, ts, n) ↦ kept (join (58 ∷ []) (t ∷ ts)) (handles-left handle b t ts n) (
      remove_lines-owned user handle line b ls h e
      ∙ ap (λ out. out ++ remove_lines user handle ls) (line_without-cons user handle b t ts n))
]
