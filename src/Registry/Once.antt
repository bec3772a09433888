-- ===== src/Registry/Once.antt =====
-- A user has one line at most in the file of keys: `root_store` and `root_remove` keep it so.
use passkey.Base.{
  ◌≡◌, sym, ap, ◌∙◌, true, false, List, [], ◌∷◌, ◌++◌, none, some, subst, same, same→eq, All,
  Bool-cases, Option-cases, ◌⊎◌, inl, inr,
}
use passkey.Base.Text.{Text, strip_prefix}
use passkey.Base.Split.{Without}
use passkey.Registry.{owner, add_credential, remove_lines}
use passkey.Registry.Lines.{written}
use passkey.Registry.Bodies.{owned-other, strip-owner, strip-extend}
use passkey.Registry.Removed.{Rest, remove_lines-Rest, remove_lines-other, strip-kept}

-- No line of the file is the user's.
abbrev pub Free : Text → List Text → Type 0
Free user ls = All (λ t. strip_prefix (owner user) t ≡ none) ls

-- At most one line of the file is the user's.
abbrev pub OwnedOnce : Text → List Text → Type 0
OwnedOnce user [] = Unit {0}
OwnedOnce user (line ∷ ls) =
    ((b : Text) → strip_prefix (owner user) line ≡ some b → Free user ls) × OwnedOnce user ls

Free-written : (user : Text) (ls : List Text) → Free user ls → Free user (written ls)
Free-written user [] h = tt
Free-written user ([] ∷ ls) h = Free-written user ls h.1
Free-written user ((c ∷ t) ∷ ls) h = (h.0, Free-written user ls h.1)

pub OwnedOnce-written :
    (user : Text) (ls : List Text) → OwnedOnce user ls → OwnedOnce user (written ls)
OwnedOnce-written user [] h = tt
OwnedOnce-written user ([] ∷ ls) h = OwnedOnce-written user ls h.1
OwnedOnce-written user ((c ∷ t) ∷ ls) h =
    ((λ b e. Free-written user ls (h.0 b e)), OwnedOnce-written user ls h.1)

module _ (user : Text) (u : Without 58 user) (other : Text) (v : Without 58 other) where
  -- A line of the user is not another's.
  not_both :
      (line a b : Text)
      → same user other ≡ false
      → strip_prefix (owner user) line ≡ some a
      → strip_prefix (owner other) line ≡ some b
      → ⊥
  not_both line a b q e f =
      let g : strip_prefix (owner other) line ≡ none = owned-other user other line a q u v e in
      cc (sym f ∙ g)

  Free-add :
      (c : Text) (ls : List Text)
      → same user other ≡ false
      → Free other ls
      → Free other (add_credential user (58 ∷ c) ls)
  unfolding add_credential
  Free-add c [] q h = (owned-other user other (user ++ 58 ∷ c) c q u v (strip-owner user c), tt)
  Free-add c (line ∷ ls) q h = elim (Option-cases (strip_prefix (owner user) line)) [
    | inl e ↦ rw e (h.0, Free-add c ls q h.1)
    | inr (b, e) ↦ rw e (
      owned-other user other (line ++ 58 ∷ c) (b ++ 58 ∷ c) q u v
          (strip-extend (owner user) line b (58 ∷ c) e),
      h.1,
    )
  ]

  -- `root_store` adds a line only for a user without one.
  pub OwnedOnce-add :
      (c : Text) (ls : List Text)
      → OwnedOnce other ls
      → OwnedOnce other (add_credential user (58 ∷ c) ls)
  unfolding add_credential
  OwnedOnce-add c [] h = ((λ b e. tt), tt)
  OwnedOnce-add c (line ∷ ls) h = elim (Option-cases (strip_prefix (owner user) line)) [
    | inl e ↦
        rw e ((λ b f. still_free e b f (Bool-cases (same user other))), OwnedOnce-add c ls h.1)
    | inr (a, e) ↦ rw e ((λ b f. rest_free a e b f (Bool-cases (same user other))), h.1)
  ]
    where
      still_free :
          strip_prefix (owner user) line ≡ none
          → (b : Text) → strip_prefix (owner other) line ≡ some b
          → (same user other ≡ true) ⊎ (same user other ≡ false)
          → Free other (add_credential user (58 ∷ c) ls)
      still_free e b f (inl q) =
          let p : user ≡ other = same→eq user other q in
          absurd (cc (sym f ∙ ap (λ t. strip_prefix (owner t) line) (sym p) ∙ e))
      still_free e b f (inr q) = Free-add c ls q (h.0 b f)

      rest_free :
          (a : Text)
          → strip_prefix (owner user) line ≡ some a
          → (b : Text) → strip_prefix (owner other) (line ++ 58 ∷ c) ≡ some b
          → (same user other ≡ true) ⊎ (same user other ≡ false)
          → Free other ls
      rest_free a e b f (inl q) =
          h.0 a (ap (λ t. strip_prefix (owner t) line) (sym (same→eq user other q)) ∙ e)
      rest_free a e b f (inr q) = absurd (
          not_both (line ++ 58 ∷ c) (a ++ 58 ∷ c) b q (strip-extend (owner user) line a (58 ∷ c) e)
            f)

  Free-remove :
      (handle : Text) (ls : List Text) → Free other ls → Free other (remove_lines user handle ls)
  unfolding remove_lines
  Free-remove handle [] h = tt
  Free-remove handle (line ∷ ls) h = elim (Option-cases (strip_prefix (owner user) line)) [
    | inl e ↦
        subst (Free other) (sym (remove_lines-other user handle line ls e))
          (h.0, Free-remove handle ls h.1)
    | inr (b, e) ↦
        rest b e (remove_lines user handle (line ∷ ls))
          (remove_lines-Rest user handle line b ls u e) (Free-remove handle ls h.1)
          (Bool-cases (same user other))
  ]
    where
      rest :
          (b : Text)
          → strip_prefix (owner user) line ≡ some b
          → (out : List Text) → Rest user handle b ls out
          → Free other (remove_lines user handle ls)
          → (same user other ≡ true) ⊎ (same user other ≡ false)
          → Free other out
      rest b e out (Rest.dropped n o) ih q = subst (Free other) (sym o) ih
      rest b e out (Rest.kept t k o) ih (inl q) =
          let p : user ≡ other = same→eq user other q in
          absurd (cc (sym e ∙ ap (λ t. strip_prefix (owner t) line) p ∙ h.0))
      rest b e out (Rest.kept t k o) ih (inr q) =
          subst (Free other) (sym o)
            (owned-other user other (owner user ++ t) t q u v (strip-kept user t), ih)

  -- `root_remove` adds none.
  pub OwnedOnce-remove :
      (handle : Text) (ls : List Text)
      → OwnedOnce other ls
      → OwnedOnce other (remove_lines user handle ls)
  unfolding remove_lines
  OwnedOnce-remove handle [] h = tt
  OwnedOnce-remove handle (line ∷ ls) h = elim (Option-cases (strip_prefix (owner user) line)) [
    | inl e ↦
        subst (OwnedOnce other) (sym (remove_lines-other user handle line ls e))
          ((λ b f. Free-remove handle ls (h.0 b f)), OwnedOnce-remove handle ls h.1)
    | inr (b, e) ↦
        rest b e (remove_lines user handle (line ∷ ls))
          (remove_lines-Rest user handle line b ls u e) (OwnedOnce-remove handle ls h.1)
          (Bool-cases (same user other))
  ]
    where
      rest :
          (b : Text)
          → strip_prefix (owner user) line ≡ some b
          → (out : List Text) → Rest user handle b ls out
          → OwnedOnce other (remove_lines user handle ls)
          → (same user other ≡ true) ⊎ (same user other ≡ false)
          → OwnedOnce other out
      rest b e out (Rest.dropped n o) ih q = subst (OwnedOnce other) (sym o) ih
      rest b e out (Rest.kept t k o) ih (inl q) =
          let mine : strip_prefix (owner other) line ≡ some b =
            ap (λ t. strip_prefix (owner t) line) (sym (same→eq user other q)) ∙ e in
          subst (OwnedOnce other) (sym o) ((λ b' f. Free-remove handle ls (h.0 b mine)), ih)
      rest b e out (Rest.kept t k o) ih (inr q) =
          subst (OwnedOnce other) (sym o)
            ((λ b' f. absurd (not_both (owner user ++ t) t b' q (strip-kept user t) f)), ih)
