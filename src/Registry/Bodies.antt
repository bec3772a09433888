-- ===== src/Registry/Bodies.antt =====
-- The line of a user in the file of keys, and what `root_store` makes of it.
use passkey.Base.{
  ℕ, ◌≡◌, ◌≢◌, refl, sym, ap, ◌∙◌, false, List, [], ◌∷◌, ◌++◌, Option, none, some, ◌==◌, ==_ne,
  ==_self, ==_iff, ne_of_==_false, same, or_else, append_assoc, Bool-cases, Option-cases, inl, inr,
}
use mathlib.Core.Option.{some-injective}
use passkey.Base.Text.{Text, extend, split, strip_prefix}
use passkey.Base.Split.{Without, strip-append}
use passkey.Registry.{owner, add_credential, body_of}
use passkey.Registry.Lines.{written}

strip-nil : (p : Text) → strip_prefix (owner p) [] ≡ none
unfolding strip_prefix
strip-nil [] = refl
strip-nil (c ∷ p) = refl

-- What a stripped text was.
pub strip_some : (p s b : Text) → strip_prefix p s ≡ some b → s ≡ p ++ b
unfolding strip_prefix
strip_some [] s b h = some-injective s b h
strip_some (c ∷ p) [] b h = cc h
strip_some (c ∷ p) (d ∷ s) b h = elim (Bool-cases (c == d)) [
  | inl e ↦
      let q : c ≡ d = (==_iff c d).0 e in let r : s ≡ p ++ b = strip_some p s b (rw e at h) in cc
  | inr e ↦ cc (rw e at h)
]

pub strip-extend :
    (p s b r : Text) → strip_prefix p s ≡ some b → strip_prefix p (s ++ r) ≡ some (b ++ r)
strip-extend p s b r h =
    ap (λ t. strip_prefix p (t ++ r)) (strip_some p s b h)
    ∙ ap (strip_prefix p) (append_assoc p b r)
    ∙ strip-append p (b ++ r)

-- A line has one owner.
strip-other :
    (u v t : Text)
    → same u v ≡ false
    → Without 58 u
    → Without 58 v
    → strip_prefix (owner v) (owner u ++ t) ≡ none
unfolding strip_prefix same
strip-other [] [] t h k l = cc h
strip-other [] (d ∷ v) t h k l = rw (==_ne d 58 l.0)
strip-other (c ∷ u) [] t h k l = rw (==_ne 58 c (λ e. k.0 (sym e)))
strip-other (c ∷ u) (d ∷ v) t h k l = elim (Bool-cases (c == d)) [
  | inl e ↦
      let q : c ≡ d = (==_iff c d).0 e in
      rw ((==_iff d c).1 (sym q)) (strip-other u v t (rw e at h) k.1 l.1)
  | inr e ↦ rw (==_ne d c (λ q. ne_of_==_false c d e (sym q)))
]

pub owned-other :
    (u v line b : Text)
    → same u v ≡ false
    → Without 58 u
    → Without 58 v
    → strip_prefix (owner u) line ≡ some b
    → strip_prefix (owner v) line ≡ none
owned-other u v line b h k l e =
    ap (strip_prefix (owner v)) (strip_some (owner u) line b e) ∙ strip-other u v b h k l

pub body-some :
    (user line b : Text) (ls : List Text)
    → strip_prefix (owner user) line ≡ some b
    → body_of user (line ∷ ls) ≡ some b
body-some user line b ls e = rw e

pub body-none :
    (user line : Text) (ls : List Text)
    → strip_prefix (owner user) line ≡ none
    → body_of user (line ∷ ls) ≡ body_of user ls
body-none user line ls e = rw e

-- Blank lines do not matter.
pub body-written : (user : Text) (ls : List Text) → body_of user (written ls) ≡ body_of user ls
body-written user [] = refl
body-written user ([] ∷ ls) = body-written user ls ∙ sym (body-none user [] ls (strip-nil user))
body-written user ((c ∷ l) ∷ ls) = elim (Option-cases (strip_prefix (owner user) (c ∷ l))) [
  | inl e ↦
      body-none user (c ∷ l) (written ls) e
      ∙ body-written user ls
      ∙ sym (body-none user (c ∷ l) ls e)
  | inr (b, e) ↦ body-some user (c ∷ l) b (written ls) e ∙ sym (body-some user (c ∷ l) b ls e)
]

pub strip-owner : (user c : Text) → strip_prefix (owner user) (user ++ 58 ∷ c) ≡ some c
strip-owner user c =
    ap (strip_prefix (owner user)) (sym (append_assoc user (58 ∷ []) c))
    ∙ strip-append (owner user) c

-- The user's line after `root_store`.
abbrev pub longer : Text → Option Text → Text
longer c none = c
longer c (some body) = body ++ 58 ∷ c

pub body-add_credential :
    (user c : Text) (ls : List Text)
    → body_of user (add_credential user (58 ∷ c) ls) ≡ some (longer c (body_of user ls))
unfolding add_credential
body-add_credential user c [] = body-some user (user ++ 58 ∷ c) c [] (strip-owner user c)
body-add_credential user c (l ∷ ls) = elim (Option-cases (strip_prefix (owner user) l)) [
  | inl e ↦
      rw e (body-none user l (add_credential user (58 ∷ c) ls) e ∙ body-add_credential user c ls)
  | inr (b, e) ↦
      rw e
        (body-some user (l ++ 58 ∷ c) (b ++ 58 ∷ c) ls (strip-extend (owner user) l b (58 ∷ c) e))
]

-- The lines of the others stay.
pub body_other-add_credential :
    (user other c : Text) (ls : List Text)
    → same user other ≡ false
    → Without 58 user
    → Without 58 other
    → body_of other (add_credential user (58 ∷ c) ls) ≡ body_of other ls
unfolding add_credential
body_other-add_credential user other c [] h k l =
    body-none other (user ++ 58 ∷ c) []
      (owned-other user other (user ++ 58 ∷ c) c h k l (strip-owner user c))
body_other-add_credential user other c (t ∷ ls) h k l =
    elim (Option-cases (strip_prefix (owner user) t)) [
      | inl e ↦ rw e (
          ap (or_else (strip_prefix (owner other) t))
            (body_other-add_credential user other c ls h k l))
      | inr (b, e) ↦ rw e (
          body-none other (t ++ 58 ∷ c) ls (
            owned-other user other (t ++ 58 ∷ c) (b ++ 58 ∷ c) h k l
              (strip-extend (owner user) t b (58 ∷ c) e))
          ∙ sym (body-none other t ls (owned-other user other t b h k l e)))
    ]

-- A further credential on a line.
extend-ne-nil : (c : ℕ) (us : List Text) → extend c us ≢ []
extend-ne-nil c [] h = cc h
extend-ne-nil c (u ∷ us) h = cc h

split-ne-nil : (sep : ℕ) (s : Text) → split sep s ≢ []
unfolding split
split-ne-nil sep [] h = cc h
split-ne-nil sep (d ∷ s) h = elim (Bool-cases (d == sep)) [
  | inl e ↦ cc (rw e at h)
  | inr e ↦ extend-ne-nil d (split sep s) (rw e at h)
]

extend-append : (c : ℕ) (us vs : List Text) → us ≢ [] → extend c (us ++ vs) ≡ extend c us ++ vs
extend-append c [] vs h = absurd (h refl)
extend-append c (u ∷ us) vs h = refl

pub split-cons : (sep : ℕ) (s t : Text) → split sep (s ++ sep ∷ t) ≡ split sep s ++ split sep t
unfolding split
split-cons sep [] t = rw (==_self sep)
split-cons sep (c ∷ s) t = elim (Bool-cases (c == sep)) [
  | inl e ↦ rw (e, split-cons sep s t)
  | inr e ↦
      rw (e, split-cons sep s t) (extend-append c (split sep s) (split sep t) (split-ne-nil sep s))
]
