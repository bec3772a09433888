-- ===== src/Stack/Undo.antt =====
-- Adding the line and taking it out again.
use passkey.Base.{
  ◌≡◌, refl, sym, ap, ◌∙◌, Bool, true, false, not, ◌||◌, List, [], ◌∷◌, ◌++◌, none, some, same,
  same→eq, any, filter, All, append-nil, Bool-cases, inl, inr,
}
use mathlib.Core.Option.{some-injective}
use passkey.Base.Text.{Text}
use passkey.Stack.{is_ours, add_loop, rev_append, if_inserted, add, remove, pam_line}
use passkey.Stack.Loop.{
  kept, or_true, or_swap, kept-other, kept-add_loop, has, has-add_loop, line_ours,
}

any-rev_append {ℓ} :
    {A : Type ℓ} (p : A → Bool) (xs ys : List A) → any p (rev_append xs ys) ≡ (any p xs || any p ys)
any-rev_append p [] ys = refl
any-rev_append p (x ∷ xs) ys = any-rev_append p xs (x ∷ ys) ∙ or_swap (p x) (any p xs) (any p ys)

filter-rev_append {ℓ} :
    {A : Type ℓ} (p : A → Bool) (xs ys : List A)
    → filter p (rev_append xs ys) ≡ rev_append (filter p xs) (filter p ys)
filter-rev_append p [] ys = refl
filter-rev_append p (x ∷ xs) ys = elim (Bool-cases (p x)) [
  | inl h ↦ rw h (filter-rev_append p xs (x ∷ ys) ∙ ap (rev_append (filter p xs)) (rw h refl))
  | inr h ↦ rw h (filter-rev_append p xs (x ∷ ys) ∙ ap (rev_append (filter p xs)) (rw h refl))
]

rev_append-rev_append {ℓ} :
    {A : Type ℓ} (xs ys zs : List A) → rev_append (rev_append xs ys) zs ≡ rev_append ys (xs ++ zs)
rev_append-rev_append [] ys zs = refl
rev_append-rev_append (x ∷ xs) ys zs = rev_append-rev_append xs (x ∷ ys) zs

has-ours :
    (wanted : Text) (ls : List Text)
    → is_ours wanted ≡ true
    → has wanted ls ≡ true
    → any is_ours ls ≡ true
has-ours wanted [] h k = cc k
has-ours wanted (l ∷ ls) h k = elim (Bool-cases (same l wanted)) [
  | inl e ↦ rw (ap is_ours (same→eq l wanted e) ∙ h) refl
  | inr e ↦ rw (has-ours wanted ls h (rw e at k)) (or_true (is_ours l))
]

kept-id : (ls : List Text) → All (λ l. is_ours l ≡ false) ls → kept ls ≡ ls
kept-id [] h = refl
kept-id (l ∷ ls) h = kept-other l ls h.0 ∙ ap (λ r. l ∷ r) (kept-id ls h.1)

-- What a successful addition gives.
pub added_output :
    (wanted : Text) (input out : List Text)
    → add wanted input ≡ some out
    → let r = add_loop wanted [] false input in (r.1 ≡ true) × (rev_append r.0 [] ≡ out)
unfolding add
added_output wanted input out e = elim (Bool-cases (any (λ line. same line wanted) input)) [
  | inl h ↦ cc (rw h at e)
  | inr h ↦ inserted_output (add_loop wanted [] false input) (rw h at e)
]
  where
    inserted_output :
        (r : List Text × Bool) → if_inserted r ≡ some out → (r.1 ≡ true) × (rev_append r.0 [] ≡ out)
    inserted_output (o, true) e = (refl, some-injective (rev_append o []) out e)
    inserted_output (o, false) e = cc e

pub has-output :
    (wanted : Text) (input out : List Text) → add wanted input ≡ some out → has wanted out ≡ true
has-output wanted input out e =
    let r : List Text × Bool = add_loop wanted [] false input in
    let end : (r.1 ≡ true) × (rev_append r.0 [] ≡ out) = added_output wanted input out e in
    ap (has wanted) (sym end.1)
    ∙ any-rev_append (λ line. same line wanted) r.0 []
    ∙ rw (has-add_loop wanted input [] false (λ c. cc c) end.0) refl

-- Taking the line out again gives back the lines of the service, if none of them was ours before.
pub remove-add :
    (hostname : Text) (takes_password : Bool) (service : Text) (input out : List Text)
    → All (λ line. is_ours line ≡ false) input
    → add (pam_line hostname takes_password service) input ≡ some out
    → remove out ≡ some input
unfolding remove
remove-add hostname takes_password service input out h e =
    let wanted : Text = pam_line hostname takes_password service in
    let ours : is_ours wanted ≡ true = line_ours hostname takes_password service in
    let r : List Text × Bool = add_loop wanted [] false input in
    let end : (r.1 ≡ true) × (rev_append r.0 [] ≡ out) = added_output wanted input out e in
    let lines_back : kept out ≡ input =
      ap kept (sym end.1)
      ∙ filter-rev_append (λ line. not (is_ours line)) r.0 []
      ∙ ap (λ k. rev_append k [])
          (kept-add_loop wanted input [] false ours ∙ ap (λ k. rev_append k []) (kept-id input h))
      ∙ rev_append-rev_append input [] []
      ∙ append-nil input in
    rw (has-ours wanted out ours (has-output wanted input out e)) (ap some lines_back)

-- Adding the line twice changes nothing.
pub add-add :
    (hostname : Text) (takes_password : Bool) (service : Text) (input out : List Text)
    → add (pam_line hostname takes_password service) input ≡ some out
    → add (pam_line hostname takes_password service) out ≡ none
unfolding add
add-add hostname takes_password service input out e =
    rw (has-output (pam_line hostname takes_password service) input out e) refl
