-- ===== src/Stack/Service/Every.antt =====
-- The loops of `configure` and `uninstall` over all the services.
use passkey.Base.{
  ◌≡◌, refl, sym, ap, ◌∙◌, Bool, true, false, not, ◌&&◌, List, [], ◌∷◌, same, same→eq, any,
  if◌then◌else◌, Bool-cases, ◌⊎◌, inl, inr,
}
use mathlib.Core.Path.{fun_ext}
use passkey.Base.Text.{Text}
use passkey.Base.Lines.{IsLine}
use passkey.Stack.{pam_line}
use passkey.Stack.Service.{Service, services, for_each, add_all, remove_all, pam_add, pam_remove}
use passkey.Stack.Service.Restored.{IsUntouched, pam_remove-pam_add, pam_add-pam_add}

-- The services are all different.
abbrev distinct : List Text → Bool
distinct [] = true
distinct (s ∷ ss) = not (any (same s) ss) && distinct ss

services-distinct : distinct services ≡ true
unfolding same
services-distinct = refl

abbrev updated : (Text → Service → Service) → Text → (Text → Service) → Text → Service
updated op s files t = if same t s then op s (files s) else files t

-- What the loop does to one service.
for_each_other :
    (op : Text → Service → Service) (ss : List Text) (files : Text → Service) (t : Text)
    → any (same t) ss ≡ false
    → for_each op ss files t ≡ files t
unfolding for_each
for_each_other op [] files t h = refl
for_each_other op (s ∷ ss) files t h = elim (Bool-cases (same t s)) [
  | inl e ↦ cc (rw e at h)
  | inr e ↦ for_each_other op ss (updated op s files) t (rw e at h) ∙ rw e
]

for_each_lem :
    (op : Text → Service → Service) (ss : List Text) (files : Text → Service) (t : Text)
    → distinct ss ≡ true
    → for_each op ss files t ≡ (if any (same t) ss then op t (files t) else files t)
unfolding for_each
for_each_lem op [] files t h = refl
for_each_lem op (s ∷ ss) files t h = elim (Bool-cases (any (same s) ss)) [
  | inl bad ↦ cc (rw bad at h)
  | inr good ↦ elim (Bool-cases (same t s)) [
    | inl e ↦
        for_each_other op ss (updated op s files) t
          (ap (λ u. any (same u) ss) (same→eq t s e) ∙ good)
        ∙ rw e (ap (λ u. op u (files u)) (sym (same→eq t s e)))
    | inr e ↦ for_each_lem op ss (updated op s files) t (rw good at h) ∙ rw e refl
  ]
]

remove_all-add_all :
    (hostname : Text) (takes_password : Bool) (files : Text → Service)
    → IsLine hostname
    → ((service : Text) → IsUntouched (files service))
    → remove_all (add_all hostname takes_password files) ≡ files
unfolding remove_all add_all
remove_all-add_all hostname takes_password files h u =
    fun_ext λ t. one t (Bool-cases (any (same t) services))
  where
    op : Text → Service → Service
    op service = pam_add (pam_line hostname takes_password service)

    added : Text → Service
    added = for_each op services files

    one :
        (t : Text)
        → (any (same t) services ≡ true) ⊎ (any (same t) services ≡ false)
        → for_each (λ service. pam_remove) services added t ≡ files t
    one t (inl e) =
        for_each_lem (λ service. pam_remove) services added t services-distinct
        ∙ ap (λ b. if b then pam_remove (added t) else added t) e
        ∙ ap pam_remove (
            for_each_lem op services files t services-distinct
            ∙ ap (λ b. if b then op t (files t) else files t) e)
        ∙ pam_remove-pam_add hostname takes_password t h (files t) (u t)
    one t (inr e) =
        for_each_other (λ service. pam_remove) services added t e
        ∙ for_each_other op services files t e

add_all-add_all :
    (hostname : Text) (takes_password : Bool) (files : Text → Service)
    → IsLine hostname
    → ((service : Text) → IsUntouched (files service))
    → add_all hostname takes_password (add_all hostname takes_password files)
      ≡ add_all hostname takes_password files
unfolding add_all
add_all-add_all hostname takes_password files h r =
    fun_ext λ t. one t (Bool-cases (any (same t) services))
  where
    op : Text → Service → Service
    op service = pam_add (pam_line hostname takes_password service)

    added : Text → Service
    added = for_each op services files

    one :
        (t : Text)
        → (any (same t) services ≡ true) ⊎ (any (same t) services ≡ false)
        → for_each op services added t ≡ added t
    one t (inl e) =
        let once : added t ≡ op t (files t) =
          for_each_lem op services files t services-distinct
          ∙ ap (λ b. if b then op t (files t) else files t) e in
        for_each_lem op services added t services-distinct
        ∙ ap (λ b. if b then op t (added t) else added t) e
        ∙ ap (op t) once
        ∙ pam_add-pam_add hostname takes_password t h (files t) (r t)
        ∙ sym once
    one t (inr e) = for_each_other op services added t e

-- If no file of a service has a line of ours, a carriage return, or a last line without its end,
-- and there are no markers: `passkey uninstall` after `passkey add` gives back the files of all the
-- services, and a second `passkey add` with the same host name and modules changes none.
pub all_services-restored :
    (hostname : Text) (takes_password : Bool) (files : Text → Service)
    → IsLine hostname
    → ((service : Text) → IsUntouched (files service))
    → let added = add_all hostname takes_password files in
      (remove_all added ≡ files) × (add_all hostname takes_password added ≡ added)
all_services-restored hostname takes_password files h u = (
  remove_all-add_all hostname takes_password files h u,
  add_all-add_all hostname takes_password files h u,
)
