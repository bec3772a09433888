-- ===== src/Client/Naming.antt =====
-- The name that is offered for a device.
use passkey.Base.{
  ℕ, zero, suc, ◌+◌, ◌<◌, ◌≤◌, ◌≡◌, refl, sym, ap, ◌∙◌, Bool, true, false, not, List, [], ◌∷◌, ◌++◌,
  some, same, same→eq, any, filter, append_assoc, length, length-append, arith, Bool-cases, inl,
  inr,
}
use passkey.Base.Text.{Text, codes}
use passkey.Base.Decimal.{decimal, decimal-injective}
use passkey.Client.{numbered, default_loop, default_name}

-- The names in the order in which the loop tries them.
abbrev candidate : Text → ℕ → Text
candidate base zero = base
candidate base (suc k) = numbered base (k + 2)

abbrev is_in : Text → List Text → Bool
is_in name ls = any (λ n. same n name) ls

append_cancel : (s t u : Text) → s ++ t ≡ s ++ u → t ≡ u
append_cancel [] t u e = e
append_cancel (c ∷ s) t u e = append_cancel s t u (ap behind e)
  where
    behind : Text → Text
    behind [] = []
    behind (d ∷ r) = r

candidate-injective : (base : Text) (i k : ℕ) → candidate base i ≡ candidate base k → i ≡ k
candidate-injective base zero zero e = refl
candidate-injective base zero (suc k) e =
    let l = length-append base (codes " " ++ decimal (k + 2)) in
    let q : length base ≡ length (candidate base (suc k)) = ap length e in absurd (omega arith)
candidate-injective base (suc i) zero e =
    let l = length-append base (codes " " ++ decimal (i + 2)) in
    let q : length (candidate base (suc i)) ≡ length base = ap length e in absurd (omega arith)
candidate-injective base (suc i) (suc k) e =
    let q =
      append_cancel (base ++ codes " ") (decimal (i + 2)) (decimal (k + 2))
        (spaced i ∙ e ∙ sym (spaced k)) in
    let r : i + 2 ≡ k + 2 = decimal-injective (i + 2) (k + 2) q in omega arith
  where
    spaced :
        (n : ℕ) → (base ++ codes " ") ++ decimal (n + 2) ≡ base ++ (codes " " ++ decimal (n + 2))
    spaced n = append_assoc base (codes " ") (decimal (n + 2))

-- A list without the names that a test meets is shorter, and has all the others.
module _ (p : Text → Bool) where
  length-filter : (xs : List Text) → length (filter (λ x. not (p x)) xs) ≤ length xs
  length-filter [] = omega arith
  length-filter (x ∷ xs) = elim (Bool-cases (p x)) [
    | inl e ↦ rw e (omega (arith, length-filter xs))
    | inr e ↦ rw e (omega (arith, length-filter xs))
  ]

  shorter : (xs : List Text) → any p xs ≡ true → length (filter (λ x. not (p x)) xs) < length xs
  shorter [] h = cc h
  shorter (x ∷ xs) h = elim (Bool-cases (p x)) [
    | inl e ↦ rw e (omega (arith, length-filter xs))
    | inr e ↦ rw e (omega (arith, shorter xs (rw e at h)))
  ]

  others_stay :
      (q : Text → Bool) (xs : List Text)
      → ((x : Text) → q x ≡ true → p x ≡ false)
      → any q (filter (λ x. not (p x)) xs) ≡ any q xs
  others_stay q [] h = refl
  others_stay q (x ∷ xs) h = elim (Bool-cases (q x)) [
    | inl e ↦ rw (h x e, e)
    | inr e ↦ elim (Bool-cases (p x)) [
      | inl f ↦ rw (f, e) (others_stay q xs h)
      | inr f ↦ rw (f, e) (others_stay q xs h)
    ]
  ]

-- The candidates that exist are all in a list that is shorter than the fuel.
default_loop-total :
    (existing : List Text) (base : Text) (fuel i : ℕ) (left : List Text)
    → length left < fuel
    → ((k : ℕ)
        → i ≤ k
        → is_in (candidate base k) existing ≡ true
        → is_in (candidate base k) left ≡ true)
    → (name : Text) × (default_loop fuel existing base (candidate base i) (i + 2) ≡ some name)
      × (is_in name existing ≡ false)
unfolding default_loop
default_loop-total existing base zero i left h k = absurd (omega arith)
default_loop-total existing base (suc fuel) i left h k =
    elim (Bool-cases (is_in (candidate base i) existing)) [
      | inr new ↦ (candidate base i, rw new refl, new)
      | inl old ↦
          let p : Text → Bool = λ n. same n (candidate base i) in
          let (name, e, n) =
            default_loop-total existing base fuel (suc i) (filter (λ n. not (p n)) left)
              (omega (arith, shorter p left (k i (omega arith) old)))
              (λ j g m.
                others_stay p (λ n. same n (candidate base j)) left (apart j g)
                ∙ k j (omega arith) m) in
          (
            name,
            rw old
                (ap (default_loop fuel existing base (candidate base (suc i))) (omega arith) ∙ e),
            n,
          )
    ]
  where
    apart :
        (j : ℕ)
        → suc i ≤ j
        → (x : Text) → same x (candidate base j) ≡ true
        → same x (candidate base i) ≡ false
    apart j g x e = elim (Bool-cases (same x (candidate base i))) [
      | inr f ↦ f
      | inl f ↦
          let q : i ≡ j =
            candidate-injective base i j
              (sym (same→eq x (candidate base i) f) ∙ same→eq x (candidate base j) e) in
          absurd (omega arith)
    ]

-- The loop ends after one round more than there are names, with a name that is not among them.
pub default_name-new :
    (existing : List Text) (base : Text)
    → (name : Text) × (default_name existing base ≡ some name)
      × (any (λ old. same old name) existing ≡ false)
unfolding default_name
default_name-new existing base =
    default_loop-total existing base (suc (length existing)) 0 existing (omega arith) (λ k h e. e)
