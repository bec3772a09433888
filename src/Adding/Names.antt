-- ===== src/Adding/Names.antt =====
-- The name under which `add` registers a key.
use passkey.Base.{
  ℕ, suc, zero, ◌+◌, ◌≡◌, ◌≢◌, refl, sym, ap, ◌∙◌, false, List, [], ◌∷◌, Option, none, some,
  if◌then◌else◌, any, same, Bool-cases, inl, inr, arith,
}
use mathlib.Core.Option.{some-injective}
use passkey.Base.Text.{Text, trim}
use passkey.Base.Split.{Without}
use passkey.Hid.{is_empty}
use passkey.Registry.{is_break}
use passkey.Registry.Stored.{IsName}
use passkey.Client.{base_of, default_loop, numbered}
use passkey.Adding.{clean, or_name}

-- The name has its place in one field of a line.
not_nine : (c : ℕ) → (if is_break c then 32 else c) ≢ 9
not_nine c e = ground arith

not_ten : (c : ℕ) → (if is_break c then 32 else c) ≢ 10
not_ten c e = ground arith

not_thirteen : (c : ℕ) → (if is_break c then 32 else c) ≢ 13
not_thirteen c e = ground arith

clean-Without :
    (x : ℕ) (t : Text) → ((c : ℕ) → (if is_break c then 32 else c) ≢ x) → Without x (clean t)
clean-Without x [] h = tt
clean-Without x (c ∷ t) h = (h c, clean-Without x t h)

clean-full : (t : Text) → is_empty t ≡ false → is_empty (clean t) ≡ false
clean-full [] h = h
clean-full (c ∷ t) h = refl

pub clean-IsName : (t : Text) → is_empty t ≡ false → IsName (clean t)
clean-IsName t h = record {
  line = (clean-Without 10 t not_ten, clean-Without 13 t not_thirteen);
  no_tab = clean-Without 9 t not_nine;
  full = clean-full t h;
}

-- The name that is offered has a character.
numbered-full : (base : Text) (n : ℕ) → is_empty (numbered base n) ≡ false
numbered-full [] n = refl
numbered-full (c ∷ base) n = refl

pub default_loop-full :
    (existing : List Text) (base name : Text) (fuel : ℕ) (default : Text) (n : ℕ)
    → is_empty default ≡ false
    → default_loop fuel existing base default n ≡ some name
    → is_empty name ≡ false
unfolding default_loop
default_loop-full existing base name zero default n h e = cc e
default_loop-full existing base name (suc fuel) default n h e =
    elim (Bool-cases (any (λ name. same name default) existing)) [
      | inl old ↦
          default_loop-full existing base name fuel (numbered base n) (n + 1) (numbered-full base n)
            (rw old at e)
      | inr new ↦ ap is_empty (sym (some-injective default name (rw new at e))) ∙ h
    ]

pub base_of-full : (o : Option (Text × Text)) → is_empty (base_of o) ≡ false
unfolding base_of
base_of-full none = refl
base_of-full (some (id, label)) = elim (Bool-cases (is_empty (trim label))) [
  | inl e ↦ rw e
  | inr e ↦ rw (e, e)
]

pub or_name-full :
    (default name : Text) → is_empty default ≡ false → is_empty (or_name default name) ≡ false
or_name-full default [] h = h
or_name-full default (c ∷ name) h = refl
