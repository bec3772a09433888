-- ===== src/Cbor/Silent.antt =====
-- The test for a request that needs no presence, on requests as a host encodes them.
use passkey.Base.{
  ℕ, ◌<◌, ◌≡◌, refl, sym, ap, ◌⊎◌, ◌↔◌, inl, inr, Bool, true, false, ◌&&◌, List, ◌∷◌, ◌++◌, same,
  same→eq, ==_iff, ◌||◌,
}
use passkey.Base.Text.{codes}
use passkey.Cbor.{
  Cbor, Entries, integer, bytes, text, array, map, bool, null, end, entry, pos, negsuc, any_entry,
  is_five, is_up, is_false, denies_presence, silent, get_assertion,
}
use passkey.Cbor.Encode.{encode, depth, IsValue}
use passkey.Cbor.RoundTrip.{decode_cbor-encode}

-- Some entry of a map has this key and a value with a property.
abbrev pub HasEntry : Cbor → (Cbor → Type 0) → Entries → Type 0
HasEntry key P end = ◌≡◌ {A = Bool} true false
HasEntry key P (entry k v es) = ((k ≡ key) × P v) ⊎ HasEntry key P es

-- The options say that the user's presence is not asked for: `{"up": false}`.
abbrev pub DeniesPresence : Cbor → Type 0
DeniesPresence (map options) = HasEntry (text (codes "up")) (λ v. v ≡ bool false) options
DeniesPresence _ = ◌≡◌ {A = Bool} true false

and-or_true : (a b c : Bool) → a && b || c ≡ true → ((a ≡ true) × (b ≡ true)) ⊎ (c ≡ true)
and-or_true true true c h = inl (refl, refl)
and-or_true true false c h = inr h
and-or_true false b c h = inr h

true_or-and : (a b c : Bool) → ((a ≡ true) × (b ≡ true)) ⊎ (c ≡ true) → a && b || c ≡ true
true_or-and a b c (inl (h, k)) = rw (h, k) refl
true_or-and true true c (inr h) = refl
true_or-and true false c (inr h) = h
true_or-and false b c (inr h) = h

-- A test of the entries that holds where a key and a value's property do.
any-HasEntry :
    (key : Cbor) (is_key is_ok : Cbor → Bool) (P : Cbor → Type 0) (es : Entries)
    → ((k : Cbor) → is_key k ≡ true ↔ (k ≡ key))
    → ((v : Cbor) → is_ok v ≡ true ↔ P v)
    → any_entry (λ k v. is_key k && is_ok v) es ≡ true ↔ HasEntry key P es
any-HasEntry key is_key is_ok P end hk hv = (sym, sym)
any-HasEntry key is_key is_ok P (entry k v es) hk hv =
    let rest = any-HasEntry key is_key is_ok P es hk hv in
    let left = any_entry (λ k' v'. is_key k' && is_ok v') es in
    (
      λ h. elim (and-or_true (is_key k) (is_ok v) left h) [
        | inl (a, b) ↦ inl ((hk k).0 a, (hv v).0 b)
        | inr c ↦ inr (rest.0 c)
      ],
      λ h.
          true_or-and (is_key k) (is_ok v) left
            (elim h [ inl (a, b) ↦ inl ((hk k).1 a, (hv v).1 b) | inr c ↦ inr (rest.1 c) ]),
    )

is_five_iff : (k : Cbor) → is_five k ≡ true ↔ (k ≡ integer (pos 5))
is_five_iff k = (forth k, λ e. rw e refl)
  where
    forth : (k : Cbor) → is_five k ≡ true → k ≡ integer (pos 5)
    forth (integer (pos n)) h = ap (λ m. integer (pos m)) ((==_iff n 5).0 h)
    forth (integer (negsuc n)) h = cc
    forth (bytes bs) h = cc
    forth (text bs) h = cc
    forth (array vs) h = cc
    forth (map es) h = cc
    forth (bool b) h = cc
    forth null h = cc

is_up_iff : (k : Cbor) → is_up k ≡ true ↔ (k ≡ text (codes "up"))
unfolding same
is_up_iff k = (forth k, λ e. rw e refl)
  where
    forth : (k : Cbor) → is_up k ≡ true → k ≡ text (codes "up")
    forth (integer n) h = cc
    forth (bytes bs) h = cc
    forth (text bs) h = ap text (same→eq bs (codes "up") h)
    forth (array vs) h = cc
    forth (map es) h = cc
    forth (bool b) h = cc
    forth null h = cc

is_false_iff : (v : Cbor) → is_false v ≡ true ↔ (v ≡ bool false)
is_false_iff v = (forth v, λ e. rw e refl)
  where
    forth : (v : Cbor) → is_false v ≡ true → v ≡ bool false
    forth (integer n) h = cc
    forth (bytes bs) h = cc
    forth (text bs) h = cc
    forth (array vs) h = cc
    forth (map es) h = cc
    forth (bool false) h = refl
    forth (bool true) h = cc
    forth null h = cc

denies_presence_iff : (v : Cbor) → denies_presence v ≡ true ↔ DeniesPresence v
denies_presence_iff (integer n) = (sym, sym)
denies_presence_iff (bytes bs) = (sym, sym)
denies_presence_iff (text bs) = (sym, sym)
denies_presence_iff (array vs) = (sym, sym)
denies_presence_iff (map es) =
    any-HasEntry (text (codes "up")) is_up is_false (λ v. v ≡ bool false) es is_up_iff is_false_iff
denies_presence_iff (bool b) = (sym, sym)
denies_presence_iff null = (sym, sym)

-- A GetAssertion request whose parameters are encoded as CTAP2 prescribes, nested at most eight
-- deep, passes the test exactly if some parameter 5 is a map in which some `up` is false. What
-- follows the encoding makes no difference.
pub silent-encode :
    (es : Entries) (rest : List ℕ)
    → depth (map es) < 9
    → IsValue (map es)
    → silent (get_assertion ∷ (encode (map es) ++ rest)) ≡ true
      ↔ HasEntry (integer (pos 5)) DeniesPresence es
unfolding silent
silent-encode es rest d h = rw (decode_cbor-encode (map es) 9 rest d h) (
    any-HasEntry (integer (pos 5)) is_five denies_presence DeniesPresence es is_five_iff
      denies_presence_iff)
