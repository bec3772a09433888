-- ===== src/Adb/Identity.antt =====
-- A phone is the same device over USB and over Bluetooth.
use passkey.Base.{
  ℕ, ◌≤◌, ◌<◌, ◌≡◌, ◌≢◌, refl, sym, ap, ◌∙◌, Bool, true, false, not, ◌&&◌, List, [], ◌∷◌, ◌++◌,
  none, some, if◌then◌else◌, ◌==◌, ==_ne, leb-true, ◌⊎◌, inl, inr, arith, All, any, length,
}
use passkey.Base.Text.{Text, codes, join, strip_prefix, replace}
use passkey.Base.Split.{Without, split-join, strip-append, Without-join}
use passkey.Hid.{is_some}
use passkey.Wifi.{hex_value}
use passkey.Adb.{is_bt_address, adb_device_id, later_cut, behind_dev, address_or, bt_address}

-- An upper-case hexadecimal digit, and two of them.
abbrev IsUpperHex : ℕ → Type 0
IsUpperHex c = ((48 ≤ c) × (c ≤ 57)) ⊎ ((65 ≤ c) × (c ≤ 70))

abbrev pub IsPair : Text → Type 0
IsPair (c ∷ d ∷ []) = IsUpperHex c × IsUpperHex d
IsPair t = ⊥

hex_upper : (c : ℕ) → IsUpperHex c → is_some (hex_value c) ≡ true
unfolding hex_value
hex_upper c (inl h) = rw (leb-true 48 c h.0, leb-true c 57 h.1)
hex_upper c (inr h) = ground arith

apart : (c x : ℕ) → IsUpperHex c → 70 < x → c ≢ x
apart c x (inl h) k e = absurd (omega arith)
apart c x (inr h) k e = absurd (omega arith)

not_colon : (c : ℕ) → IsUpperHex c → c ≢ 58
not_colon c (inl h) e = absurd (omega arith)
not_colon c (inr h) e = absurd (omega arith)

pair-Without : (x : ℕ) (t : Text) → ((c : ℕ) → IsUpperHex c → c ≢ x) → IsPair t → Without x t
pair-Without x [] k h = absurd h
pair-Without x (c ∷ []) k h = absurd h
pair-Without x (c ∷ d ∷ []) k h = (k c h.0, (k d h.1, tt))
pair-Without x (c ∷ d ∷ e ∷ t) k h = absurd h

pairs-Without :
    (x : ℕ) (ts : List Text) → ((c : ℕ) → IsUpperHex c → c ≢ x) → All IsPair ts → All (Without x) ts
pairs-Without x [] k h = tt
pairs-Without x (t ∷ ts) k h = (pair-Without x t k h.0, pairs-Without x ts k h.1)

abbrev bad_field : Text → Bool
bad_field field = not (length field == 2 && not (any (λ c. not (is_some (hex_value c))) field))

good_field : (t : Text) → IsPair t → bad_field t ≡ false
good_field [] h = absurd h
good_field (c ∷ []) h = absurd h
good_field (c ∷ d ∷ []) h = rw (hex_upper c h.0, hex_upper d h.1)
good_field (c ∷ d ∷ e ∷ t) h = absurd h

good_fields : (ts : List Text) → All IsPair ts → any bad_field ts ≡ false
good_fields [] h = refl
good_fields (t ∷ ts) h = rw (good_field t h.0) (good_fields ts h.1)

is_bt_address-join :
    (t : Text) (ts : List Text)
    → All IsPair (t ∷ ts)
    → length (t ∷ ts) ≡ 6
    → is_bt_address (join (codes ":") (t ∷ ts)) ≡ true
unfolding is_bt_address
is_bt_address-join t ts h n =
    rw (split-join 58 t ts (pairs-Without 58 (t ∷ ts) not_colon h), n, good_fields (t ∷ ts) h)

-- The part of a path behind "dev_".
no_dev : (t : Text) → Without 100 t → behind_dev t ≡ none
unfolding behind_dev strip_prefix
no_dev [] h = refl
no_dev (c ∷ t) h = rw (no_dev t h.1, ==_ne 100 c (λ e. h.0 (sym e)))

dev_first : (t : Text) → Without 100 t → behind_dev (codes "dev_" ++ t) ≡ some t
unfolding behind_dev
dev_first t h =
    ap (later_cut (codes "dev_" ++ t)) (
      no_dev (codes "ev_" ++ t) (
        (λ e. absurd (omega arith)),
        ((λ e. absurd (omega arith)), ((λ e. absurd (omega arith)), h)),
      ))
    ∙ strip-append (codes "dev_") t

behind_dev-append :
    (path t : Text) → Without 100 t → behind_dev (path ++ (codes "dev_" ++ t)) ≡ some t
unfolding behind_dev
behind_dev-append [] t h = dev_first t h
behind_dev-append (c ∷ path) t h =
    ap (later_cut (c ∷ (path ++ (codes "dev_" ++ t)))) (behind_dev-append path t h)

replace-append : (x y : ℕ) (s t : Text) → replace x y (s ++ t) ≡ replace x y s ++ replace x y t
replace-append x y [] t = refl
replace-append x y (c ∷ s) t = ap (λ r. (if c == x then y else c) ∷ r) (replace-append x y s t)

replace-id : (x y : ℕ) (t : Text) → Without x t → replace x y t ≡ t
replace-id x y [] h = refl
replace-id x y (c ∷ t) h = rw (==_ne c x h.0) (ap (λ r. c ∷ r) (replace-id x y t h.1))

replace-join :
    (ts : List Text)
    → All (Without 95) ts
    → replace 95 58 (join (codes "_") ts) ≡ join (codes ":") ts
unfolding join
replace-join [] h = refl
replace-join (t ∷ []) h = replace-id 95 58 t h.0
replace-join (t ∷ u ∷ ts) h =
    replace-append 95 58 t (codes "_" ++ join (codes "_") (u ∷ ts))
    ∙ ap (λ r. r ++ 58 ∷ replace 95 58 (join (codes "_") (u ∷ ts))) (replace-id 95 58 t h.0)
    ∙ ap (λ r. t ++ 58 ∷ r) (replace-join (u ∷ ts) h.1)

-- The path that BlueZ has for a phone gives the device that adb gives for it, wherever the phone
-- tells its Bluetooth address over USB, so that a request reaches it over one of the two only.
pub adb_device_id-bt_address :
    (to_uppercase : Text → Text) (serial path setting t : Text) (ts : List Text)
    → All IsPair (t ∷ ts)
    → length (t ∷ ts) ≡ 6
    → to_uppercase setting ≡ join (codes ":") (t ∷ ts)
    → adb_device_id to_uppercase serial (some setting)
      ≡ bt_address (path ++ (codes "dev_" ++ join (codes "_") (t ∷ ts)))
unfolding adb_device_id bt_address
adb_device_id-bt_address to_uppercase serial path setting t ts h n e =
    rw (e, is_bt_address-join t ts h n)
      (sym (
        ap (address_or (path ++ (codes "dev_" ++ join (codes "_") (t ∷ ts)))) (
          behind_dev-append path (join (codes "_") (t ∷ ts)) (
            Without-join 100 95 (t ∷ ts) (λ q. absurd (omega arith))
              (pairs-Without 100 (t ∷ ts) (λ c k. apart c 100 k (omega arith)) h)))
        ∙ replace-join (t ∷ ts) (pairs-Without 95 (t ∷ ts) (λ c k. apart c 95 k (omega arith)) h)))
