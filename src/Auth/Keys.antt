-- ===== src/Auth/Keys.antt =====
-- The keys of a file as `passkey` and pam_u2f write it, and the reader of src/pam_auth.rs.
use passkey.Base.{
  ℕ, ◌≡◌, ◌≢◌, refl, ap, ◌∙◌, Bool, true, false, not, ◌||◌, List, [], ◌∷◌, ◌++◌, map, none, some,
  All, replicate, same,
}
use passkey.Base.Text.{Text, codes, split, contains, join}
use passkey.Base.Split.{
  Without, split-join, Without-append, Without-replicate, Without-join, Without-check,
}
use passkey.Hid.{is_empty}
use passkey.Auth.{sextet, Credential, base64, credential_of, entries}
use passkey.Auth.Base64.{encode-ne, base64-encode, IsByte}
use passkey.Auth.Sextets.{encode}

-- One key as it is printed, with the padding of Base64 left to the writer.
abbrev pub flags : Bool → Text
flags true = codes "+presence+verification"
flags false = codes "+presence"

pub record Printed : Type 0 where
  pub value : Credential
  pub pad_id : ℕ
  pub pad_key : ℕ

abbrev pub fields : Printed → List Text
fields p =
    (encode p.value.id ++ replicate p.pad_id 61)
    ∷ (encode p.value.key ++ replicate p.pad_key 61)
    ∷ codes "es256"
    ∷ flags p.value.verification
    ∷ []

unfoldable pub print_entry : Printed → Text
unfolding join
print_entry p = join (codes ",") (fields p)

unfoldable pub print_line : Text → List Printed → Text
unfolding print_entry join
print_line user ps = user ++ 58 ∷ join (codes ":") (map print_entry ps)

-- A key with a handle, over bytes.
abbrev pub IsCredential : Printed → Type 0
IsCredential p = All IsByte p.value.id × All IsByte p.value.key × (p.value.id ≢ [])

-- The characters of an entry that the formats around it use as separators.
flags-Without : (b : Bool) → Without 44 (flags b) × Without 58 (flags b)
flags-Without true = (Without-check 44 (flags true) refl, Without-check 58 (flags true) refl)
flags-Without false = (Without-check 44 (flags false) refl, Without-check 58 (flags false) refl)

contains-flags : (b : Bool) → contains (flags b) (codes "+verification") ≡ b
unfolding contains
contains-flags true = refl
contains-flags false = refl

entry_field :
    (sep n : ℕ) (bs : List ℕ)
    → sextet sep ≡ none
    → 61 ≢ sep
    → All IsByte bs
    → Without sep (encode bs ++ replicate n 61)
entry_field sep n bs s h k =
    Without-append sep (encode bs) (replicate n 61) (encode-ne sep bs s k)
      (Without-replicate sep n 61 h)

pub fields-Without :
    (sep : ℕ) (p : Printed)
    → sextet sep ≡ none
    → 61 ≢ sep
    → Without sep (codes "es256")
    → Without sep (flags p.value.verification)
    → IsCredential p
    → All (Without sep) (fields p)
fields-Without sep p s h e f k = (
  entry_field sep p.pad_id p.value.id s h k.0,
  (entry_field sep p.pad_key p.value.key s h k.1, (e, (f, tt))),
)

credential_of-some :
    (handle public kind flags : Text) (id key : List ℕ)
    → base64 handle ≡ some id
    → base64 public ≡ some key
    → (not (same kind (codes "es256")) || is_empty id) ≡ false
    → credential_of (handle ∷ public ∷ kind ∷ flags ∷ [])
      ≡ some (record { id = id; key = key; verification = contains flags (codes "+verification") })
unfolding credential_of
credential_of-some handle public kind flags id key e f g =
    rw (e, credential_of) (rw (f, credential_of) (rw g refl))

es256_ok :
    (id : List ℕ) → id ≢ [] → (not (same (codes "es256") (codes "es256")) || is_empty id) ≡ false
unfolding same
es256_ok [] h = absurd (h refl)
es256_ok (x ∷ id) h = refl

credential_of-fields : (p : Printed) → IsCredential p → credential_of (fields p) ≡ some p.value
credential_of-fields p h =
    credential_of-some (encode p.value.id ++ replicate p.pad_id 61)
      (encode p.value.key ++ replicate p.pad_key 61) (codes "es256") (flags p.value.verification)
      p.value.id p.value.key (base64-encode p.value.id p.pad_id h.0)
      (base64-encode p.value.key p.pad_key h.1) (es256_ok p.value.id h.2)
    ∙ ap (λ b. some (record p.value { verification = b })) (contains-flags p.value.verification)

pub entry-Without : (p : Printed) → IsCredential p → Without 58 (print_entry p)
unfolding print_entry sextet
entry-Without p h =
    Without-join 58 44 (fields p) (λ e. cc e)
      (fields-Without 58 p refl (λ e. cc e) (Without-check 58 (codes "es256") refl)
        (flags-Without p.value.verification).1 h)

pub entries-print :
    (ps : List Printed) → All IsCredential ps → entries (map print_entry ps) ≡ map (λ p. p.value) ps
unfolding entries print_entry sextet
entries-print [] h = refl
entries-print (p ∷ ps) h =
    let fs : split 44 (print_entry p) ≡ fields p =
      split-join 44 (encode p.value.id ++ replicate p.pad_id 61) _ (
        fields-Without 44 p refl (λ e. cc e) (Without-check 44 (codes "es256") refl)
          (flags-Without p.value.verification).0 h.0) in
    let c : credential_of (split 44 (print_entry p)) ≡ some p.value =
      ap credential_of fs ∙ credential_of-fields p h.0 in
    rw (c, entries) (rw (entries-print ps h.1))
