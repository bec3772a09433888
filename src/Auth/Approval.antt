-- ===== src/Auth/Approval.antt =====
-- When the helper of src/pam_auth.rs reports an approval.
use passkey.Base.{
  In, find_sound, false, ◌&&◌, ◌++◌, if◌then◌else◌, ℕ, ◌≡◌, refl, sym, ap, inl, inr, Bool, true,
  ◌||◌, List, [], ◌∷◌, Option, none, some, ==_iff, same, same→eq, any, find, arith, Bool-cases,
  Option-cases,
}
use passkey.Base.Text.{Text}
use passkey.Token.{open_device, new_assertion}
use passkey.Token.Virtual.{IsVirtualKey, open_device-IsVirtualKey}
use passkey.Auth.{
  Sent, with_device, ids_of, Credential, Options, no_options, options, Fido, named, verify, ask,
  is_c_string, run_with, run, credentials,
}

-- A signature of the request: a single one, over a key of the user that it names, asked for with
-- the verification of the user where an option or a key wants it.
pub record IsSigned (w : Fido) (verification : Bool) (keys : List Credential) : Type 0 where
  pub key : Credential
  pub is_key : In key keys
  pub asked : w.get (verification || any (λ c. c.verification) keys) ≡ true
  pub single : w.count ≡ 1
  pub names : w.id ≡ some key.id
  pub accepted : w.accepts key.key ≡ true

-- The key that `verify` finds.
named_key :
    (w : Fido) (keys : List Credential) (id : Option (List ℕ))
    → named w keys id ≡ true
    → (c : Credential) × In c keys × (id ≡ some c.id) × (w.accepts c.key ≡ true)
named_key w keys none h = cc
named_key w keys (some id) h = elim (Option-cases (find (λ c. same c.id id) keys)) [
  | inl n ↦ cc (rw (n, named) at h)
  | inr (c, e) ↦
      let (m, k) = find_sound (λ c. same c.id id) keys c e in
      (c, m, ap some (sym (same→eq c.id id k)), rw (e, named) at h)
]

verify_key :
    (w : Fido) (keys : List Credential)
    → verify w keys ≡ true
    → (w.count ≡ 1) × (named w keys w.id ≡ true)
unfolding verify
verify_key w keys h = ground (arith, ==_iff w.count 1)

-- The requests that went to the device: the last one asks for the user's approval, and one before it
-- asks for none.
pub data IsAsked (uv : Bool) : List Sent → Type 0 where
  asked_once : IsAsked uv (record { up = true; uv = uv } ∷ [])
  probed : IsAsked uv (record { up = false; uv = false } ∷ record { up = true; uv = uv } ∷ [])

abbrev wants : Bool → List Credential → Bool
wants verification keys = verification || any (λ (c : Credential). c.verification) keys

-- What has happened when `run` with the content of the file succeeds.
abbrev Signed : Fido → Bool → List Credential → List Sent × Bool → Type 0
Signed w verification keys r =
    r.1 ≡ true
    → IsSigned w verification keys × IsVirtualKey w.devices × IsAsked (wants verification keys) r.0

IsSigned-ask :
    (w : Fido) (verification : Bool) (keys : List Credential)
    → (w.get (wants verification keys) && (verify w keys && w.pipe)) ≡ true
    → IsSigned w verification keys
IsSigned-ask w verification keys h =
    let parts : (w.get (wants verification keys) ≡ true) × (verify w keys ≡ true) = ground arith in
    let one : (w.count ≡ 1) × (named w keys w.id ≡ true) = verify_key w keys parts.1 in
    let (c, is_key, names, accepted) = named_key w keys w.id one.1 in
    record {
      key = c;
      is_key = is_key;
      asked = parts.0;
      single = one.0;
      names = names;
      accepted = accepted;
    }

Signed-with_device :
    (w : Fido) (origin : Text) (verification : Bool) (keys : List Credential) (o : Option Text)
    → open_device w.devices ≡ o
    → Signed w verification keys (with_device w origin (wants verification keys) keys o)
Signed-with_device w origin verification keys none e = λ h. cc h
Signed-with_device w origin verification keys (some path) e =
    elim (Bool-cases (new_assertion w.builder origin (ids_of keys))) [
      | inr n ↦ rw n (λ h. cc h)
      | inl y ↦ rw y (λ h. (
        IsSigned-ask w verification keys h,
        open_device-IsVirtualKey w.devices path e,
        by_probe (new_assertion w.probe origin (ids_of keys)),
      ))
    ]
  where
    by_probe :
        (b : Bool)
        → IsAsked (wants verification keys) (
            (if b then record { up = false; uv = false } ∷ [] else [])
            ++ record { up = true; uv = wants verification keys } ∷ [])
    by_probe true = probed
    by_probe false = asked_once

Signed-ask :
    (w : Fido) (origin : Text) (verification : Bool) (keys : List Credential)
    → Signed w verification keys (ask w origin verification keys)
unfolding ask
Signed-ask w origin verification [] = λ h. cc h
Signed-ask w origin verification (k ∷ ks) =
    Signed-with_device w origin verification (k ∷ ks) (open_device w.devices) refl

-- The file that the options name was read, and a key of the user in it has signed a request that the
-- virtual key got.
pub record IsApproved (w : Fido) (user : Text) (o : Options) (sent : List Sent) : Type 0 where
  pub authfile : Text
  pub content : Text
  pub named_file : o.authfile ≡ some authfile
  pub has_content : w.read_file authfile ≡ some content
  pub signed : IsSigned w o.verification (credentials content user)
  pub device : IsVirtualKey w.devices
  pub asked : IsAsked (wants o.verification (credentials content user)) sent

run_with-IsApproved :
    (w : Fido) (user : Text) (o : Options) (authfile origin : Option Text)
    → o.authfile ≡ authfile
    → (run_with w user o authfile origin).1 ≡ true
    → IsApproved w user o (run_with w user o authfile origin).0
run_with-IsApproved w user o none origin e = λ h. cc h
run_with-IsApproved w user o (some authfile) none e = λ h. cc h
run_with-IsApproved w user o (some authfile) (some origin) e =
    elim (Bool-cases (is_c_string origin)) [
      | inr c ↦ rw c (λ h. cc h)
      | inl c ↦ rw c (elim (Option-cases (w.read_file authfile)) [
        | inl n ↦ rw n (λ h. cc h)
        | inr (content, r) ↦ rw r (λ h.
            let (s, d, a) = Signed-ask w origin o.verification (credentials content user) h in
            record {
              authfile = authfile;
              content = content;
              named_file = e;
              has_content = r;
              signed = s;
              device = d;
              asked = a;
            })
      ])
    ]

-- The helper reports an approval only if the file that its options name has a key of the user that
-- the single signature names and that accepts it, and the user's verification was asked for where
-- an option or any key of the user wants it. The request for the approval was the last one, and went
-- to a device with the numbers of the virtual key.
pub run-IsApproved :
    (w : Fido) (user : Text) (args : List Text)
    → (run w (user ∷ args)).1 ≡ true
    → IsApproved w user (options no_options args) (run w (user ∷ args)).0
unfolding run
run-IsApproved w user args h =
    let o : Options = options no_options args in
    run_with-IsApproved w user o o.authfile o.origin refl h
