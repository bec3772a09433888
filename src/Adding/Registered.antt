-- ===== src/Adding/Registered.antt =====
-- What has been registered when `add` succeeds.
use passkey.Base.{
  suc, ◌≡◌, refl, sym, subst, Bool, true, false, not, List, [], ◌∷◌, ◌++◌, Option, none, some,
  if◌then◌else◌, any, same, length, Bool-cases, inl, inr,
}
use passkey.Base.Text.{Text, codes, trim}
use passkey.Hid.{is_some, is_empty}
use passkey.Registry.{names_for, root_store}
use passkey.Registry.Stored.{IsCredential, IsName, registration, stored, root_store-stored}
use passkey.Environment.{check_environment}
use passkey.Client.{
  Selection, selected, refused, select_connection, connected_devices, base_of, default_name,
}
use passkey.Adding.{
  Call, configure, clear, store, World, Outcome, input_of, is_credential, store_credential,
  with_hostname, clean, or_name, with_name, entered, register, used, with_selection, is_ready,
  virtual_device, for_user, add,
}
use passkey.Base.{In, In-append}
use passkey.Adding.Names.{clean-IsName, default_loop-full, base_of-full, or_name-full}

module _ (w : World) (c : Text)
    (prints : (user origin output : Text)
      → w.pamu2fcfg user origin ≡ some output
      → trim output ≡ 58 ∷ c) where
  -- What a part of `add` that succeeds has done.
  abbrev Registers : Text → Outcome → Type 0
  Registers user r =
      r.1 ≡ true
      → (name : Text) × IsName name
        × (any (λ old. same old name) (names_for user w.files) ≡ false)
        × In (store user (registration c name)) r.0
        × (w.succeeds (store user (registration c name)) ≡ true)

  Registers-store_credential :
      (user origin name : Text) (o : Option Text)
      → w.pamu2fcfg user origin ≡ o
      → IsName name
      → any (λ old. same old name) (names_for user w.files) ≡ false
      → Registers user (store_credential w user name o)
  Registers-store_credential user origin name none e n new = λ h. cc h
  Registers-store_credential user origin name (some output) e n new =
      subst
        (λ t. Registers user (
          let call = store user (input_of t name) in
          if not (is_credential t) then ([], false) else (call ∷ [], w.succeeds call)))
        (sym (prints user origin output e)) (by_comma (is_credential (58 ∷ c)))
    where
      by_comma :
          (b : Bool)
          → Registers user (
              if not b then ([], false) else (
                store user (input_of (58 ∷ c) name) ∷ [],
                w.succeeds (store user (input_of (58 ∷ c) name)),
              ))
      by_comma false h = cc h
      by_comma true h = (name, n, new, inl refl, h)

  Registers-with_hostname :
      (user name : Text) (o : Option Text)
      → IsName name
      → any (λ old. same old name) (names_for user w.files) ≡ false
      → Registers user (with_hostname w user name o)
  Registers-with_hostname user name none n new = λ h. cc h
  Registers-with_hostname user name (some host) n new =
      Registers-store_credential user (codes "pam://" ++ host) name _ refl n new

  Registers-with_name :
      (user : Text) (d o : Option Text)
      → ((default : Text) → d ≡ some default → is_empty default ≡ false)
      → Registers user (with_name w user (names_for user w.files) d o)
  Registers-with_name user none none f = λ h. cc h
  Registers-with_name user none (some name) f = λ h. cc h
  Registers-with_name user (some default) none f = λ h. cc h
  Registers-with_name user (some default) (some name) f =
      elim (Bool-cases
        (any (λ old. same old (clean (or_name default name))) (names_for user w.files))) [
          | inl e ↦ rw e (λ h. cc h)
          | inr e ↦ rw e (
              Registers-with_hostname user (clean (or_name default name)) w.hostname
                (clean-IsName (or_name default name) (or_name-full default name (f default refl)))
                e)
        ]

  Registers-register :
      (user : Text) (given : Option Text) (o : Option (Text × Text))
      → Registers user (register w user given (base_of o))
  unfolding register default_name
  Registers-register user given o =
      let existing : List Text = names_for user w.files in
      Registers-with_name user (default_name existing (base_of o)) (entered w given) (λ default e.
        default_loop-full existing (base_of o) default (suc (length existing)) (base_of o) 2
          (base_of-full o) e)

  Registers-in :
      (user : Text) (calls more : List Call) (ok : Bool)
      → Registers user (calls, ok)
      → Registers user (calls ++ more, ok)
  Registers-in user calls more ok g h =
      let (name, n, new, m, ok) = g h in
      (name, n, new, In-append (store user (registration c name)) calls more m, ok)

  Registers-after :
      (user : Text) (call : Call) (calls : List Call) (ok : Bool)
      → Registers user (calls, ok)
      → Registers user (call ∷ calls, ok)
  Registers-after user call calls ok g h =
      let (name, n, new, m, k) = g h in (name, n, new, inr m, k)

  Registers-used :
      (user : Text) (call : Call) (r : Outcome) → Registers user r → Registers user (used w call r)
  Registers-used user call (calls, ok) g = elim (Bool-cases (w.succeeds call)) [
    | inl e ↦ rw e (
        Registers-after user call (calls ++ clear ∷ []) ok
          (Registers-in user calls (clear ∷ []) ok g))
    | inr e ↦ rw e (λ h. cc h)
  ]

  Registers-with_selection :
      (user : Text) (given : Option Text) (s : Selection)
      → Registers user (with_selection w user given s)
  unfolding with_selection
  Registers-with_selection user given refused = λ h. cc h
  Registers-with_selection user given (selected none) = Registers-register user given none
  Registers-with_selection user given (selected (some (id, label))) =
      Registers-used user _ _ (Registers-register user given (some (id, label)))

  Registers-if :
      (user : Text) (b : Bool) (r q : Outcome)
      → Registers user r
      → Registers user q
      → Registers user (if b then r else q)
  Registers-if user true r q h k = h
  Registers-if user false r q h k = k

  Registers-for_user :
      (given : Option Text) (user : Text) → Registers user (for_user w given (some user))
  Registers-for_user given user =
      let r : Outcome =
        with_selection w user given
          (select_connection (connected_devices w.devices) w.terminal w.answers) in
      Registers-if user (not (is_ready (check_environment w.computer))) _ _ (λ h. cc h)
        (Registers-if user (not (w.succeeds (configure user))) _ _ (λ h. cc h)
          (Registers-if user (not (is_some (virtual_device w.tokens))) _ _ (λ h. cc h)
            (Registers-after user (configure user) r.0 r.1 (
              Registers-with_selection user given
                (select_connection (connected_devices w.devices) w.terminal w.answers)))))

  registered_by :
      (given o : Option Text)
      → (for_user w given o).1 ≡ true
      → (user : Text) × (o ≡ some user)
        × ((name : Text) × IsName name
            × (any (λ old. same old name) (names_for user w.files) ≡ false)
            × In (store user (registration c name)) (for_user w given o).0
            × (w.succeeds (store user (registration c name)) ≡ true))
  registered_by given none h = cc h
  registered_by given (some user) h = (user, refl, Registers-for_user given user h)

-- Where pamu2fcfg prints a colon and a well-formed key, when it prints anything: when `add`
-- succeeds, root has been given this key for the user who gave the command, with a name that none
-- of the user's keys has, and has reported that it is stored; and what root is given is a
-- registration that `root_store` takes.
pub add-registered :
    (w : World) (given : Option Text) (c : Text)
    → IsCredential c
    → ((user origin output : Text) → w.pamu2fcfg user origin ≡ some output → trim output ≡ 58 ∷ c)
    → (add w given).1 ≡ true
    → (user name : Text) × (w.user ≡ some user)
      × IsName name
      × (any (λ old. same old name) (names_for user w.files) ≡ false)
      × In (store user (registration c name)) (add w given).0
      × (w.succeeds (store user (registration c name)) ≡ true)
      × (root_store user (registration c name) w.files ≡ some (stored user c name w.files))
unfolding add
add-registered w given c k prints h =
    let (user, e, r) = registered_by w c prints given w.user h in
    let (name, n, new, m, ok) = r in
    (user, name, e, n, new, m, ok, root_store-stored user c name w.files k n)
