-- ===== src/Adding/Cleared.antt =====
-- The choice of a device is cleared when `add` returns.
use passkey.Base.{
  ◌≡◌, refl, ◌∙◌, Bool, true, false, not, List, [], ◌∷◌, ◌++◌, Option, none, some, if◌then◌else◌,
  any, same, Bool-cases, inl, inr,
}
use passkey.Base.Text.{Text, codes, trim}
use passkey.Base.Decimal.{decimal}
use passkey.Hid.{is_some}
use passkey.Registry.{names_for}
use passkey.Environment.{check_environment}
use passkey.Client.{
  Selection, selected, refused, select_connection, connected_devices, base_of, default_name,
  root_use,
}
use passkey.Adding.{
  Call, configure, use_device, clear, store, World, Outcome, is_credential, store_credential,
  with_hostname, clean, or_name, with_name, entered, register, used, with_selection, is_ready,
  virtual_device, for_user, add,
}

-- The file `use` after calls, of which those that do not succeed leave it.
abbrev content_or : Option Text → Option (Option Text) → Option Text
content_or f none = f
content_or f (some g) = g

abbrev apply : (Call → Bool) → Call → Option Text → Option Text
apply ok (use_device id pid) f =
    if ok (use_device id pid) then content_or f (root_use (some id) (some pid)) else f
apply ok clear f = if ok clear then content_or f (root_use none none) else f
apply ok (configure user) f = f
apply ok (store user input) f = f

unfoldable pub use_after : (Call → Bool) → List Call → Option Text → Option Text
unfolding root_use
use_after ok [] f = f
use_after ok (c ∷ cs) f = use_after ok cs (apply ok c f)

use_after-append :
    (ok : Call → Bool) (cs ds : List Call) (f : Option Text)
    → use_after ok (cs ++ ds) f ≡ use_after ok ds (use_after ok cs f)
unfolding use_after
use_after-append ok [] ds f = refl
use_after-append ok (c ∷ cs) ds f = use_after-append ok cs ds (apply ok c f)

module _ (w : World) where
  -- What leaves the file alone.
  abbrev Leaves : Outcome → Type 0
  Leaves r = (f : Option Text) → use_after w.succeeds r.0 f ≡ f

  either : (b : Bool) (r q : Outcome) → Leaves r → Leaves q → Leaves (if b then r else q)
  either true r q h k = h
  either false r q h k = k

  Leaves-nil : Leaves ([], false)
  unfolding use_after
  Leaves-nil f = refl

  Leaves-store_credential :
      (user name : Text) (o : Option Text) → Leaves (store_credential w user name o)
  unfolding use_after
  Leaves-store_credential user name none = Leaves-nil
  Leaves-store_credential user name (some output) =
      either (not (is_credential (trim output))) _ _ Leaves-nil (λ f. refl)

  Leaves-with_hostname : (user name : Text) (o : Option Text) → Leaves (with_hostname w user name o)
  Leaves-with_hostname user name none = Leaves-nil
  Leaves-with_hostname user name (some host) =
      Leaves-store_credential user name (w.pamu2fcfg user (codes "pam://" ++ host))

  Leaves-with_name :
      (user : Text) (existing : List Text) (d n : Option Text)
      → Leaves (with_name w user existing d n)
  Leaves-with_name user existing none none = Leaves-nil
  Leaves-with_name user existing none (some name) = Leaves-nil
  Leaves-with_name user existing (some default) none = Leaves-nil
  Leaves-with_name user existing (some default) (some name) =
      either (any (λ old. same old (clean (or_name default name))) existing) _ _ Leaves-nil
        (Leaves-with_hostname user (clean (or_name default name)) w.hostname)

  Leaves-register :
      (user : Text) (given : Option Text) (base : Text) → Leaves (register w user given base)
  unfolding register
  Leaves-register user given base =
      Leaves-with_name user (names_for user w.files) (default_name (names_for user w.files) base)
        (entered w given)

  module _ (cleared : w.succeeds clear ≡ true) where
    abbrev Clears : Outcome → Type 0
    Clears r = use_after w.succeeds r.0 none ≡ none

    last_clear : (f : Option Text) → use_after w.succeeds (clear ∷ []) f ≡ none
    unfolding use_after
    last_clear f = rw cleared

    Clears-used : (id pid : Text) (r : Outcome) → Leaves r → Clears (used w (use_device id pid) r)
    unfolding use_after
    Clears-used id pid (calls, ok) h = elim (Bool-cases (w.succeeds (use_device id pid))) [
      | inr e ↦ rw (e, e)
      | inl e ↦ rw e (
          use_after-append w.succeeds calls (clear ∷ []) (apply w.succeeds (use_device id pid) none)
          ∙ last_clear (use_after w.succeeds calls (apply w.succeeds (use_device id pid) none)))
    ]

    Clears-with_selection :
        (user : Text) (given : Option Text) (s : Selection) → Clears (with_selection w user given s)
    unfolding with_selection use_after
    Clears-with_selection user given refused = refl
    Clears-with_selection user given (selected none) =
        Leaves-register user given (base_of none) none
    Clears-with_selection user given (selected (some (id, label))) =
        Clears-used id (decimal w.pid) _ (Leaves-register user given (base_of (some (id, label))))

    Clears-if : (b : Bool) (r q : Outcome) → Clears r → Clears q → Clears (if b then r else q)
    Clears-if true r q h k = h
    Clears-if false r q h k = k

    Clears-for_user : (given user : Option Text) → Clears (for_user w given user)
    unfolding use_after
    Clears-for_user given none = refl
    Clears-for_user given (some user) =
        Clears-if (not (is_ready (check_environment w.computer))) _ _ refl (
          Clears-if (not (w.succeeds (configure user))) _ _ refl (
            Clears-if (not (is_some (virtual_device w.tokens))) _ _ refl (
              Clears-with_selection user given
                (select_connection (connected_devices w.devices) w.terminal w.answers))))

-- However `add` returns, a device that it had the daemon prefer is preferred no more, if the command
-- that clears the choice succeeds.
pub add-cleared :
    (w : World) (given : Option Text)
    → w.succeeds clear ≡ true
    → use_after w.succeeds (add w given).0 none ≡ none
unfolding add
add-cleared w given h = Clears-for_user w h given w.user
