-- ===== src/Command/Rights.antt =====
-- Who may give the commands that write to the system's files.
use passkey.Base.{
  ℕ, ◌≡◌, ◌≢◌, Bool, true, false, List, [], ◌∷◌, Option, none, some, if◌then◌else◌, ◌==◌, ==_iff,
  ◌||◌, same, Bool-cases, inl, inr,
}
use passkey.Base.Text.{Text, codes}
use passkey.Wifi.{SocketAddr, Addresses, endpoint}
use passkey.Command.{
  Action, wifi_add, wifi_list, wifi_remove, remove, root_wifi_add, root_wifi_list, root_wifi_remove,
  root_configure, root_use, root_store, root_remove, root_uninstall, wrong, as_root, first_or_wrong,
  two_or_wrong, if_endpoint, wifi_command, run,
}

-- The commands that write to the system's files, or read the secrets there.
abbrev is_root : Action → Bool
is_root root_wifi_add = true
is_root root_wifi_list = true
is_root (root_wifi_remove address) = true
is_root (root_configure user) = true
is_root (root_use device pid) = true
is_root (root_store user) = true
is_root (root_remove user handle) = true
is_root root_uninstall = true
is_root _ = false

module _ (euid : ℕ) where
  abbrev Allowed : Action → Type 0
  Allowed a = is_root a ≡ true → euid ≡ 0

  either : (b : Bool) (x y : Action) → Allowed x → Allowed y → Allowed (if b then x else y)
  either true x y h k = h
  either false x y h k = k

  Allowed-as_root : (a : Action) → Allowed (as_root euid a)
  Allowed-as_root a = elim (Bool-cases (euid == 0)) [
    | inl e ↦ rw e (λ h. (==_iff euid 0).0 e)
    | inr e ↦ rw e (λ h. cc h)
  ]

  Allowed-first : (args : List Text) → Allowed (first_or_wrong remove args)
  Allowed-first [] h = cc h
  Allowed-first (a ∷ as') h = cc h

  Allowed-endpoint : (o : Option SocketAddr) (a : Action) → Allowed a → Allowed (if_endpoint o a)
  Allowed-endpoint none a k h = cc h
  Allowed-endpoint (some b) a k h = k h

  Allowed-wifi : (w : Addresses) (args : List Text) → Allowed (wifi_command w args)
  unfolding wifi_command
  Allowed-wifi w [] = λ h. cc h
  Allowed-wifi w (verb ∷ []) =
      either (same verb (codes "list")) wifi_list wrong (λ h. cc h) (λ h. cc h)
  Allowed-wifi w (verb ∷ address ∷ []) =
      either (same verb (codes "add")) _ _
        (Allowed-endpoint (endpoint w address) (wifi_add address) (λ h. cc h))
        (either (same verb (codes "remove")) _ _
          (Allowed-endpoint (endpoint w address) (wifi_remove address) (λ h. cc h)) (λ h. cc h))
  Allowed-wifi w (verb ∷ address ∷ a ∷ as') = λ h. cc h

  Allowed-run :
      (w : Addresses) (command : Text) (args : List Text) → Allowed (run w euid command args)
  unfolding run
  Allowed-run w command args =
      either (same command (codes "add")) _ _ (λ h. cc h)
        (either (same command (codes "wifi")) _ _ (Allowed-wifi w args) (
          either (same command (codes "root-wifi-add")) _ _ (Allowed-as_root root_wifi_add) (
            either (same command (codes "root-wifi-list")) _ _ (Allowed-as_root root_wifi_list) (
              either (same command (codes "root-wifi-remove")) _ _
                (Allowed-as_root (first_or_wrong root_wifi_remove args))
                (either (same command (codes "list")) _ _ (λ h. cc h)
                  (either (same command (codes "remove")) _ _ (Allowed-first args) (
                    either (same command (codes "status")) _ _ (λ h. cc h)
                      (either (same command (codes "uninstall")) _ _ (λ h. cc h)
                        (either (same command (codes "root-configure")) _ _
                          (Allowed-as_root (first_or_wrong root_configure args))
                          (either (same command (codes "root-use")) _ _ (Allowed-as_root _) (
                            either (same command (codes "root-store")) _ _
                              (Allowed-as_root (first_or_wrong root_store args))
                              (either (same command (codes "root-remove")) _ _
                                (Allowed-as_root (two_or_wrong root_remove args))
                                (either (same command (codes "root-uninstall")) _ _
                                  (Allowed-as_root root_uninstall)
                                  (either
                                    (same command (codes "help")
                                      || same command (codes "--help")
                                      || same command (codes "-h"))
                                    _ _ (λ h. cc h) (λ h. cc h)))))))))))))))

-- For a user other than root no command is done that itself writes to the system's files or reads
-- the secrets there.
run-root :
    (w : Addresses) (euid : ℕ) (command : Text) (args : List Text)
    → euid ≢ 0
    → is_root (run w euid command args) ≡ false
run-root w euid command args h = elim (Bool-cases (is_root (run w euid command args))) [
  | inl e ↦ absurd (h (Allowed-run euid w command args e))
  | inr e ↦ e
]
