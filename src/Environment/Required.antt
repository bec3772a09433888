-- ===== src/Environment/Required.antt =====
-- What `check_environment` asks for.
use passkey.Base.{
  ◌≡◌, ◌↔◌, refl, Bool, true, false, not, ◌&&◌, ◌||◌, List, [], ◌∷◌, ◌++◌, Option, none, some,
  if◌then◌else◌, ◌==◌, Bool-cases, inl, inr, subst,
}
use passkey.Base.Text.{Text, codes}
use passkey.Environment.{
  Computer, child, pam_module_dir, program_exists, has_bluetooth, ready, no_transport, unless,
  missing_of, checked, with_modules, check_environment,
}

-- PAM with the modules of pam_u2f and passkey, the programs for keys, the right to become root, and
-- one way at least to reach a phone.
pub record IsReady (h : Computer) (dir : Text) : Type 0 where
  pub services : h.is_dir (codes "/etc/pam.d") ≡ true
  pub modules : pam_module_dir h ≡ some dir
  pub u2f : h.is_file (child dir (codes "pam_u2f.so")) ≡ true
  pub passkey_module : h.is_file (child dir (codes "pam_passkey.so")) ≡ true
  pub registers : program_exists h (codes "pamu2fcfg") ≡ true
  pub lists_tokens : program_exists h (codes "fido2-token") ≡ true
  pub rights : (h.euid == 0 || program_exists h (codes "sudo")) ≡ true
  pub transport :
      (program_exists h (codes "adb") || (has_bluetooth h || h.is_dir (codes "/etc/passkey/wifi")))
      ≡ true

-- Nothing is missing only where every test holds.
unless_nil :
    (b : Bool) (t : Text) (rest : List Text) → unless b t ++ rest ≡ [] → (b ≡ true) × (rest ≡ [])
unless_nil true t rest e = (refl, e)
unless_nil false t rest e = cc e

unless_last : (b : Bool) (t : Text) → unless b t ≡ [] → b ≡ true
unless_last true t e = refl
unless_last false t e = cc e

checked_nil : (h : Computer) (texts : List Text) → checked h texts ≡ ready → texts ≡ []
checked_nil h [] e = refl
checked_nil h (t ∷ ts) e = cc e

transport_test :
    (a b c : Bool)
    → (if not a && (not b && not c) then no_transport else ready) ≡ ready
    → (a || (b || c)) ≡ true
transport_test true b c e = refl
transport_test false true c e = refl
transport_test false false true e = refl
transport_test false false false e = cc e

transport_found :
    (a b c : Bool)
    → (a || (b || c)) ≡ true
    → (if not a && (not b && not c) then no_transport else ready) ≡ ready
transport_found true b c e = refl
transport_found false true c e = refl
transport_found false false true e = refl
transport_found false false false e = cc e

with_modules_ready :
    (h : Computer) (o : Option Text)
    → pam_module_dir h ≡ o
    → with_modules h o ≡ ready
    → (dir : Text) × IsReady h dir
unfolding missing_of
with_modules_ready h none m e = cc e
with_modules_ready h (some dir) m e = elim (Bool-cases (h.is_dir (codes "/etc/pam.d"))) [
  | inr n ↦ cc (rw n at e)
  | inl y ↦
      let e' : checked h (missing_of h dir) ≡ ready = rw y at e in
      let none_missing : missing_of h dir ≡ [] = checked_nil h (missing_of h dir) e' in
      let (u, r1) = unless_nil _ _ _ none_missing in
      let (p, r2) = unless_nil _ _ _ r1 in
      let (g, r3) = unless_nil _ _ _ r2 in
      let (l, r4) = unless_nil _ _ _ r3 in
      (
        dir,
        record {
          services = y;
          modules = m;
          u2f = u;
          passkey_module = p;
          registers = g;
          lists_tokens = l;
          rights = unless_last _ _ r4;
          transport =
              transport_test (program_exists h (codes "adb")) (has_bluetooth h)
                (h.is_dir (codes "/etc/passkey/wifi"))
                (subst (λ ts. checked h ts ≡ ready) none_missing e');
        },
      )
]

-- `check_environment` succeeds exactly if the computer has PAM with the modules of pam_u2f and
-- passkey, the programs pamu2fcfg and fido2-token, root or sudo, and adb or Bluetooth or a
-- directory of phones paired over Wi-Fi.
pub check_environment-IsReady :
    (h : Computer) → (check_environment h ≡ ready) ↔ ((dir : Text) × IsReady h dir)
unfolding check_environment missing_of
check_environment-IsReady h = (with_modules_ready h (pam_module_dir h) refl, λ r. met r.0 r.1)
  where
    met : (dir : Text) → IsReady h dir → with_modules h (pam_module_dir h) ≡ ready
    met dir r =
        rw (r.modules, r.services, r.u2f, r.passkey_module, r.registers, r.lists_tokens, r.rights)
          (transport_found (program_exists h (codes "adb")) (has_bluetooth h)
            (h.is_dir (codes "/etc/passkey/wifi")) r.transport)
