-- ===== src/Token/Virtual.antt =====
-- The device that `Device::open` opens.
use passkey.Base.{
  In, find_sound, ◌≡◌, refl, sym, ap, inl, inr, true, List, Option, none, some, ==_iff, find, arith,
  Bool-cases, Option-cases, subst,
}
use mathlib.Core.Option.{some-injective}
use passkey.Base.Text.{Text}
use passkey.Token.{Info, Devices, is_virtual, path_in, opened, open_device}

-- The device that the helper asks has the numbers of the virtual key.
pub record IsVirtualKey (d : Devices) : Type 0 where
  pub infos : List Info
  pub info : Info
  pub listed : d.manifest ≡ some infos
  pub is_in : In info infos
  pub vendor : info.vendor ≡ 0x1209
  pub product : info.product ≡ 0x7ab1
  pub is_open : d.opens info.path ≡ true

virtual_numbers :
    (info : Info) → is_virtual info ≡ true → (info.vendor ≡ 0x1209) × (info.product ≡ 0x7ab1)
virtual_numbers info h = ground (arith, ==_iff info.vendor 0x1209, ==_iff info.product 0x7ab1)

opened_path :
    (d : Devices) (o : Option Text) (path : Text)
    → opened d o ≡ some path
    → (o ≡ some path) × (d.opens path ≡ true)
opened_path d none path e = cc e
opened_path d (some p) path e = elim (Bool-cases (d.makes_device)) [
  | inr n ↦ cc (rw n at e)
  | inl y ↦ elim (Bool-cases (d.opens p)) [
    | inr n ↦ cc (rw (y, n) at e)
    | inl z ↦
        let q : p ≡ path = some-injective p path (rw (y, z) at e) in
        (ap some q, subst (λ t. d.opens t ≡ true) q z)
  ]
]

found_info :
    (d : Devices) (m : Option (List Info)) (path : Text)
    → d.manifest ≡ m
    → path_in m ≡ some path
    → d.opens path ≡ true
    → IsVirtualKey d
found_info d none path e h z = cc h
found_info d (some infos) path e h z = elim (Option-cases (find is_virtual infos)) [
  | inl n ↦ cc (rw n at h)
  | inr (info, f) ↦
      let (m, v) = find_sound is_virtual infos info f in
      let (a, b) = virtual_numbers info v in
      record {
        infos = infos;
        info = info;
        listed = e;
        is_in = m;
        vendor = a;
        product = b;
        is_open = subst (λ t. d.opens t ≡ true) (sym (some-injective info.path path (rw f at h))) z;
      }
]

pub open_device-IsVirtualKey :
    (d : Devices) (path : Text) → open_device d ≡ some path → IsVirtualKey d
unfolding open_device
open_device-IsVirtualKey d path e = elim (Bool-cases (d.makes_list)) [
  | inr n ↦ cc (rw n at e)
  | inl y ↦
      let (p, z) = opened_path d (path_in d.manifest) path (rw y at e) in
      found_info d d.manifest path refl p z
]
