-- ===== src/Wifi/Connect.antt =====
-- The start of a connection over Wi-Fi.
use passkey.Base.{
  ℕ, ◌≡◌, ◌≢◌, refl, ap, List, [], ◌∷◌, ◌++◌, Option, none, some, same, same→eq, take, Bool-cases,
  inl, inr,
}
use passkey.Base.Text.{Text}
use passkey.Wifi.{Peer, magic, connect}

-- Nothing is sent, the secret least of all, before the certificate is the one that was paired.
connect-pin :
    (p : Peer) (digest : Option (List ℕ)) (incoming : List ℕ)
    → (connect p digest incoming).0 ≢ []
    → digest ≡ some p.pin
unfolding connect
connect-pin p none incoming h = absurd (h refl)
connect-pin p (some digest) incoming h = elim (Bool-cases (same digest p.pin)) [
  | inl e ↦ ap some (same→eq digest p.pin e)
  | inr e ↦ absurd (rw e at h refl)
]

-- A link is made only with the paired phone, after it has acknowledged the secret.
pub connect-link :
    (p : Peer) (digest : Option (List ℕ)) (incoming : List ℕ) (label : Text)
    → (connect p digest incoming).1 ≡ some label
    → (digest ≡ some p.pin)
      × ((connect p digest incoming).0 ≡ magic ++ p.secret)
      × (take 5 incoming ≡ 0 ∷ 0 ∷ 0 ∷ 1 ∷ 0x22 ∷ [])
unfolding connect
connect-link p none incoming label h = cc h
connect-link p (some digest) incoming label h = elim (Bool-cases (same digest p.pin)) [
  | inl e ↦ elim (Bool-cases (same (take 5 incoming) (0 ∷ 0 ∷ 0 ∷ 1 ∷ 0x22 ∷ []))) [
    | inl a ↦ (
      ap some (same→eq digest p.pin e),
      rw (e, a) refl,
      same→eq (take 5 incoming) (0 ∷ 0 ∷ 0 ∷ 1 ∷ 0x22 ∷ []) a,
    )
    | inr a ↦ cc (rw a at (rw e at h))
  ]
  | inr e ↦ cc (rw e at h)
]
