-- ===== src/Wifi/Directory/Load.antt =====
-- What `load_from` accepts, and a profile that has been saved.
use passkey.Base.{
  ◌%◌, ◌≤◌, ◌≡◌, refl, sym, true, List, [], ◌∷◌, Option, none, some, subst, filter, All, arith,
  Bool-cases, inl, inr,
}
use mathlib.Core.Option.{some-injective}
use passkey.Base.Text.{Text}
use passkey.Wifi.{Addresses, Peer}
use passkey.Wifi.Profile.{IsPeer, decode-IsPeer}
use passkey.Wifi.Directory.{
  Entry, is_conf, is_private, cons_peer, decode_text, load_entries, load_from,
}

-- A regular file of root that only root can use, of at most 512 bytes.
pub record IsPrivate (e : Entry) : Type 0 where
  pub regular : e.regular ≡ true
  pub owner : e.uid ≡ 0
  pub closed : e.mode % 64 ≡ 0
  pub short : e.size ≤ 512

IsPrivate-sound : (e : Entry) → is_private e ≡ true → IsPrivate e
unfolding is_private
IsPrivate-sound e h = record {
  regular = ground arith;
  owner = ground arith;
  closed = ground arith;
  short = ground arith;
}

pub cons_peer-some :
    (o : Option Peer) (r : Option (List Peer)) (ps : List Peer)
    → cons_peer o r ≡ some ps
    → (p : Peer) × (qs : List Peer) × (o ≡ some p) × (r ≡ some qs) × (ps ≡ p ∷ qs)
cons_peer-some (some p) (some qs) ps e = (p, qs, refl, refl, sym (some-injective (p ∷ qs) ps e))
cons_peer-some (some p) none ps e = cc e
cons_peer-some none r ps e = cc e

-- The peer of a text that could be read is local, with a pin and a secret of 32 bytes.
decode_text-IsPeer :
    (w : Addresses) (o : Option Text) (p : Peer) → decode_text w o ≡ some p → IsPeer p
decode_text-IsPeer w none p e = cc e
decode_text-IsPeer w (some text) p e = decode-IsPeer w text p e

abbrev Accepted : List Entry → List Peer → Type 0
Accepted es ps = All IsPrivate (filter (λ e. is_conf e.name) es) × All IsPeer ps

load_entries-Accepted :
    (w : Addresses) (es : List Entry) (ps : List Peer)
    → load_entries w es ≡ some ps
    → Accepted es ps
unfolding load_entries
load_entries-Accepted w [] ps h = (tt, subst (All IsPeer) (some-injective [] ps h) tt)
load_entries-Accepted w (e ∷ es) ps h = elim (Bool-cases (is_conf e.name)) [
  | inr n ↦ let r : Accepted es ps = load_entries-Accepted w es ps (rw n at h) in rw n r
  | inl c ↦ elim (Bool-cases (is_private e)) [
    | inr n ↦ cc (rw n at (rw c at h))
    | inl y ↦
        let (p, qs, d, k, q) =
          cons_peer-some (decode_text w e.text) (load_entries w es) ps (rw y at (rw c at h)) in
        let r : Accepted es qs = load_entries-Accepted w es qs k in
        rw c (
          (IsPrivate-sound e y, r.0),
          subst (All IsPeer) (sym q) (decode_text-IsPeer w e.text p d, r.1),
        )
  ]
]

-- What is loaded are peers in a local network with a pin and a secret of 32 bytes, and every
-- profile in the directory was a regular file of root that nobody else can use, of 512 bytes at
-- most: one that is not makes the whole load fail.
pub load_from-IsPrivate :
    (w : Addresses) (es : List Entry) (ps : List Peer)
    → load_from w (some es) ≡ some ps
    → All IsPrivate (filter (λ e. is_conf e.name) es) × All IsPeer ps
unfolding load_from
load_from-IsPrivate w es ps h = load_entries-Accepted w es ps h
