-- ===== src/Adb/Trust.antt =====
-- Nothing is sent to an adb server that another user may have started.
use passkey.Base.{
  In, ℕ, ◌≡◌, ◌≢◌, refl, sym, Bool, true, false, ◌&&◌, List, [], ◌∷◌, Option, none, some, ◌==◌,
  ==_iff, same, same→eq, any, inl, inr, Bool-cases,
}
use passkey.Base.Text.{Text, codes}
use passkey.Adb.{
  TcpRow, proc_tcp, is_allowed, any_row, peer_row, LocalEnd, printed_end, adb_peer_trusted,
  adb_request,
}

-- What `any` has found.
any_sound :
    {A : Type 0} (p : A → Bool) (xs : List A) → any p xs ≡ true → (x : A) × In x xs × (p x ≡ true)
any_sound p [] h = cc h
any_sound p (x ∷ xs) h = elim (Bool-cases (p x)) [
  | inl e ↦ (x, inl refl, e)
  | inr e ↦ let (y, m, k) = any_sound p xs (rw e at h) in (y, inr m, k)
]

and_left : (a b : Bool) → (a && b) ≡ true → a ≡ true
and_left true b h = refl
and_left false b h = cc h

and_right : (a b : Bool) → (a && b) ≡ true → b ≡ true
and_right true b h = h
and_right false b h = cc h

allowed_sound : (allowed : List ℕ) (uid : ℕ) → is_allowed allowed uid ≡ true → In uid allowed
allowed_sound [] uid h = cc h
allowed_sound (u ∷ us) uid h = elim (Bool-cases (u == uid)) [
  | inl e ↦ inl (sym ((==_iff u uid).0 e))
  | inr e ↦ inr (allowed_sound us uid (rw e at h))
]

-- A row of the kernel's table: the socket at the other side of ours, by its two ends, and its user.
pub record IsPeer (allowed : List ℕ) (e : LocalEnd) (row : TcpRow) : Type 0 where
  pub serves : row.local_end ≡ codes "0100007F:13AD"
  pub faces : row.remote_end ≡ printed_end e
  pub user : In row.uid allowed

IsPeer-sound :
    (allowed : List ℕ) (e : LocalEnd) (row : TcpRow)
    → peer_row allowed (printed_end e) row ≡ true
    → IsPeer allowed e row
unfolding same
IsPeer-sound allowed e row h =
    let a : Bool = same row.local_end (codes "0100007F:13AD") in
    let b : Bool = same row.remote_end (printed_end e) in
    let c : Bool = is_allowed allowed row.uid in
    record {
      serves = same→eq row.local_end (codes "0100007F:13AD") (and_left a (b && c) h);
      faces = same→eq row.remote_end (printed_end e) (and_left b c (and_right a (b && c) h));
      user = allowed_sound allowed row.uid (and_right b c (and_right a (b && c) h));
    }

rows_sound :
    (allowed : List ℕ) (e : LocalEnd) (o : Option (List TcpRow))
    → any_row (peer_row allowed (printed_end e)) o ≡ true
    → (rows : List TcpRow) × (row : TcpRow) × (o ≡ some rows) × In row rows × IsPeer allowed e row
rows_sound allowed e none h = cc h
rows_sound allowed e (some rows) h =
    let (row, m, k) = any_sound (peer_row allowed (printed_end e)) rows h in
    (rows, row, refl, m, IsPeer-sound allowed e row k)

-- On a new connection a request is sent only where the kernel's table has the socket that faces
-- ours, on the port of adb, for root, the daemon's user or the user that was set for adb.
pub adb_request-IsPeer :
    (allowed : List ℕ) (content : Option Text) (ours : Option LocalEnd) (service : Text)
    (incoming : List ℕ)
    → (adb_request (adb_peer_trusted allowed content ours) service incoming).0 ≢ []
    → (e : LocalEnd) × (rows : List TcpRow) × (row : TcpRow) × (ours ≡ some e)
      × (proc_tcp content ≡ some rows)
      × In row rows
      × IsPeer allowed e row
unfolding adb_request adb_peer_trusted
adb_request-IsPeer allowed content none service incoming h = absurd (h refl)
adb_request-IsPeer allowed content (some e) service incoming h =
    elim (Bool-cases (any_row (peer_row allowed (printed_end e)) (proc_tcp content))) [
      | inr n ↦ absurd (rw n at h refl)
      | inl y ↦
          let (rows, row, q, m, p) = rows_sound allowed e (proc_tcp content) y in
          (e, rows, row, refl, q, m, p)
    ]
