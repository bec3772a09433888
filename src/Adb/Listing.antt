-- ===== src/Adb/Listing.antt =====
-- The list of devices of the adb server.
use passkey.Base.{
  ℕ, zero, suc, ◌/◌, ◌%◌, ◌^◌, ◌<◌, ◌≡◌, ◌≢◌, refl, sym, ap, ◌∙◌, Bool, List, [], ◌∷◌, ◌++◌, Option,
  none, some, if◌then◌else◌, ==_ne, ltb-false, length, length-append, take, drop, take-append,
  drop-append, same, map, All, arith, Bool-cases, inl, inr, filter,
}
use native.Mathlib.Nat.{pow-suc}
use passkey.Base.Text.{Text, codes, strip_suffix}
use passkey.Base.Split.{Without, unlines}
use passkey.Base.Lines.{IsLine, IsLine-append, lines-unlines_lem}
use passkey.Wifi.{hex_digit, hex_value}
use passkey.Wifi.Hex.{hex_value-digit}
use passkey.Adb.{lower_hex, hex_step, hex_number, from_hex, keep_serial, serials_of, adb_devices}

-- A line of the list: a serial number and a state.
abbrev row_line : Text × Text → Text
row_line (serial, state) = serial ++ 9 ∷ state

abbrev IsRow : Text × Text → Type 0
IsRow (serial, state) = IsLine serial × Without 9 serial × IsLine state × Without 9 state

no_suffix : (s : Text) → Without 9 s → strip_suffix (codes "\tdevice") s ≡ none
unfolding strip_suffix same
no_suffix [] h = refl
no_suffix (c ∷ s) h = rw (==_ne c 9 h.0, no_suffix s h.1)

suffix-row :
    (serial state : Text)
    → Without 9 serial
    → Without 9 state
    → strip_suffix (codes "\tdevice") (serial ++ 9 ∷ state)
      ≡ (if same state (codes "device") then some serial else none)
unfolding strip_suffix same
suffix-row [] state h k = elim (Bool-cases (same state (codes "device"))) [
  | inl e ↦ rw e
  | inr e ↦ rw (e, no_suffix state k)
]
suffix-row (c ∷ serial) state h k = elim (Bool-cases (same state (codes "device"))) [
  | inl e ↦ rw (==_ne c 9 h.0, suffix-row serial state h.1 k, e)
  | inr e ↦ rw (==_ne c 9 h.0, suffix-row serial state h.1 k, e)
]

-- The serial numbers of the devices that are ready.
abbrev pub is_ready : Text × Text → Bool
is_ready (serial, state) = same state (codes "device")

abbrev serial_of : Text × Text → Text
serial_of (serial, state) = serial

serials_of-rows :
    (rows : List (Text × Text))
    → All IsRow rows
    → serials_of (map row_line rows) ≡ map serial_of (filter is_ready rows)
serials_of-rows [] h = refl
serials_of-rows ((serial, state) ∷ rows) h =
    ap (λ o. keep_serial o (serials_of (map row_line rows))) (suffix-row serial state h.0.1 h.0.3)
    ∙ elim (Bool-cases (same state (codes "device"))) [
      | inl e ↦ rw e (ap (λ ts. serial ∷ ts) (serials_of-rows rows h.1))
      | inr e ↦ rw e (serials_of-rows rows h.1)
    ]

rows_lines : (rows : List (Text × Text)) → All IsRow rows → All IsLine (map row_line rows)
rows_lines [] h = tt
rows_lines ((serial, state) ∷ rows) h = (
  IsLine-append serial (9 ∷ state) h.0.0
      (((λ e. absurd (omega arith)), h.0.2.0), ((λ e. absurd (omega arith)), h.0.2.1)),
  rows_lines rows h.1,
)

-- The length before the list is read as it is printed.
hex_number-append :
    (s t : Text) (n : Option ℕ) → hex_number n (s ++ t) ≡ hex_number (hex_number n s) t
hex_number-append [] t n = refl
hex_number-append (c ∷ s) t n = hex_number-append s t (hex_step n (hex_value c))

hex_number-lower_hex : (w n : ℕ) → n < 16 ^ w → hex_number (some 0) (lower_hex w n) ≡ some n
unfolding lower_hex
hex_number-lower_hex zero n h = ap some (omega arith)
hex_number-lower_hex (suc w) n h =
    hex_number-append (lower_hex w (n / 16)) (hex_digit (n % 16) ∷ []) (some 0)
    ∙ rw
        (
          hex_number-lower_hex w (n / 16) (let p = pow-suc 16 w in omega arith),
          hex_value-digit (n % 16) (omega arith),
        )
        (ap some (omega arith))

length-lower_hex : (w n : ℕ) → length (lower_hex w n) ≡ w
unfolding lower_hex
length-lower_hex zero n = refl
length-lower_hex (suc w) n =
    let l = length-append (lower_hex w (n / 16)) (hex_digit (n % 16) ∷ []) in
    omega (arith, length-lower_hex w (n / 16))

first_digit : (n : ℕ) → n < 16 → hex_digit n ≢ 43
first_digit n h = ground arith

from_hex-lower_hex : (n : ℕ) → n < 65536 → from_hex (lower_hex 4 n) ≡ some n
unfolding from_hex lower_hex
from_hex-lower_hex n h =
    rw
      (==_ne (hex_digit (n / 16 / 16 / 16 % 16)) 43
        (first_digit (n / 16 / 16 / 16 % 16) (omega arith)))
      (hex_number-lower_hex 4 n h)

-- The server lists each device with its state on a line, behind the length in four hexadecimal
-- digits: what is taken are the serial numbers of the devices that are ready, in that order.
adb_devices-rows :
    (rows : List (Text × Text)) (more : List ℕ)
    → All IsRow rows
    → length (unlines (map row_line rows)) < 65536
    → adb_devices (
        lower_hex 4 (length (unlines (map row_line rows))) ++ (unlines (map row_line rows) ++ more))
      ≡ some (map serial_of (filter is_ready rows))
unfolding adb_devices
adb_devices-rows rows more h n =
    let text : Text = unlines (map row_line rows) in
    let size : Text = lower_hex 4 (length text) in
    let four : length size ≡ 4 = length-lower_hex 4 (length text) in
    let a = length-append size (text ++ more) in
    let b = length-append text more in
    rw
      (
        ltb-false (length (size ++ (text ++ more))) 4 (omega arith),
        sym (ap (λ k. take k (size ++ (text ++ more))) four) ∙ take-append size (text ++ more),
        sym (ap (λ k. drop k (size ++ (text ++ more))) four) ∙ drop-append size (text ++ more),
        from_hex-lower_hex (length text) n,
        ltb-false (length (text ++ more)) (length text) (omega arith),
        take-append text more,
        lines-unlines_lem (map row_line rows) (rows_lines rows h),
      )
      (ap some (serials_of-rows rows h))
