-- ===== src/Fan/Rule.antt =====
-- The rule by which facts about `fan_out` are proved: they hold at the start, and every message
-- of a pending link keeps them.
use passkey.Base.{
  In, ℕ, suc, ◌≡◌, refl, subst, ap, ◌≢◌, Bool, true, false, not, ◌&&◌, ◌||◌, List, [], ◌∷◌, ◌++◌,
  some, arith, ◌==◌, ==_iff, length, All, any, Bool-cases, Option-cases, ==_self, inl, inr,
}
use mathlib.Core.Option.{some-injective}
use passkey.Link.{Link}
use passkey.Hid.{is_empty}
use passkey.Report.{ctap2_err_other}
use passkey.Links.{without}
use passkey.Fan.{
  settle, pulse, Poll, Fan, judge, answer, pass, round, settled, loop, operation_denied,
}

-- A link's identity is its own.
abbrev pub Fresh : ℕ → List Link → Type 0
Fresh n ls = All (λ l. l.serial ≢ n) ls

abbrev pub IsUnique : List Link → Type 0
IsUnique [] = Unit {0}
IsUnique (l ∷ ls) = Fresh l.serial ls × IsUnique ls

abbrev pub has : ℕ → List Link → Bool
has n ls = any (λ l. l.serial == n) ls

without-Fresh : (n : ℕ) (ls : List Link) → Fresh n ls → without n ls ≡ ls
unfolding without
without-Fresh n [] h = refl
without-Fresh n (l ∷ ls) h = ground (arith, without-Fresh n ls h.1)

pub length-without :
    (n : ℕ) (ls : List Link)
    → IsUnique ls
    → has n ls ≡ true
    → suc (length (without n ls)) ≡ length ls
unfolding without
length-without n [] u h = cc
length-without n (l ∷ ls) u h =
    ground (arith, without-Fresh l.serial ls u.0, length-without n ls u.1)

Fresh-without : (m n : ℕ) (ls : List Link) → Fresh m ls → Fresh m (without n ls)
unfolding without
Fresh-without m n [] h = tt
Fresh-without m n (l ∷ ls) h = ground (arith, Fresh-without m n ls h.1)

without-IsUnique : (n : ℕ) (ls : List Link) → IsUnique ls → IsUnique (without n ls)
unfolding without
without-IsUnique n [] u = tt
without-IsUnique n (l ∷ ls) u =
    ground (arith, Fresh-without l.serial n ls u.0, without-IsUnique n ls u.1)

has-without_ne : (m n : ℕ) (ls : List Link) → m ≢ n → has m (without n ls) ≡ has m ls
unfolding without
has-without_ne m n [] h = refl
has-without_ne m n (l ∷ ls) h = ground (arith, has-without_ne m n ls h)

-- An answer that is not an approval: its status is not 0.
abbrev pub is_refusal : List ℕ → Bool
is_refusal [] = false
is_refusal (status ∷ payload) = not (status == 0)

-- What some round has received from a link: the number of a request, and an answer to it.
abbrev pub Heard : List Poll → ℕ → ℕ → List ℕ → Type 0
Heard ps serial n payload = (q : Poll) × In q ps × (q.recv serial ≡ some (n, payload))

-- The message behind an error: the link has closed, or its answer to the request is empty or has
-- another status than 0.
pub data Cause (number n : ℕ) (payload error : List ℕ) : Type 0 where
  closed : n ≡ 0 → payload ≡ [] → error ≡ ctap2_err_other ∷ [] → Cause number n payload error
  empty : n ≡ number → payload ≡ [] → error ≡ ctap2_err_other ∷ [] → Cause number n payload error
  declined : n ≡ number → payload ≡ error → is_refusal error ≡ true → Cause number n payload error

-- What a message may do to the variables of the loop.
pub data Answered (wait_all : Bool) (number : ℕ) (f : Fan) (link : Link) (n : ℕ) (payload : List ℕ)
    (f' : Fan) : Type 0 where
  stale : f' ≡ f → Answered wait_all number f link n payload f'
  failed :
      (e : List ℕ) (b : Bool)
      → is_refusal e ≡ true
      → Cause number n payload e
      → (wait_all ≡ true → b ≡ true → f.finished ≡ true)
      → f' ≡ record (settle f link) { errors = f.errors ++ e ∷ []; finished = b }
      → Answered wait_all number f link n payload f'
  won :
      (p : List ℕ)
      → n ≡ number
      → payload ≡ 0 ∷ p
      → f' ≡ record (settle f link) { wins = f.wins ++ (link, 0 ∷ p) ∷ []; finished = not wait_all }
      → Answered wait_all number f link n payload f'

judge-Answered :
    (wait_all : Bool) (number : ℕ) (f : Fan) (link : Link) (n : ℕ) (payload : List ℕ)
    → n ≡ number
    → Answered wait_all number f link n payload (judge wait_all (settle f link) link payload)
unfolding judge
judge-Answered wait_all number f link n [] own =
    failed (ctap2_err_other ∷ []) f.finished refl (empty own refl refl) (λ w b. b) refl
judge-Answered wait_all number f link n (status ∷ payload) own = elim (Bool-cases (status == 0)) [
  | inl hit ↦
      let zero_status : status ≡ 0 = (==_iff status 0).0 hit in
      won payload own (ap (λ k. k ∷ payload) zero_status) (
        rw hit (
          ap
            (λ k. record (settle f link) {
              wins = f.wins ++ (link, k ∷ payload) ∷ [];
              finished = not wait_all;
            })
            zero_status))
  | inr miss ↦
      failed (status ∷ payload) (status == operation_denied && not wait_all) (rw miss)
        (declined own refl (rw miss)) (λ w b. ground arith) (rw miss)
]

is_empty-nil : (payload : List ℕ) → is_empty payload ≡ true → payload ≡ []
is_empty-nil [] h = refl
is_empty-nil (x ∷ xs) h = cc h

closed_message :
    (n : ℕ) (payload : List ℕ) → (n == 0 && is_empty payload) ≡ true → (n ≡ 0) × (payload ≡ [])
closed_message n payload h = ground (arith, ==_iff n 0, is_empty-nil payload)

own_number : (n number : ℕ) → not (n == number) ≡ false → n ≡ number
own_number n number h = ground (arith, ==_iff n number)

answer-Answered :
    (wait_all : Bool) (number : ℕ) (f : Fan) (link : Link) (n : ℕ) (payload : List ℕ)
    → Answered wait_all number f link n payload (answer wait_all number f link n payload)
unfolding answer
answer-Answered wait_all number f link n payload = elim (Bool-cases (n == 0 && is_empty payload)) [
  | inl gone ↦
      let (z, e) = closed_message n payload gone in
      failed (ctap2_err_other ∷ []) f.finished refl (closed z e refl) (λ w b. b) (rw gone)
  | inr open_link ↦ elim (Bool-cases (not (n == number))) [
    | inl other ↦ stale (rw (open_link, other))
    | inr same_number ↦
        rw (open_link, same_number)
          (judge-Answered wait_all number f link n payload (own_number n number same_number))
  ]
]

abbrev pub AllHas : List Link → List Link → Type 0
AllHas ls pending = All (λ l. has l.serial pending ≡ true) ls

AllHas-cons : (l : Link) (ls pending : List Link) → AllHas ls pending → AllHas ls (l ∷ pending)
AllHas-cons l [] pending h = tt
AllHas-cons l (m ∷ ls) pending h = ground (arith, AllHas-cons l ls pending h.1)

pub AllHas-self : (ls : List Link) → AllHas ls ls
AllHas-self [] = tt
AllHas-self (l ∷ ls) = ground (arith, AllHas-cons l ls ls (AllHas-self ls), ==_self l.serial)

AllHas-without :
    (n : ℕ) (ls pending : List Link)
    → Fresh n ls
    → AllHas ls pending
    → AllHas ls (without n pending)
AllHas-without n [] pending u h = tt
AllHas-without n (l ∷ ls) pending u h =
    ground (arith, has-without_ne l.serial n pending u.0, AllHas-without n ls pending u.1 h.1)

-- After a message the links that follow are still pending, and all pending ones still unique.
Answered-pending :
    {wait_all : Bool} {number : ℕ} {f : Fan} {link : Link} {n : ℕ} {payload : List ℕ} {f' : Fan}
    (ls : List Link)
    → Fresh link.serial ls
    → AllHas ls f.pending
    → IsUnique f.pending
    → Answered wait_all number f link n payload f'
    → AllHas ls f'.pending × IsUnique f'.pending
Answered-pending {f} {link} ls u h p (stale e) = rw e (h, p)
Answered-pending {f} {link} ls u h p (failed e b r z k q) =
    rw q (AllHas-without link.serial ls f.pending u h, without-IsUnique link.serial f.pending p)
Answered-pending {f} {link} ls u h p (won w z k q) =
    rw q (AllHas-without link.serial ls f.pending u h, without-IsUnique link.serial f.pending p)

unfinished : (f : Fan) → settled f ≡ false → f.finished ≡ false
unfinished f h = ground arith

module _ {ℓ} (wait_all : Bool) (number : ℕ) (polls : List Poll) (P : Fan → Type ℓ)
    (keep : (f : Fan) (link : Link) (n : ℕ) (payload : List ℕ) (f' : Fan)
      → has link.serial f.pending ≡ true
      → IsUnique f.pending
      → f.finished ≡ false
      → Heard polls link.serial n payload
      → Answered wait_all number f link n payload f'
      → P f
      → P f')
    (keep_beats : (f : Fan) (k : ℕ) → P f → P (record f { beats = k })) where
  pass_inv :
      (q : Poll) (ls : List Link) (f : Fan) (heard : Bool)
      → In q polls
      → IsUnique ls
      → AllHas ls f.pending
      → IsUnique f.pending
      → f.finished ≡ false
      → P f
      → P (pass wait_all number q.recv ls f heard).0
        × IsUnique (pass wait_all number q.recv ls f heard).0.pending
  unfolding pass
  pass_inv q [] f heard m u h p o k = (k, p)
  pass_inv q (l ∷ ls) f heard m u h p o k = elim (Option-cases (q.recv l.serial)) [
    | inl e ↦ rw (e, pass) (pass_inv q ls f heard m u.1 h.1 p o k)
    | inr ((n, payload), e) ↦
        let f' : Fan = answer wait_all number f l n payload in
        let a : Answered wait_all number f l n payload f' =
          answer-Answered wait_all number f l n payload in
        let next = Answered-pending ls u.0 h.1 p a in
        let k' : P f' = keep f l n payload f' h.0 p o (q, m, e) a k in
        rw (e, pass)
          (elim (Bool-cases f'.finished) [
            | inl stop ↦ rw stop (k', next.1)
            | inr go ↦ rw go (pass_inv q ls f' true m u.1 next.0 next.1 go k')
          ])
  ]

  pulse_inv :
      (beat : Bool) (r : Fan × Bool)
      → P r.0 × IsUnique r.0.pending
      → P (pulse beat r) × IsUnique (pulse beat r).pending
  pulse_inv beat (f, heard) (k, p) = elim (Bool-cases (not heard && beat)) [
    | inl b ↦ rw b (keep_beats f (suc f.beats) k, p)
    | inr q ↦ rw q (k, p)
  ]

  round_inv :
      (q : Poll) (f : Fan)
      → In q polls
      → f.finished ≡ false
      → P f × IsUnique f.pending
      → P (round wait_all number q f) × IsUnique (round wait_all number q f).pending
  unfolding round
  round_inv q f m w (k, p) =
      pulse_inv q.beat (pass wait_all number q.recv f.pending f false)
        (pass_inv q f.pending f false m p (AllHas-self f.pending) p w k)

  pub loop_inv :
      (ps : List Poll) (f g : Fan)
      → ((q : Poll) → In q ps → In q polls)
      → P f × IsUnique f.pending
      → loop wait_all number ps f ≡ some g
      → P g × IsUnique g.pending
  unfolding loop
  loop_inv [] f g m k e = elim (Bool-cases (settled f)) [
    | inl stop ↦ subst (λ x. P x × IsUnique x.pending) (some-injective f g (rw stop at e)) k
    | inr go ↦ cc (rw go at e)
  ]
  loop_inv (p ∷ ps) f g m k e = elim (Bool-cases (settled f)) [
    | inl stop ↦ subst (λ x. P x × IsUnique x.pending) (some-injective f g (rw stop at e)) k
    | inr go ↦ elim (Bool-cases (p.expired || not p.current)) [
      | inl over ↦
          subst (λ x. P x × IsUnique x.pending) (some-injective f g (rw over at (rw go at e))) k
      | inr on ↦
          loop_inv ps (round wait_all number p f) g (λ q n. m q (inr n))
            (round_inv p f (m p (inl refl)) (unfinished f go) k) (rw on at (rw go at e))
    ]
  ]
