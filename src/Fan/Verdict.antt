-- ===== src/Fan/Verdict.antt =====
-- What an approval is worth, and that one is enough.
use passkey.Base.{
  ℕ, ◌≤◌, ◌≡◌, refl, Bool, true, false, List, [], ◌∷◌, ◌++◌, some, arith, length, All, subst,
}
use passkey.Link.{Link}
use passkey.Links.{without}
use passkey.Fan.{Poll, Fan, sent, begun, fan_out}
use passkey.Fan.Rule.{
  IsUnique, has, AllHas, AllHas-self, is_refusal, Heard, Answered, stale, failed, won, loop_inv,
}

-- An approval is an answer to this request with status 0, received from a link of `targets` that is
-- no longer pending.
abbrev pub IsWin : List Poll → ℕ → List Link → List Link → Link × List ℕ → Type 0
IsWin ps number targets pending (link, payload) =
    (has link.serial targets ≡ true)
    × (has link.serial pending ≡ false)
    × ((p : List ℕ) × (payload ≡ 0 ∷ p))
    × Heard ps link.serial number payload

abbrev IsWon : List Poll → ℕ → List Link → Fan → Type 0
IsWon ps number targets f =
    All (IsWin ps number targets f.pending) f.wins × AllHas f.pending targets

has-without_self : (n : ℕ) (ls : List Link) → has n (without n ls) ≡ false
unfolding without
has-without_self n [] = refl
has-without_self n (l ∷ ls) = ground (arith, has-without_self n ls)

has-without_absent : (m n : ℕ) (ls : List Link) → has m ls ≡ false → has m (without n ls) ≡ false
unfolding without
has-without_absent m n [] h = refl
has-without_absent m n (l ∷ ls) h = ground (arith, has-without_absent m n ls)

AllHas-has :
    (n : ℕ) (ls targets : List Link) → AllHas ls targets → has n ls ≡ true → has n targets ≡ true
AllHas-has n [] targets a h = cc
AllHas-has n (l ∷ ls) targets a h = ground (arith, AllHas-has n ls targets a.1)

without-AllHas :
    (n : ℕ) (ls targets : List Link) → AllHas ls targets → AllHas (without n ls) targets
unfolding without
without-AllHas n [] targets a = tt
without-AllHas n (l ∷ ls) targets a = ground (arith, without-AllHas n ls targets a.1)

wins-without :
    (ps : List Poll) (number n : ℕ) (targets pending : List Link) (ws : List (Link × List ℕ))
    → All (IsWin ps number targets pending) ws
    → All (IsWin ps number targets (without n pending)) ws
wins-without ps number n targets pending [] a = tt
wins-without ps number n targets pending ((l, payload) ∷ ws) a = (
  (a.0.0, has-without_absent l.serial n pending a.0.1, a.0.2, a.0.3),
  wins-without ps number n targets pending ws a.1,
)

All-snoc {ℓ κ} :
    {A : Type ℓ} (P : A → Type κ) (xs : List A) (x : A) → All P xs → P x → All P (xs ++ x ∷ [])
All-snoc P [] x a p = (p, tt)
All-snoc P (y ∷ xs) x a p = (a.0, All-snoc P xs x a.1 p)

Answered-IsWon :
    (ps : List Poll) (wait_all : Bool) (number : ℕ) (targets : List Link) (f : Fan) (link : Link)
    (n : ℕ) (payload : List ℕ) (f' : Fan)
    → has link.serial f.pending ≡ true
    → IsUnique f.pending
    → f.finished ≡ false
    → Heard ps link.serial n payload
    → Answered wait_all number f link n payload f'
    → IsWon ps number targets f
    → IsWon ps number targets f'
Answered-IsWon ps wait_all number targets f link n payload f' h u q g (stale e) w = rw e w
Answered-IsWon ps wait_all number targets f link n payload f' h u q g (failed e b z c k r) w =
    rw r (
      wins-without ps number link.serial targets f.pending f.wins w.0,
      without-AllHas link.serial f.pending targets w.1,
    )
Answered-IsWon ps wait_all number targets f link n payload f' h u q g (won p a b r) w =
    let heard_win : Heard ps link.serial number (0 ∷ p) =
      subst (λ m. Heard ps link.serial m (0 ∷ p)) a (subst (λ t. Heard ps link.serial n t) b g) in
    rw r (
      All-snoc (IsWin ps number targets (without link.serial f.pending)) f.wins (link, 0 ∷ p)
          (wins-without ps number link.serial targets f.pending f.wins w.0)
          (
            AllHas-has link.serial f.pending targets w.1 h,
            has-without_self link.serial f.pending,
            (p, refl),
            heard_win,
          ),
      without-AllHas link.serial f.pending targets w.1,
    )

-- Every approval that `fan_out` reports was received in some round as the answer to this request,
-- with status 0, from a phone to which it was sent, and that phone is not told to drop it.
pub fan_out-IsWin :
    (number : ℕ) (sends : ℕ → Bool) (ps : List Poll) (wait_all : Bool) (targets : List Link)
    (f : Fan)
    → IsUnique (sent sends targets)
    → fan_out number sends ps wait_all targets ≡ some f
    → All (IsWin ps number (sent sends targets) f.pending) f.wins
unfolding fan_out
fan_out-IsWin number sends ps wait_all targets f u e =
    let to : List Link = sent sends targets in
    (loop_inv wait_all number ps (IsWon ps number to) (Answered-IsWon ps wait_all number to)
      (λ g k w. w) ps (begun to) f (λ q m. m) ((tt, AllHas-self to), u) e).0.0

Answered-refusals :
    (ps : List Poll) (wait_all : Bool) (number : ℕ) (f : Fan) (link : Link) (n : ℕ)
    (payload : List ℕ) (f' : Fan)
    → has link.serial f.pending ≡ true
    → IsUnique f.pending
    → f.finished ≡ false
    → Heard ps link.serial n payload
    → Answered wait_all number f link n payload f'
    → All (λ e. is_refusal e ≡ true) f.errors
    → All (λ e. is_refusal e ≡ true) f'.errors
Answered-refusals ps wait_all number f link n payload f' h u q g (stale e) w = rw e w
Answered-refusals ps wait_all number f link n payload f' h u q g (failed e b z c k r) w =
    rw r (All-snoc (λ x. is_refusal x ≡ true) f.errors e w z)
Answered-refusals ps wait_all number f link n payload f' h u q g (won p a b r) w = rw r w

-- No answer that `fan_out` reports as an error has status 0.
pub fan_out-refusals :
    (number : ℕ) (sends : ℕ → Bool) (ps : List Poll) (wait_all : Bool) (targets : List Link)
    (f : Fan)
    → IsUnique (sent sends targets)
    → fan_out number sends ps wait_all targets ≡ some f
    → All (λ e. is_refusal e ≡ true) f.errors
unfolding fan_out
fan_out-refusals number sends ps wait_all targets f u e =
    (loop_inv wait_all number ps (λ g. All (λ x. is_refusal x ≡ true) g.errors)
      (Answered-refusals ps wait_all number) (λ g k w. w) ps (begun (sent sends targets)) f
      (λ q m. m) (tt, u) e).0

-- With `wait_all` false the first approval ends the loop.
abbrev IsFirst : Fan → Type 0
IsFirst f = (length f.wins ≤ 1) × (f.finished ≡ false → f.wins ≡ [])

Answered-IsFirst :
    (ps : List Poll) (number : ℕ) (f : Fan) (link : Link) (n : ℕ) (payload : List ℕ) (f' : Fan)
    → has link.serial f.pending ≡ true
    → IsUnique f.pending
    → f.finished ≡ false
    → Heard ps link.serial n payload
    → Answered false number f link n payload f'
    → IsFirst f
    → IsFirst f'
Answered-IsFirst ps number f link n payload f' h u q g (stale e) w = rw e w
Answered-IsFirst ps number f link n payload f' h u q g (failed e b z c k r) w =
    rw r (w.0, λ _. w.1 q)
Answered-IsFirst ps number f link n payload f' h u q g (won p a b r) w =
    rw (r, w.1 q) (omega arith, λ c. cc)

-- A request that needs a fingerprint is approved by one phone at most: the first approval ends
-- the loop.
pub fan_out_once :
    (number : ℕ) (sends : ℕ → Bool) (ps : List Poll) (targets : List Link) (f : Fan)
    → IsUnique (sent sends targets)
    → fan_out number sends ps false targets ≡ some f
    → length f.wins ≤ 1
unfolding fan_out
fan_out_once number sends ps targets f u e =
    (loop_inv false number ps IsFirst (Answered-IsFirst ps number) (λ g k w. w) ps
      (begun (sent sends targets)) f (λ q m. m) ((omega arith, λ _. refl), u) e).0.0
