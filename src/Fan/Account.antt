-- ===== src/Fan/Account.antt =====
-- Every phone that got the request answers it once or is told to drop it.
use passkey.Base.{
  ℕ, ◌+◌, ◌≡◌, refl, sym, ap, ◌∙◌, subst, Bool, true, false, List, [], ◌∷◌, ◌++◌, map, some, arith,
  ◌==◌, ==_iff, if◌then◌else◌, All,
}
use passkey.Link.{Link}
use passkey.Links.{without}
use passkey.Fan.{Poll, Fan, sent, begun, fan_out}
use passkey.Fan.Rule.{IsUnique, Fresh, has, Heard, Cause, Answered, stale, failed, won, loop_inv}

-- How often a link stands in a list.
abbrev pub count : ℕ → List Link → ℕ
count n [] = 0
count n (l ∷ ls) = if l.serial == n then 1 + count n ls else count n ls

abbrev pub links_of : List (Link × List ℕ) → List Link
links_of ws = map (λ w. w.0) ws

-- An approval was heard as the link's answer to the request, and an error was heard from its link.
abbrev pub IsApproval : List Poll → ℕ → Link × List ℕ → Type 0
IsApproval ps number (link, payload) =
    ((p : List ℕ) × (payload ≡ 0 ∷ p)) × Heard ps link.serial number payload

abbrev pub IsFailure : List Poll → ℕ → Link × List ℕ → Type 0
IsFailure ps number (link, error) =
    (n : ℕ) × (payload : List ℕ) × Heard ps link.serial n payload × Cause number n payload error

-- The account of the phones that have got a request: `failed` tells from which link each error is.
pub record IsAccounted (ps : List Poll) (number : ℕ) (targets : List Link) (f : Fan) : Type 0 where
  pub failures : List (Link × List ℕ)
  pub errors : f.errors ≡ map (λ e. e.1) failures
  pub once :
      (n : ℕ)
      → count n (links_of f.wins) + count n (links_of failures) + count n f.pending
        ≡ count n targets
  pub approvals : All (IsApproval ps number) f.wins
  pub causes : All (IsFailure ps number) failures

count-Fresh : (n : ℕ) (ls : List Link) → Fresh n ls → count n ls ≡ 0
count-Fresh n [] h = refl
count-Fresh n (l ∷ ls) h = ground (arith, count-Fresh n ls h.1)

without-Fresh : (n m : ℕ) (ls : List Link) → Fresh m ls → count n (without m ls) ≡ count n ls
unfolding without
without-Fresh n m [] h = refl
without-Fresh n m (l ∷ ls) h = ground (arith, without-Fresh n m ls h.1)

count-without :
    (n m : ℕ) (ls : List Link)
    → IsUnique ls
    → has m ls ≡ true
    → (if m == n then 1 else 0) + count n (without m ls) ≡ count n ls
unfolding without
count-without n m [] u h = cc h
count-without n m (l ∷ ls) u h = ground (
  arith,
  ==_iff m n,
  ==_iff l.serial m,
  ==_iff l.serial n,
  without-Fresh n l.serial ls u.0,
  count-without n m ls u.1,
)

count-snoc :
    (n : ℕ) (ws : List (Link × List ℕ)) (link : Link) (payload : List ℕ)
    → count n (links_of (ws ++ (link, payload) ∷ []))
      ≡ count n (links_of ws) + (if link.serial == n then 1 else 0)
count-snoc n [] link payload = ground arith
count-snoc n (w ∷ ws) link payload = ground (arith, count-snoc n ws link payload)

map-snoc :
    (ws : List (Link × List ℕ)) (w : Link × List ℕ)
    → map (λ e. e.1) (ws ++ w ∷ []) ≡ map (λ e. e.1) ws ++ w.1 ∷ []
map-snoc [] w = refl
map-snoc (v ∷ ws) w = ap (λ es. v.1 ∷ es) (map-snoc ws w)

All-snoc :
    {A : Type 0} (P : A → Type 0) (xs : List A) (x : A) → All P xs → P x → All P (xs ++ x ∷ [])
All-snoc P [] x a p = (p, tt)
All-snoc P (y ∷ xs) x a p = (a.0, All-snoc P xs x a.1 p)

module _ (ps : List Poll) (wait_all : Bool) (number : ℕ) (targets : List Link) where
  Answered-IsAccounted :
      (f : Fan) (link : Link) (n : ℕ) (payload : List ℕ) (f' : Fan)
      → has link.serial f.pending ≡ true
      → IsUnique f.pending
      → f.finished ≡ false
      → Heard ps link.serial n payload
      → Answered wait_all number f link n payload f'
      → IsAccounted ps number targets f
      → IsAccounted ps number targets f'
  Answered-IsAccounted f link n payload f' h u q g (stale e) a = rw e a
  Answered-IsAccounted f link n payload f' h u q g (failed e b z c k r) a = rw r (record {
    failures = a.failures ++ (link, e) ∷ [];
    errors = ap (λ es. es ++ e ∷ []) a.errors ∙ sym (map-snoc a.failures (link, e));
    once = λ i. omega (
      arith,
      a.once i,
      count-snoc i a.failures link e,
      count-without i link.serial f.pending u h,
    );
    approvals = a.approvals;
    causes = All-snoc (IsFailure ps number) a.failures (link, e) a.causes (n, payload, g, c);
  })
  Answered-IsAccounted f link n payload f' h u q g (won p own z r) a =
      let heard : Heard ps link.serial number (0 ∷ p) =
        subst (λ m. Heard ps link.serial m (0 ∷ p)) own
          (subst (λ t. Heard ps link.serial n t) z g) in
      rw r (record {
        failures = a.failures;
        errors = a.errors;
        once = λ i. omega (
          arith,
          a.once i,
          count-snoc i f.wins link (0 ∷ p),
          count-without i link.serial f.pending u h,
        );
        approvals =
            All-snoc (IsApproval ps number) f.wins (link, 0 ∷ p) a.approvals ((p, refl), heard);
        causes = a.causes;
      })

-- Where the request is sent to no link twice: however `fan_out` ends, each phone to which it was
-- sent is counted once: as an approval, received from this phone as its answer to this request with
-- status 0; as an error, for an answer of this phone that is empty or has another status, or because
-- it closed; or among those that are told to drop the request. Each error stands for one phone.
pub fan_out-IsAccounted :
    (number : ℕ) (sends : ℕ → Bool) (ps : List Poll) (wait_all : Bool) (targets : List Link)
    (f : Fan)
    → IsUnique (sent sends targets)
    → fan_out number sends ps wait_all targets ≡ some f
    → IsAccounted ps number (sent sends targets) f
unfolding fan_out
fan_out-IsAccounted number sends ps wait_all targets f u e =
    let to : List Link = sent sends targets in
    (loop_inv wait_all number ps (IsAccounted ps number to)
      (Answered-IsAccounted ps wait_all number to)
      (λ g k a. record {
        failures = a.failures;
        errors = a.errors;
        once = a.once;
        approvals = a.approvals;
        causes = a.causes;
      })
      ps (begun to) f (λ q m. m)
      (
        record {
          failures = [];
          errors = refl;
          once = λ n. omega arith;
          approvals = tt;
          causes = tt;
        },
        u,
      )
      e).0
