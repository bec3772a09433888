-- ===== src/Fan/Finish.antt =====
-- The loop of `fan_out` ends, at the latest when it sees that the deadline has passed.
use passkey.Base.{ℕ, ◌≡◌, ◌≢◌, Bool, true, List, [], ◌∷◌, none, arith, any}
use passkey.Link.{Link}
use passkey.Fan.{Poll, Fan, round, loop, sent, begun, fan_out}

loop-ne-none :
    (wait_all : Bool) (number : ℕ) (ps : List Poll) (f : Fan)
    → any (λ p. p.expired) ps ≡ true
    → loop wait_all number ps f ≢ none
unfolding loop
loop-ne-none wait_all number [] f h e = cc
loop-ne-none wait_all number (p ∷ ps) f h e =
    ground (arith, loop-ne-none wait_all number ps (round wait_all number p f))

-- Whatever the phones send or leave out, `fan_out` has a result once a round sees that the
-- deadline has passed.
pub fan_out-ne-none :
    (number : ℕ) (sends : ℕ → Bool) (ps : List Poll) (wait_all : Bool) (targets : List Link)
    → any (λ p. p.expired) ps ≡ true
    → fan_out number sends ps wait_all targets ≢ none
unfolding fan_out
fan_out-ne-none number sends ps wait_all targets h =
    loop-ne-none wait_all number ps (begun (sent sends targets)) h
