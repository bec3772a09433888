-- ===== src/Tests/Requests.antt =====
-- Requests from their first byte to the answer, and what the streams carry.
use passkey.Base.{
  ℕ, ◌≡◌, ◌≢◌, ◌⊎◌, ◌↔◌, refl, true, false, List, [], ◌∷◌, ◌++◌, map, none, some, arith, replicate,
  length-replicate,
}
use passkey.Base.Text.{codes}
use passkey.Hid.{packet}
use passkey.Wire.{hear, read_link, read_frame, eof}
use passkey.Wire.Framing.{read_link-frames, read_link-Ends, frames, Ends}
use passkey.Uhid.{handle_event}
use passkey.Uhid.Events.{handle_event-packet, output_event}
use passkey.Fan.Rule.{is_refusal}
use passkey.Rounds.{Outcome, refused, outcome, answer_of}
use passkey.Rounds.Answer.{answer_of-outcome, IsApproved}
use passkey.Rounds.Finish.{outcome-ne-none}
use passkey.Cbor.{
  Entries, integer, text, array, map as map_value, bool, null, nil, item, end, entry, pos, negsuc,
  decode_cbor, silent, get_assertion,
}
use passkey.Cbor.Utf8.{is_utf8}
use passkey.Cbor.Encode.{encode, depth, IsValue}
use passkey.Cbor.RoundTrip.{decode_cbor-encode}
use passkey.Cbor.Silent.{silent-encode, HasEntry, DeniesPresence}
use passkey.Tests.Data.{idle, request, turn}

-- The phone that holds the key refuses in the first round, and nobody else is asked.
abbrev verdict : Outcome
verdict = refused ((0x27 ∷ []) ∷ [])

verdict_lem : outcome idle request none get_assertion [] (turn ∷ turn ∷ []) ≡ some verdict
unfolding outcome
verdict_lem = refl

answer_of-outcome_example :
    (is_refusal (answer_of verdict) ≡ true) ⊎ IsApproved idle request (turn ∷ turn ∷ []) verdict
answer_of-outcome_example =
    answer_of-outcome idle request none get_assertion [] (turn ∷ turn ∷ []) verdict
      (((λ e. cc e), ((λ e. cc e), tt)), (((λ e. cc e), tt), (tt, tt))) verdict_lem

outcome-ne-none_example : outcome idle request none get_assertion [] (turn ∷ turn ∷ []) ≢ none
outcome-ne-none_example =
    outcome-ne-none idle request none get_assertion [] (turn ∷ turn ∷ []) (omega arith)
      (refl, (refl, tt))

-- The parameters `{5: {"up": false}}`.
abbrev options : Entries
options = entry (text (codes "up")) (bool false) end

abbrev parameters : Entries
parameters = entry (integer (pos 5)) (map_value options) end

decode_cbor-encode_example :
    decode_cbor 9 (encode (array (item (integer (negsuc 300)) (item null nil))) ++ 1 ∷ [])
    ≡ some (array (item (integer (negsuc 300)) (item null nil)), 1 ∷ [])
unfolding depth IsValue
decode_cbor-encode_example =
    decode_cbor-encode (array (item (integer (negsuc 300)) (item null nil))) 9 (1 ∷ [])
      (omega arith) (omega arith, (omega arith, (tt, tt)))

silent-encode_example :
    silent (get_assertion ∷ (encode (map_value parameters) ++ [])) ≡ true
    ↔ HasEntry (integer (pos 5)) DeniesPresence parameters
unfolding depth IsValue is_utf8
silent-encode_example =
    silent-encode parameters [] (omega arith)
      (omega arith, (omega arith, (omega arith, ((omega arith, refl), tt, tt)), tt))

abbrev bodies : List (List ℕ)
bodies = (0x23 ∷ []) ∷ (0x21 ∷ 0 ∷ 0 ∷ 0 ∷ 4 ∷ 0 ∷ []) ∷ []

read_link-frames_example : read_link (frames bodies ++ 0 ∷ []) ≡ (map hear bodies, eof)
unfolding read_frame
read_link-frames_example =
    read_link-frames bodies (0 ∷ []) eof
      ((omega arith, omega arith), ((omega arith, omega arith), tt)) refl

read_link-Ends_example : Ends (read_link (0 ∷ 0 ∷ 0 ∷ 1 ∷ 9 ∷ 4 ∷ []))
read_link-Ends_example = read_link-Ends (0 ∷ 0 ∷ 0 ∷ 1 ∷ 9 ∷ 4 ∷ [])

abbrev report : List ℕ
report = replicate 64 5

handle_event-packet_example :
    (handle_event idle (output_event 65 (0 ∷ (report ++ replicate 4031 0)) []) ≡ packet idle report)
    × (handle_event idle (output_event 64 (report ++ (0 ∷ replicate 4031 0)) [])
        ≡ packet idle report)
handle_event-packet_example =
    handle_event-packet idle 0 report (replicate 4031 0) [] (length-replicate {A = ℕ} 64 5)
      (length-replicate {A = ℕ} 4031 0)
