-- ===== src/Writer/Sending.antt =====
-- The sending loop of src/base/BackedWriter.cpp, and what `write` does on each branch.
use eternal_terminal.Writer.{WriteState, send_loop, success, wrote_with_failure}
use eternal_terminal.Common.{
  ℕ, ◌+◌, ◌-◌, ◌≤◌, ◌<◌, ◌≡◌, refl, sym, ap, ◌∙◌, false, List, [], ◌∷◌, ◌++◌, arith, length, take,
  drop, append_assoc, length-drop, take-append-drop, drop-drop, take_all, Outcome, ok, waiting,
  Bool-cases, ==_iff, ◌==◌, append-nil, inl, inr,
}
use Prim.Native.Nat.{min}
use eternal_terminal.Net.{Net, Send, accepted, send_failed}

-- How the loop can end: it waits; all of the rest is on the wire; or it failed after a part.
pub data Sent (s : List ℕ) (written : ℕ) (net : Net) : Outcome WriteState × Net → Type 0 where
  stuck : (net' : Net) → Sent s written net (waiting, net')
  whole :
      (net' : Net) → net'.wire ≡ net.wire ++ drop written s → Sent s written net (ok success, net')
  part :
      (sent unsent : List ℕ) (net' : Net)
      → drop written s ≡ sent ++ unsent
      → net'.wire ≡ net.wire ++ sent
      → Sent s written net (ok wrote_with_failure, net')

abbrev pub sending : List ℕ → ℕ → ℕ → Net → Net
sending s written n net = record net { wire = net.wire ++ take n (drop written s) }

Sent-more :
    (s : List ℕ) (written n : ℕ) (net : Net) {out : Outcome WriteState × Net}
    → Sent s (written + n) (sending s written n net) out
    → Sent s written net out
Sent-more s written n net (stuck net') = stuck net'
Sent-more s written n net (whole net' e) =
    whole net' (e ∙ append_assoc net.wire _ _ ∙ ap (λ l. net.wire ++ l) (rejoin s written n))
  where
    rejoin :
        (s : List ℕ) (written n : ℕ)
        → take n (drop written s) ++ drop (written + n) s ≡ drop written s
    rejoin s written n = rw (← drop-drop written n s) (take-append-drop n (drop written s))
Sent-more s written n net (part sent unsent net' e h) =
    part (take n (drop written s) ++ sent) unsent net'
      (sym (take-append-drop n (drop written s))
        ∙ ap (λ l. take n (drop written s) ++ l) (drop-drop written n s ∙ e)
        ∙ sym (append_assoc _ sent unsent))
      (h ∙ append_assoc net.wire _ sent)

-- The sending loop waits, or has all of the rest of the bytes on the wire, or fails after a first
-- part of them.
pub send_loop-Sent :
    (s : List ℕ) (written : ℕ) (net : Net) (answers : List Send)
    → Sent s written net (send_loop s written net answers)
unfolding send_loop
send_loop-Sent s written net [] = stuck _
send_loop-Sent s written net (send_failed e ∷ answers) =
    part [] (drop written s) _ refl (sym (append-nil net.wire))
send_loop-Sent s written net (accepted room ∷ answers) =
    let n = min room (length s - written) in
    elim (Bool-cases (written + n == length s)) [
      | inl done ↦ rw done (
          whole _ (
            ap (λ l. net.wire ++ l)
              (take_all n (drop written s)
                (omega (arith, length-drop written s, (==_iff _ _).0 done)))))
      | inr more ↦ rw more (
          Sent-more s written n net
            (send_loop-Sent s (written + n) (sending s written n net) answers))
    ]

-- The room that a script offers before its first failure.
abbrev pub room : List Send → ℕ
room [] = 0
room (send_failed e ∷ answers) = 0
room (accepted n ∷ answers) = n + room answers

-- The loop ends with success as soon as the socket has had room for the rest, before any failure,
-- if there is a rest.
pub send_loop-success :
    (s : List ℕ) (written : ℕ) (net : Net) (answers : List Send)
    → written < length s
    → length s ≤ written + room answers
    → (send_loop s written net answers).0 ≡ ok success
unfolding send_loop
send_loop-success s written net [] h k = absurd (omega arith)
send_loop-success s written net (send_failed e ∷ answers) h k = absurd (omega arith)
send_loop-success s written net (accepted r ∷ answers) h k =
    let n = min r (length s - written) in
    elim (Bool-cases (written + n == length s)) [
      | inl done ↦ rw done
      | inr more ↦ rw more (
          send_loop-success s (written + n) (sending s written n net) answers
            (not_all _ _ more (omega arith)) (omega (arith, not_all _ _ more (omega arith))))
    ]
  where
    not_all : (a b : ℕ) → (a == b) ≡ false → a ≤ b → a < b
    not_all a b e h = ground arith
