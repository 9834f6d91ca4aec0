-- ===== src/Transfer/Framing.antt =====
-- readProto and writeProto of src/base/SocketHandler.hpp: a message that is written is read back.
use eternal_terminal.Common.{
  ℕ, zero, suc, ◌/◌, ◌^◌, ◌≤◌, ◌<◌, ◌≡◌, refl, ap, ◌∙◌, Bool, true, false, not, ◌&&◌, ◌||◌, List,
  [], ◌∷◌, ◌++◌, arith, length, take, drop, append_assoc, take-append-drop, Outcome, ok, throws,
  fatal, waiting, runtime_error, Bool-cases, ltb, le→ltb_false, ltb_false→le, inl, inr,
  if◌then◌else◌, continue, ◌==◌,
}
use eternal_terminal.Connection.{eagain}
use eternal_terminal.Transfer.{
  Incoming, read_all, Outgoing, timed_out, room, write_fails, write_all_or_throw, to_bytes,
  from_bytes, max_message, write_message, read_message, etimedout,
}
use eternal_terminal.Transfer.Whole.{incoming, IsSmooth, Read, read_all-Read}

length-to_bytes : (k n : ℕ) → length (to_bytes k n) ≡ k
length-to_bytes zero n = refl
length-to_bytes (suc k) n = ap suc (length-to_bytes k (n / 256))

pub from-to_bytes : (k n : ℕ) → n < 256 ^ k → from_bytes (to_bytes k n) ≡ n
from-to_bytes zero n h = omega arith
from-to_bytes (suc k) n h = omega (arith, from-to_bytes k (n / 256) (smaller k n h))
  where
    smaller : (k n : ℕ) → n < 256 ^ suc k → n / 256 < 256 ^ k
    smaller k n h = omega arith

-- A transfer that returns has put the whole buffer on the wire.
pub write_all-whole :
    (timeout : Bool) (bytes : List ℕ) (script : List Outgoing)
    → (write_all_or_throw timeout bytes script).0 ≡ ok tt
    → (write_all_or_throw timeout bytes script).1 ≡ bytes
unfolding write_all_or_throw
write_all-whole timeout [] script e = refl
write_all-whole timeout (b ∷ bs) [] e = absurd (cc e)
write_all-whole true (b ∷ bs) (timed_out ∷ script) e = absurd (cc e)
write_all-whole false (b ∷ bs) (timed_out ∷ script) e = write_all-whole false (b ∷ bs) script e
write_all-whole timeout (b ∷ bs) (write_fails error ∷ script) e =
    elim (Bool-cases (error == eagain || (not timeout && error == etimedout))) [
      | inl again ↦ rw again (write_all-whole timeout (b ∷ bs) script (rw again at e))
      | inr stops ↦ absurd (cc (rw stops at e))
    ]
write_all-whole timeout (b ∷ bs) (room zero ∷ script) e = absurd (cc e)
write_all-whole timeout (b ∷ bs) (room (suc n) ∷ script) e =
    ap (λ l. (b ∷ take n bs) ++ l) (write_all-whole timeout (drop n bs) script e)
    ∙ ap (λ l. b ∷ l) (take-append-drop n bs)

-- What a message looks like on the wire.
abbrev pub framed : List ℕ → List ℕ
framed s = to_bytes 8 (length s) ++ s

both_whole :
    (header body : Outcome (Unit {0}) × List ℕ)
    → (continue header.0 header.1 λ done. (body.0, header.1 ++ body.1)).0 ≡ ok tt
    → (header.0 ≡ ok tt)
      × (body.0 ≡ ok tt)
      × ((continue header.0 header.1 λ done. (body.0, header.1 ++ body.1)).1 ≡ header.1 ++ body.1)
both_whole (ok tt, sent) body e = (refl, e, refl)
both_whole (throws error, sent) body e = absurd (cc e)
both_whole (fatal, sent) body e = absurd (cc e)
both_whole (waiting, sent) body e = absurd (cc e)

-- A message that was written, of at most 128 MB, is on the wire as its length and its bytes.
pub write_message-framed :
    (timeout : Bool) (s : List ℕ) (header_script script : List Outgoing)
    → (write_message timeout s header_script script).0 ≡ ok tt
    → (write_message timeout s header_script script).1 ≡ framed s
unfolding write_message
write_message-framed timeout s header_script script e =
    elim (Bool-cases (ltb max_message (length s))) [
      | inl big ↦ absurd (cc (rw big at e))
      | inr small ↦
          let header = write_all_or_throw timeout (to_bytes 8 (length s)) header_script in
          let (h, k, sent) =
            both_whole header (write_all_or_throw timeout s script) (rw small at e) in
          rw small (
            sent
            ∙ ap (λ l. l ++ (write_all_or_throw timeout s script).1)
                (write_all-whole timeout (to_bytes 8 (length s)) header_script h)
            ∙ ap (λ l. to_bytes 8 (length s) ++ l) (write_all-whole timeout s script k))
    ]

body-Read :
    (timeout : Bool) (s rest : List ℕ) (out : Outcome (List ℕ) × List Incoming)
    → length s ≤ max_message
    → Read (to_bytes 8 (length s)) (s ++ rest) out
    → Read s rest (
        continue out.0 out.1 λ bytes.
          if ltb max_message (from_bytes bytes)
          then (throws runtime_error, out.1)
          else read_all timeout (from_bytes bytes) out.1)
body-Read timeout s rest (ok bytes, script) small h =
    let size : from_bytes bytes ≡ length s =
      ap from_bytes (same_bytes bytes (to_bytes 8 (length s)) h.whole)
      ∙ from-to_bytes 8 (length s) (omega arith) in
    rw (size, le→ltb_false max_message (length s) small)
      (read_all-Read timeout s rest script h.smooth h.behind)
  where
    same_bytes : (a b : List ℕ) → ok a ≡ ok b → a ≡ b
    same_bytes a b e = cc e
body-Read timeout s rest (throws e, script) small h = absurd (cc h.whole)
body-Read timeout s rest (fatal, script) small h = absurd (cc h.whole)
body-Read timeout s rest (waiting, script) small h = absurd (cc h.whole)

-- The reader of such bytes, in whatever pieces they arrive, returns the message and leaves what
-- is behind it.
pub read_message-framed :
    (timeout : Bool) (s rest : List ℕ) (script : List Incoming)
    → length s ≤ max_message
    → IsSmooth script
    → incoming script ≡ framed s ++ rest
    → Read s rest (read_message timeout script)
unfolding read_message
read_message-framed timeout s rest script small smooth e =
    body-Read timeout s rest (read_all timeout 8 script) small (
      read_all-Read timeout (to_bytes 8 (length s)) (s ++ rest) script smooth
        (e ∙ append_assoc (to_bytes 8 (length s)) s rest))

write_message-small :
    (timeout : Bool) (s : List ℕ) (header_script script : List Outgoing)
    → (write_message timeout s header_script script).0 ≡ ok tt
    → length s ≤ max_message
unfolding write_message
write_message-small timeout s header_script script e =
    elim (Bool-cases (ltb max_message (length s))) [
      | inl big ↦ absurd (cc (rw big at e))
      | inr small ↦ ltb_false→le max_message (length s) small
    ]

-- A message that was written is read back when no failure but EAGAIN and no time limit comes
-- between, whatever pieces the network cut it into, and what is behind it is left for the next
-- one.
pub read_message-write_message :
    (timeout timeout' : Bool) (s rest : List ℕ) (header_script script : List Outgoing)
    (arriving : List Incoming)
    → (write_message timeout s header_script script).0 ≡ ok tt
    → IsSmooth arriving
    → incoming arriving ≡ (write_message timeout s header_script script).1 ++ rest
    → Read s rest (read_message timeout' arriving)
read_message-write_message timeout timeout' s rest header_script script arriving sent smooth
      arrives =
    read_message-framed timeout' s rest arriving
      (write_message-small timeout s header_script script sent) smooth
      (arrives ∙ ap (λ l. l ++ rest) (write_message-framed timeout s header_script script sent))
