-- ===== src/Transfer/Partial.antt =====
-- writeAllOrReturn of src/base/SocketHandler.cpp, which gives up instead of throwing.
use eternal_terminal.Common.{
  ℕ, zero, suc, ◌<◌, ◌≡◌, refl, sym, ap, ◌∙◌, Option, none, some, List, [], ◌∷◌, ◌++◌, arith, take,
  drop, append_assoc, take-append-drop, Outcome, ok, waiting, Bool-cases, inl, inr, ◌==◌, ◌≢◌, ◌⊎◌,
}
use eternal_terminal.Connection.{eagain}
use eternal_terminal.Transfer.{Outgoing, timed_out, room, write_fails, write_all_or_return}

-- What went out and what did not; with the full count nothing is left.
pub record Partly (count : ℕ) (bytes : List ℕ) (out : Outcome (Option ℕ) × List ℕ) : Type 0 where
  pub unsent : List ℕ
  pub cut : bytes ≡ out.1 ++ unsent
  pub finished : (out.0 ≢ ok (some count)) ⊎ (unsent ≡ [])

nothing-Partly :
    (count : ℕ) (bytes : List ℕ) (result : Outcome (Option ℕ))
    → (result ≢ ok (some count)) ⊎ (bytes ≡ [])
    → Partly count bytes (result, [])
nothing-Partly count bytes result h = record { unsent = bytes; cut = refl; finished = h }

some-Partly :
    (count : ℕ) (b n : ℕ) (bs : List ℕ) (out : Outcome (Option ℕ) × List ℕ)
    → Partly count (drop n bs) out
    → Partly count (b ∷ bs) (out.0, (b ∷ take n bs) ++ out.1)
some-Partly count b n bs out h = record {
  unsent = h.unsent;
  cut =
      ap (λ l. b ∷ l)
        (sym (take-append-drop n bs)
          ∙ ap (λ l. take n bs ++ l) h.cut
          ∙ sym (append_assoc (take n bs) out.1 h.unsent));
  finished = h.finished;
}

-- Whatever the socket does, the bytes that went out are a first part of the buffer, and all of it
-- if the call returns the full count of a buffer that is not empty.
pub write_all_or_return-Partly :
    (count : ℕ) (bytes : List ℕ) (script : List Outgoing)
    → 0 < count
    → Partly count bytes (write_all_or_return count bytes script)
unfolding write_all_or_return
write_all_or_return-Partly count [] script h = nothing-Partly count [] _ (inr refl)
write_all_or_return-Partly count (b ∷ bs) [] h =
    nothing-Partly count (b ∷ bs) waiting (inl (λ e. cc e))
write_all_or_return-Partly count (b ∷ bs) (timed_out ∷ script) h =
    nothing-Partly count (b ∷ bs) (ok none) (inl (λ e. cc e))
write_all_or_return-Partly count (b ∷ bs) (write_fails error ∷ script) h =
    elim (Bool-cases (error == eagain)) [
      | inl again ↦ rw again (write_all_or_return-Partly count (b ∷ bs) script h)
      | inr stops ↦ rw stops (nothing-Partly count (b ∷ bs) (ok none) (inl (λ e. cc e)))
    ]
write_all_or_return-Partly count (b ∷ bs) (room zero ∷ script) h =
    nothing-Partly count (b ∷ bs) (ok (some 0)) (inl zero_count)
  where
    zero_count : ok (some 0) ≢ ok (some count)
    zero_count e = omega (arith, h, same_count e)
      where
        same_count : ok (some 0) ≡ ok (some count) → 0 ≡ count
        same_count e = cc e
write_all_or_return-Partly count (b ∷ bs) (room (suc n) ∷ script) h =
    some-Partly count b n bs (write_all_or_return count (drop n bs) script)
      (write_all_or_return-Partly count (drop n bs) script h)
