-- ===== src/Server/Passkey.antt =====
-- verifyPasskey of src/base/ServerClientConnection.cpp.
use eternal_terminal.Common.{
  ℕ, ◌≡◌, ◌≢◌, ◌↔◌, refl, inl, inr, true, false, not, List, [], ◌∷◌, arith, length, Bool-cases,
  ◌==◌, ==_iff,
}
use eternal_terminal.Server.{verify_passkey, mismatches}

-- The loop over the common length.
mismatches-true : (key target : List ℕ) → mismatches true key target ≡ true
mismatches-true [] target = refl
mismatches-true (k ∷ key) [] = refl
mismatches-true (k ∷ key) (t ∷ target) = mismatches-true key target

mismatches-eq :
    (key target : List ℕ)
    → length key ≡ length target
    → mismatches false key target ≡ false
    → key ≡ target
mismatches-eq [] [] h e = refl
mismatches-eq [] (t ∷ target) h e = absurd (omega arith)
mismatches-eq (k ∷ key) [] h e = absurd (omega arith)
mismatches-eq (k ∷ key) (t ∷ target) h e =
    ground (arith, mismatches-eq key target, mismatches-true key target)

mismatches_refl : (key : List ℕ) → mismatches false key key ≡ false
mismatches_refl [] = refl
mismatches_refl (k ∷ key) = ground (arith, mismatches_refl key)

-- `verifyPasskey` accepts the key itself and nothing else.
pub verify_passkey_iff : (key target : List ℕ) → (verify_passkey key target ≡ true) ↔ (key ≡ target)
unfolding verify_passkey
verify_passkey_iff key target = (
  λ e. elim (Bool-cases (length key == length target)) [
    | inl fits ↦ mismatches-eq key target ((==_iff _ _).0 fits) (accepted key target fits e)
    | inr wrong ↦ absurd (rejected key target wrong e)
  ],
  λ e. rw (← e) (ground (arith, mismatches_refl key)),
)
  where
    accepted :
        (key target : List ℕ)
        → (length key == length target) ≡ true
        → not (mismatches (not (length key == length target)) key target) ≡ true
        → mismatches false key target ≡ false
    accepted key target fits e = ground (arith, fits, e)

    rejected :
        (key target : List ℕ)
        → (length key == length target) ≡ false
        → not (mismatches (not (length key == length target)) key target) ≢ true
    rejected key target wrong e = ground (arith, wrong, e, mismatches-true key target)
