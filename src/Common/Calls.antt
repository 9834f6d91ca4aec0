-- ===== src/Common/Calls.antt =====
-- How a C++ call ends: it returns, it throws, the process aborts (`STFATAL`), or the call is
-- still waiting when the script of the environment's answers ends.

-- The exceptions that the code throws, or lets a library call throw.
pub data Error : Type 0 where
  runtime_error out_of_range length_error : Error

pub data Outcome {ℓ} (A : Type ℓ) : Type ℓ where
  ok : A → Outcome A
  throws : Error → Outcome A
  fatal : Outcome A
  waiting : Outcome A

infixl 5 ◌>>=◌
abbrev pub ◌>>=◌ {ℓ κ} : {A : Type ℓ} {B : Type κ} → Outcome A → (A → Outcome B) → Outcome B
ok a >>= f = f a
throws e >>= f = throws e
fatal >>= f = fatal
waiting >>= f = waiting

-- What follows a call that ended, when the object that it changed comes back beside the outcome.
abbrev pub continue {ℓ κ} :
    {A : Type ℓ} {B : Type κ} {S : Type 0} → Outcome A → S → (A → Outcome B × S) → Outcome B × S
continue (ok a) s f = f a
continue (throws e) s f = (throws e, s)
continue fatal s f = (fatal, s)
continue waiting s f = (waiting, s)
