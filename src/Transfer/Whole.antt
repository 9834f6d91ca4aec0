-- ===== src/Transfer/Whole.antt =====
-- readAll and writeAllOrThrow of src/base/SocketHandler.cpp bring the whole buffer across.
use eternal_terminal.Common.{
  ℕ, suc, ◌≤◌, ◌<◌, ◌≡◌, refl, sym, ap, ◌∙◌, inl, inr, Bool, true, false, ◌&&◌, List, [], ◌∷◌, ◌++◌,
  arith, length, take, drop, length-append, append_split, take-append, drop-append, Outcome, ok,
  throws, fatal, waiting, Bool-cases, ◌==◌, leb, continue, leb→le, ◌-◌,
}
use eternal_terminal.Connection.{eagain}
use eternal_terminal.Transfer.{Incoming, not_ready, holds, read_fails, keep, read_all}

-- The bytes that a script brings.
abbrev pub incoming : List Incoming → List ℕ
incoming [] = []
incoming (not_ready past_limit ∷ script) = incoming script
incoming (holds bs ∷ script) = bs ++ incoming script
incoming (read_fails e ∷ script) = incoming script

-- Nothing goes wrong before the script ends: data, waiting below the time limit, and EAGAIN.
abbrev pub IsSmooth : List Incoming → Type 0
IsSmooth [] = Unit {0}
IsSmooth (not_ready past_limit ∷ script) = (past_limit ≡ false) × IsSmooth script
IsSmooth (holds bs ∷ script) = (0 < length bs) × IsSmooth script
IsSmooth (read_fails e ∷ script) = (e ≡ eagain) × IsSmooth script

incoming-keep :
    (bs : List ℕ) (script : List Incoming) → incoming (keep bs script) ≡ bs ++ incoming script
incoming-keep [] script = refl
incoming-keep (b ∷ bs) script = refl

keep-IsSmooth : (bs : List ℕ) (script : List Incoming) → IsSmooth script → IsSmooth (keep bs script)
keep-IsSmooth [] script h = h
keep-IsSmooth (b ∷ bs) script h = (omega arith, h)

-- The buffer, and a smooth script of the bytes behind it.
pub record Read (bytes rest : List ℕ) (out : Outcome (List ℕ) × List Incoming) : Type 0 where
  pub whole : out.0 ≡ ok bytes
  pub behind : incoming out.1 ≡ rest
  pub smooth : IsSmooth out.1

Read-more :
    (bytes bs us rest : List ℕ) (out : Outcome (List ℕ) × List Incoming)
    → bytes ≡ bs ++ us
    → Read us rest out
    → Read bytes rest (continue out.0 out.1 λ more. (ok (bs ++ more), out.1))
Read-more bytes bs us rest (ok more, script) split h = record {
  whole =
      ap
        (λ (o : Outcome (List ℕ)). elim o [
          | ok l ↦ ok (bs ++ l)
          | throws e ↦ throws e
          | fatal ↦ fatal
          | waiting ↦ waiting
        ])
        h.whole
      ∙ ap ok (sym split);
  behind = h.behind;
  smooth = h.smooth;
}
Read-more bytes bs us rest (throws e, script) split h = absurd (cc h.whole)
Read-more bytes bs us rest (fatal, script) split h = absurd (cc h.whole)
Read-more bytes bs us rest (waiting, script) split h = absurd (cc h.whole)

in_time : (timeout past_limit : Bool) → past_limit ≡ false → (timeout && past_limit) ≡ false
in_time timeout past_limit e = ground arith

retries : (e : ℕ) → e ≡ eagain → (e == eagain) ≡ true
retries e h = ground arith

last-Read :
    (bytes rest bs : List ℕ) (script : List Incoming)
    → IsSmooth script
    → bs ++ incoming script ≡ bytes ++ rest
    → length bytes ≤ length bs
    → Read bytes rest (ok (take (length bytes) bs), keep (drop (length bytes) bs) script)
last-Read bytes rest bs script h e enough =
    let (us, split, behind) = append_split bytes rest bs (incoming script) (sym e) enough in
    let left : drop (length bytes) bs ≡ us =
      ap (λ l. drop (length bytes) l) split ∙ drop-append bytes us in
    record {
      whole = ap (λ l. ok (take (length bytes) l)) split ∙ ap ok (take-append bytes us);
      behind =
          incoming-keep (drop (length bytes) bs) script
          ∙ ap (λ l. l ++ incoming script) left
          ∙ sym behind;
      smooth = keep-IsSmooth (drop (length bytes) bs) script h;
    }

-- When no failure but EAGAIN and no time limit comes between, the loop returns exactly the bytes
-- that it was asked for, however they are cut into pieces, and leaves the ones behind them.
pub read_all-Read :
    (timeout : Bool) (bytes rest : List ℕ) (script : List Incoming)
    → IsSmooth script
    → incoming script ≡ bytes ++ rest
    → Read bytes rest (read_all timeout (length bytes) script)
unfolding read_all
read_all-Read timeout [] rest script h e = record { whole = refl; behind = e; smooth = h }
read_all-Read timeout (x ∷ xs) rest [] h e = absurd (cc e)
read_all-Read timeout (x ∷ xs) rest (not_ready past_limit ∷ script) (on_time, h) e =
    rw (in_time timeout past_limit on_time) (read_all-Read timeout (x ∷ xs) rest script h e)
read_all-Read timeout (x ∷ xs) rest (read_fails error ∷ script) (again, h) e =
    rw (retries error again) (read_all-Read timeout (x ∷ xs) rest script h e)
read_all-Read timeout (x ∷ xs) rest (holds [] ∷ script) (some_left, h) e = absurd (omega arith)
read_all-Read timeout (x ∷ xs) rest (holds (b ∷ bs) ∷ script) (some_left, h) e =
    elim (Bool-cases (leb (suc (length xs)) (suc (length bs)))) [
      | inl enough ↦ rw enough (last-Read (x ∷ xs) rest (b ∷ bs) script h e (leb→le _ _ enough))
      | inr short ↦
          let (us, split, behind) =
            append_split (b ∷ bs) (incoming script) (x ∷ xs) rest e
              (shorter (suc (length xs)) (suc (length bs)) short) in
          let left : suc (length xs) - suc (length bs) ≡ length us =
            omega (arith, ap length split, length-append (b ∷ bs) us) in
          rw (short, left)
            (Read-more (x ∷ xs) (b ∷ bs) us rest (read_all timeout (length us) script) split
              (read_all-Read timeout us rest script h behind))
    ]
  where
    shorter : (m n : ℕ) → leb m n ≡ false → n ≤ m
    shorter m n e = ground arith
