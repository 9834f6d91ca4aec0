-- ===== src/Terminal/Bounded.antt =====
-- The bounds of the kept lines of htm/TerminalHandler.cpp.
use eternal_terminal.Common.{
  ℕ, zero, suc, ◌+◌, ◌-◌, ◌≤◌, Bool, true, false, List, [], ◌∷◌, ◌++◌, ◌≡◌, arith, if◌then◌else◌,
  length, length-append, length-drop, drop, ltb, split, Bool-cases, inl, inr, ltb_false→le, ltb→lt,
}
use eternal_terminal.Terminal.{
  TerminalHandler, max_buffer_lines, max_buffer_chars, chars, append_to_back, joined, erase_lines,
  pop_lines, store, Output, bytes, ended, failed, poll_user_terminal,
}

-- The counter is the number of characters, and neither limit is passed.
pub record Bounded (t : TerminalHandler) : Type 0 where
  pub counted : t.buffer_length ≡ chars t.buffer
  pub few_lines : length t.buffer ≤ max_buffer_lines
  pub few_chars : t.buffer_length ≤ max_buffer_chars

chars-append : (a b : List (List ℕ)) → chars (a ++ b) ≡ chars a + chars b
chars-append [] b = omega arith
chars-append (l ∷ a) b = omega (arith, chars-append a b)

chars-append_to_back :
    (token line : List ℕ) (lines : List (List ℕ))
    → chars (append_to_back token (line ∷ lines)) ≡ length token + chars (line ∷ lines)
chars-append_to_back token line [] = omega (arith, length-append line token)
chars-append_to_back token line (next ∷ lines) =
    omega (arith, chars-append_to_back token next lines)

chars-joined :
    (lines tokens : List (List ℕ)) → chars (joined lines tokens) ≡ chars lines + chars tokens
chars-joined [] tokens = omega arith
chars-joined (line ∷ lines) [] = omega arith
chars-joined (line ∷ lines) (token ∷ tokens) = omega (
  arith,
  chars-append (append_to_back token (line ∷ lines)) tokens,
  chars-append_to_back token line lines,
)

chars-drop : (n : ℕ) (lines : List (List ℕ)) → chars (drop n lines) ≤ chars lines
chars-drop zero lines = omega arith
chars-drop (suc n) [] = omega arith
chars-drop (suc n) (l ∷ lines) = omega (arith, chars-drop n lines)

erase_lines-lem :
    (lines : List (List ℕ)) (n : ℕ)
    → n ≡ chars lines
    → ((erase_lines lines n).1 ≡ chars (erase_lines lines n).0)
      × (length (erase_lines lines n).0 ≤ max_buffer_lines)
erase_lines-lem lines n e = elim (Bool-cases (ltb max_buffer_lines (length lines))) [
  | inl h ↦
      let k = length lines - max_buffer_lines in
      rw h (
        omega (arith, chars-drop k lines, e),
        omega (arith, length-drop k lines, ltb→lt max_buffer_lines (length lines) h),
      )
  | inr h ↦ rw h (e, ltb_false→le max_buffer_lines (length lines) h)
]

pop_lines-lem :
    (lines : List (List ℕ)) (n : ℕ)
    → n ≡ chars lines
    → ((pop_lines lines n).1 ≡ chars (pop_lines lines n).0)
      × (length (pop_lines lines n).0 ≤ length lines)
      × ((pop_lines lines n).1 ≤ max_buffer_chars)
pop_lines-lem [] n e = (e, omega arith, omega (arith, e))
pop_lines-lem (line ∷ lines) n e = elim (Bool-cases (ltb max_buffer_chars n)) [
  | inl h ↦
      let (a, b, c) = pop_lines-lem lines (n - length line) (omega (arith, e)) in
      rw h (a, omega (arith, b), c)
  | inr h ↦ rw h (e, omega arith, ltb_false→le max_buffer_chars n h)
]

store-Bounded : (new_chars : List ℕ) (t : TerminalHandler) → Bounded t → Bounded (store new_chars t)
unfolding store
store-Bounded new_chars t h =
    let tokens = split new_chars b'\n' in
    let lines = joined t.buffer tokens in
    let n = t.buffer_length + chars tokens in
    let (e, few) =
      erase_lines-lem lines n (omega (arith, chars-joined t.buffer tokens, h.counted)) in
    let erased = erase_lines lines n in
    let (e', fewer, bound) = pop_lines-lem erased.0 erased.1 e in
    record { counted = e'; few_lines = omega (arith, few, fewer); few_chars = bound }

still : (t : TerminalHandler) → Bounded t → Bounded (record t { run = false })
still t h = record { counted = h.counted; few_lines = h.few_lines; few_chars = h.few_chars }

-- Whatever a terminal sends, and whether it ends or fails: after a poll the counter is the number
-- of characters kept, at most 1024 lines are kept and at most 131072 characters, if so before it.
pub poll_user_terminal-Bounded :
    (output : List Output) (t : TerminalHandler)
    → Bounded t
    → Bounded ((poll_user_terminal output t).1)
unfolding poll_user_terminal
poll_user_terminal-Bounded [] t h = h
poll_user_terminal-Bounded (bytes c s ∷ _) t h = polled t.run
  where
    polled :
        (b : Bool)
        → let r : List ℕ × TerminalHandler = if b then (c ∷ s, store (c ∷ s) t) else ([], t) in
          Bounded (r.1)
    polled true = store-Bounded (c ∷ s) t h
    polled false = h
poll_user_terminal-Bounded (ended ∷ _) t h = still t h
poll_user_terminal-Bounded (failed ∷ _) t h = still t h
