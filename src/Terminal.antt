-- ===== src/Terminal.antt =====
-- src/htm/TerminalHandler.cpp: a terminal of the multiplexer, with the lines of its output that
-- are kept for a client that comes back.
pub mod Bounded
use eternal_terminal.Common.{
  ℕ, zero, suc, ◌+◌, ◌-◌, ◌*◌, Bool, true, false, Option, none, some, List, [], ◌∷◌, ◌++◌,
  if◌then◌else◌, length, take, drop, ltb, split,
}

-- `typed` is what writeAll has put out to the descriptor, and `size` the last columns and rows.
pub record TerminalHandler : Type 0 where
  pub run : Bool
  pub buffer : List (List ℕ)
  pub buffer_length : ℕ
  pub typed : List ℕ
  pub size : List (ℕ × ℕ)

abbrev pub max_buffer_lines : ℕ
max_buffer_lines = 1024

abbrev pub max_buffer_chars : ℕ
max_buffer_chars = 128 * max_buffer_lines

-- A new handler after `start`.
unfoldable pub started : TerminalHandler
started = record { run = true; buffer = []; buffer_length = 0; typed = []; size = [] }

-- The characters in a list of lines.
abbrev pub chars : List (List ℕ) → ℕ
chars [] = 0
chars (line ∷ lines) = length line + chars lines

-- `buffer.back().append(token)`; the buffer is not empty.
abbrev pub append_to_back : List ℕ → List (List ℕ) → List (List ℕ)
append_to_back token [] = []
append_to_back token (line ∷ []) = (line ++ token) ∷ []
append_to_back token (line ∷ next ∷ lines) = line ∷ append_to_back token (next ∷ lines)

-- The tokens behind the buffer: the first one ends its last line.
abbrev pub joined : List (List ℕ) → List (List ℕ) → List (List ℕ)
joined [] tokens = tokens
joined (line ∷ lines) [] = line ∷ lines
joined (line ∷ lines) (token ∷ tokens) = append_to_back token (line ∷ lines) ++ tokens

-- The two counters of the cleanup: lines first, then characters. The pops end with the buffer,
-- as the length that is left is then 0.
abbrev pub erase_lines : List (List ℕ) → ℕ → List (List ℕ) × ℕ
erase_lines lines n =
    if ltb max_buffer_lines (length lines)
    then (
      drop (length lines - max_buffer_lines) lines,
      n - (chars lines - chars (drop (length lines - max_buffer_lines) lines)),
    )
    else (lines, n)

abbrev pub pop_lines : List (List ℕ) → ℕ → List (List ℕ) × ℕ
pop_lines [] n = ([], n)
pop_lines (line ∷ lines) n =
    let popped = pop_lines lines (n - length line) in
    if ltb max_buffer_chars n then popped else (line ∷ lines, n)

abbrev pub keep : TerminalHandler → List (List ℕ) × ℕ → TerminalHandler
keep t (lines, n) = record t { buffer = lines; buffer_length = n }

-- What one read of a terminal that has data brings.
pub data Output : Type 0 where
  bytes : ℕ → List ℕ → Output
  ended failed : Output

-- The branch with rc > 0.
unfoldable pub store : List ℕ → TerminalHandler → TerminalHandler
store new_chars t =
    let tokens = split new_chars b'\n' in
    let erased = erase_lines (joined t.buffer tokens) (t.buffer_length + chars tokens) in
    keep t (pop_lines erased.0 erased.1)

-- The string that it returns, and the handler after it. Bytes come as a first one and the rest.
unfoldable pub poll_user_terminal : List Output → TerminalHandler → List ℕ × TerminalHandler
poll_user_terminal [] t = ([], t)
poll_user_terminal (bytes c s ∷ _) t = if t.run then (c ∷ s, store (c ∷ s) t) else ([], t)
poll_user_terminal (ended ∷ _) t = ([], record t { run = false })
poll_user_terminal (failed ∷ _) t = ([], record t { run = false })

-- `appendData`, when writeAll puts out all, or when it throws after so many bytes; false for the
-- exception.
unfoldable pub append_data : Option ℕ → List ℕ → TerminalHandler → Bool × TerminalHandler
append_data none data₁ t = (true, record t { typed = t.typed ++ data₁ })
append_data (some n) data₁ t = (false, record t { typed = t.typed ++ take n data₁ })

unfoldable pub update_terminal_size : ℕ → ℕ → TerminalHandler → TerminalHandler
update_terminal_size col row t = record t { size = (col, row) ∷ [] }

unfoldable pub stop : TerminalHandler → TerminalHandler
stop t = record t { run = false }
