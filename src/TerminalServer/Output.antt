-- ===== src/TerminalServer/Output.antt =====
-- What the client of a terminal is sent, terminal/TerminalServer.cpp.
use eternal_terminal.Common.{
  ℕ, ◌+◌, Bool, true, false, ◌&&◌, List, [], ◌∷◌, ◌++◌, ◌≡◌, refl, ap, sym, ◌∙◌, ◌⊎◌, inl, inr, map,
  subst, if◌then◌else◌, append_assoc, append-nil,
}
use eternal_terminal.TerminalServer.{
  Sent, initial_response, terminal_buffer, keep_alive, destination_request, forward_data, both,
  neither, type_only, Got, port_forward, got_buffer, got_keep_alive, got_info, got_other, nothing,
  read_throws, FromTerminal, bytes, ended, again, failed, Round, TerminalRun, Flow, goes_on, skips,
  breaks, raises, aborts, Ending, session_ended, aborted, send, on_terminal, send_all,
  update_forwards, to_terminal, and_then, read_packets, if_set, round, next, loop,
}

-- The terminal output in packets.
abbrev pub output : List Sent → List ℕ
output [] = []
output (terminal_buffer s ∷ ps) = s ++ output ps
output (initial_response e ∷ ps) = output ps
output (keep_alive ∷ ps) = output ps
output (destination_request p ∷ ps) = output ps
output (forward_data p ∷ ps) = output ps

-- The bytes that a round reads from the terminal, and those of rounds one after the other.
abbrev pub bytes_of : FromTerminal → List ℕ
bytes_of (bytes s) = s
bytes_of ended = []
bytes_of again = []
bytes_of failed = []

abbrev pub taken : Round → List ℕ
taken r = if r.can_buffer && r.terminal_ready then bytes_of r.from_terminal else []

abbrev pub taken_all : List Round → List ℕ
taken_all [] = []
taken_all (r ∷ rounds) = taken r ++ taken_all rounds

output-append : (ps qs : List Sent) → output (ps ++ qs) ≡ output ps ++ output qs
output-append [] qs = refl
output-append (terminal_buffer s ∷ ps) qs =
    ap (s ++◌) (output-append ps qs) ∙ sym (append_assoc s (output ps) (output qs))
output-append (initial_response e ∷ ps) qs = output-append ps qs
output-append (keep_alive ∷ ps) qs = output-append ps qs
output-append (destination_request p ∷ ps) qs = output-append ps qs
output-append (forward_data p ∷ ps) qs = output-append ps qs

-- A packet without output.
send-output :
    (p : Sent) (t : TerminalRun) → output (p ∷ []) ≡ [] → output (send p t).sent ≡ output t.sent
send-output p t h =
    output-append t.sent (p ∷ []) ∙ ap (output t.sent ++◌) h ∙ append-nil (output t.sent)

send_all-requests :
    (ps : List (List ℕ)) (t : TerminalRun)
    → output (send_all (map destination_request ps) t).sent ≡ output t.sent
send_all-requests [] t = refl
send_all-requests (p ∷ ps) t =
    send_all-requests ps (send (destination_request p) t)
    ∙ send-output (destination_request p) t refl

send_all-data :
    (ps : List (List ℕ)) (t : TerminalRun)
    → output (send_all (map forward_data ps) t).sent ≡ output t.sent
send_all-data [] t = refl
send_all-data (p ∷ ps) t =
    send_all-data ps (send (forward_data p) t) ∙ send-output (forward_data p) t refl

-- The packets of the client bring no output.
read_packets-output :
    (packets : List Got) (t : TerminalRun)
    → output ((read_packets packets t).1).sent ≡ output t.sent
unfolding read_packets
read_packets-output [] t = refl
read_packets-output (port_forward p ∷ packets) t =
    read_packets-output packets (record t { forwarded = t.forwarded ++ p ∷ [] })
read_packets-output (got_buffer s both ∷ packets) t =
    read_packets-output packets ((to_terminal 1 s both t).1)
read_packets-output (got_buffer s neither ∷ packets) t = refl
read_packets-output (got_buffer s type_only ∷ packets) t = refl
read_packets-output (got_keep_alive ∷ packets) t =
    read_packets-output packets (send keep_alive t) ∙ send-output keep_alive t refl
read_packets-output (got_info s both ∷ packets) t =
    read_packets-output packets ((to_terminal 2 s both t).1)
read_packets-output (got_info s neither ∷ packets) t = refl
read_packets-output (got_info s type_only ∷ packets) t = refl
read_packets-output (got_other n ∷ packets) t = refl
read_packets-output (nothing ∷ packets) t = refl
read_packets-output (read_throws ∷ packets) t = refl

-- What follows the look at the terminal.
after_terminal : Round → TerminalRun → Flow × TerminalRun
after_terminal r u = if_set r.client_ready (read_packets r.packets) (update_forwards r u)

after_terminal-output :
    (r : Round) (u : TerminalRun) → output ((after_terminal r u).1).sent ≡ output u.sent
unfolding after_terminal
after_terminal-output r u = client r.client_ready ∙ forwards
  where
    forwards : output (update_forwards r u).sent ≡ output u.sent
    forwards =
        send_all-data r.data_to_send (send_all (map destination_request r.requests) u)
        ∙ send_all-requests r.requests u

    client :
        (b : Bool)
        → output ((if_set b (read_packets r.packets) (update_forwards r u)).1).sent
          ≡ output (update_forwards r u).sent
    client true = read_packets-output r.packets (update_forwards r u)
    client false = refl

round-output :
    (r : Round) (t : TerminalRun) → output ((round r t).1).sent ≡ output t.sent ++ taken r
unfolding round after_terminal
round-output r t = look (r.can_buffer && r.terminal_ready)
  where
    terminal :
        (f : FromTerminal)
        → output ((and_then (on_terminal f t) (after_terminal r)).1).sent
          ≡ output t.sent ++ bytes_of f
    terminal (bytes s) =
        after_terminal-output r (send (terminal_buffer s) t)
        ∙ output-append t.sent (terminal_buffer s ∷ [])
        ∙ ap (output t.sent ++◌) (append-nil s)
    terminal ended = sym (append-nil (output t.sent))
    terminal again = sym (append-nil (output t.sent))
    terminal failed = sym (append-nil (output t.sent))

    look :
        (b : Bool)
        → output ((and_then (if_set b (on_terminal r.from_terminal) t) (after_terminal r)).1).sent
          ≡ output t.sent ++ (if b then bytes_of r.from_terminal else [])
    look true = terminal r.from_terminal
    look false = after_terminal-output r t ∙ sym (append-nil (output t.sent))

-- What a loop has sent after the rounds it entered, which are all of them if it is still running.
abbrev pub Delivered : List Round → List ℕ → Ending × TerminalRun → Type 0
Delivered rounds before (e, t) =
    (entered rest : List Round) × (rounds ≡ entered ++ rest)
    × (output t.sent ≡ before ++ taken_all entered)
    × ((rest ≡ []) ⊎ (e ≡ session_ended) ⊎ (e ≡ aborted))

entered_one :
    (r : Round) (rounds : List Round) (before : List ℕ) (o : Ending × TerminalRun)
    → Delivered rounds (before ++ taken r) o
    → Delivered (r ∷ rounds) before o
entered_one r rounds before (e, t) (entered, rest, s, sent, end) =
    (r ∷ entered, rest, ap (r ∷◌) s, sent ∙ append_assoc before (taken r) (taken_all entered), end)

-- A round was entered and is the last.
stops :
    (r : Round) (rounds : List Round) (before : List ℕ) (e : Ending) (t : TerminalRun)
    → output t.sent ≡ before ++ taken r
    → (e ≡ session_ended) ⊎ (e ≡ aborted)
    → Delivered (r ∷ rounds) before (e, t)
stops r rounds before e t sent end =
    (r ∷ [], rounds, refl, sent ∙ ap (before ++◌) (sym (append-nil (taken r))), inr end)

next-Delivered :
    (r : Round) (rounds : List Round) (before : List ℕ) (o : Flow × TerminalRun)
    → ((u : TerminalRun) → Delivered rounds (output u.sent) (loop rounds u))
    → output (o.1).sent ≡ before ++ taken r
    → Delivered (r ∷ rounds) before (next o (loop rounds))
next-Delivered r rounds before (goes_on, t) rest sent =
    entered_one r rounds before (loop rounds t)
      (subst (λ x. Delivered rounds x (loop rounds t)) sent (rest t))
next-Delivered r rounds before (skips, t) rest sent =
    entered_one r rounds before (loop rounds t)
      (subst (λ x. Delivered rounds x (loop rounds t)) sent (rest t))
next-Delivered r rounds before (breaks, t) rest sent =
    stops r rounds before session_ended t sent (inl refl)
next-Delivered r rounds before (raises, t) rest sent =
    entered_one r rounds before (loop rounds (record t { closes = 1 + t.closes })) (
      subst (λ x. Delivered rounds x (loop rounds (record t { closes = 1 + t.closes }))) sent
        (rest (record t { closes = 1 + t.closes })))
next-Delivered r rounds before (aborts, t) rest sent =
    stops r rounds before aborted t sent (inr refl)

-- Whatever the client, the terminal and the port forwarding do, exceptions included: the output that
-- the loop has sent to the client is, in order, all the bytes that it read from the terminal in the
-- rounds it entered, after what was sent before; and it enters all rounds, unless the session has
-- ended or the process has aborted.
pub loop-Delivered :
    (rounds : List Round) (t : TerminalRun) → Delivered rounds (output t.sent) (loop rounds t)
unfolding loop
loop-Delivered [] t = ([], [], refl, sym (append-nil (output t.sent)), inl refl)
loop-Delivered (r ∷ rounds) t =
    halt r.halted (
      next-Delivered r rounds (output t.sent) (round r t) (loop-Delivered rounds)
        (round-output r t))
  where
    halt :
        (b : Bool)
        → Delivered (r ∷ rounds) (output t.sent) (next (round r t) (loop rounds))
        → Delivered
            (r ∷ rounds)
            (output t.sent)
            (if b then (session_ended, t) else next (round r t) (loop rounds))
    halt true h = ([], r ∷ rounds, refl, sym (append-nil (output t.sent)), inr (inl refl))
    halt false h = h
