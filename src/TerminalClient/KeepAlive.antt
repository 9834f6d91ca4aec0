-- ===== src/TerminalClient/KeepAlive.antt =====
-- When terminal/TerminalClient.cpp gives up on its connection for want of a keepalive.
use eternal_terminal.Common.{
  ℕ, ◌+◌, Bool, true, false, not, ◌&&◌, List, [], ◌∷◌, ◌++◌, ◌≡◌, refl, ap, sym, ◌∙◌, ◌⊎◌, inl, inr,
  if◌then◌else◌, map, ltb, same, Option, none, some, is_empty,
}
use eternal_terminal.TerminalClient.{
  Sent, terminal_info, keep_alive, destination_request, forward_data, Got, port_forward, got_buffer,
  got_keep_alive, got_other, nothing, read_throws, FromConsole, bytes, ended, again, failed, Round,
  TerminalClient, Flow, goes_on, breaks, throws, fatal, send, keep, on_console, read_packets,
  write_console, show_all, check_keepalive, check_info, send_all, update_forwards, if_set, and_then,
  on_packets, rest_of_round, caught, round,
}
use eternal_terminal.TerminalClient.Output.{before_packets}

-- Whether a keepalive is among the packets that the loop comes to.
abbrev pub answered : List Got → Bool
answered [] = false
answered (port_forward p ∷ packets) = answered packets
answered (got_buffer s ∷ packets) = answered packets
answered (got_keep_alive ∷ packets) = true
answered (got_other n ∷ packets) = false
answered (nothing ∷ packets) = false
answered (read_throws ∷ packets) = false

-- How the keepalives of one state came from those of another: closed as often, and an answer is
-- only waited for if it was before and did not come.
abbrev pub Waits : Bool → TerminalClient → TerminalClient → Type 0
Waits came t u =
    (u.keepalive_closes ≡ t.keepalive_closes)
    × (u.waiting_on_keepalive ≡ t.waiting_on_keepalive && not came)

Waits-refl : (t : TerminalClient) → Waits false t t
Waits-refl t = (refl, same_wait t.waiting_on_keepalive)
  where
    same_wait : (b : Bool) → b ≡ b && true
    same_wait true = refl
    same_wait false = refl

before_packets-Waits : (r : Round) (t : TerminalClient) → Waits false t ((before_packets r t).1)
before_packets-Waits r t = read (t.has_console && r.console_ready)
  where
    console : (f : FromConsole) → Waits false t ((on_console r.now f t).1)
    console (bytes s) = Waits-refl t
    console ended = Waits-refl t
    console again = Waits-refl t
    console failed = Waits-refl t

    read : (b : Bool) → Waits false t ((if_set b (on_console r.now r.from_console) t).1)
    read true = console r.from_console
    read false = Waits-refl t

-- Once the answer came, none is waited for.
settled :
    (now : ℕ) (packets : List Got) (c : List ℕ) (t : TerminalClient)
    → t.waiting_on_keepalive ≡ false
    → ((read_packets now packets c t).2).waiting_on_keepalive ≡ false
unfolding read_packets
settled now [] c t h = h
settled now (port_forward p ∷ packets) c t h =
    settled now packets c (record (keep now t) { forwarded = t.forwarded ++ p ∷ [] }) h
settled now (got_buffer s ∷ packets) c t h =
    either t.has_console (settled now packets (c ++ s) (keep now t) h) (settled now packets c t h)
  where
    either :
        (b : Bool)
        → ((read_packets now packets (c ++ s) (keep now t)).2).waiting_on_keepalive ≡ false
        → ((read_packets now packets c t).2).waiting_on_keepalive ≡ false
        → ((if b
            then read_packets now packets (c ++ s) (keep now t)
            else read_packets now packets c t).2
          ).waiting_on_keepalive
          ≡ false
    either true x y = x
    either false x y = y
settled now (got_keep_alive ∷ packets) c t h =
    settled now packets c (record t { waiting_on_keepalive = false }) refl
settled now (got_other n ∷ packets) c t h = h
settled now (nothing ∷ packets) c t h = h
settled now (read_throws ∷ packets) c t h = h

and_false : (b : Bool) → b && false ≡ false
and_false true = refl
and_false false = refl

read_packets-Waits :
    (now : ℕ) (packets : List Got) (c : List ℕ) (t : TerminalClient)
    → Waits (answered packets) t ((read_packets now packets c t).2)
unfolding read_packets
read_packets-Waits now [] c t = Waits-refl t
read_packets-Waits now (port_forward p ∷ packets) c t =
    read_packets-Waits now packets c (record (keep now t) { forwarded = t.forwarded ++ p ∷ [] })
read_packets-Waits now (got_buffer s ∷ packets) c t =
    either t.has_console (read_packets-Waits now packets (c ++ s) (keep now t))
      (read_packets-Waits now packets c t)
  where
    either :
        (b : Bool)
        → Waits (answered packets) t ((read_packets now packets (c ++ s) (keep now t)).2)
        → Waits (answered packets) t ((read_packets now packets c t).2)
        → Waits (answered packets) t (
            (if b
              then read_packets now packets (c ++ s) (keep now t)
              else read_packets now packets c t).2)
    either true x y = x
    either false x y = y
read_packets-Waits now (got_keep_alive ∷ packets) c t =
    let u : TerminalClient = record t { waiting_on_keepalive = false } in
    (
      (read_packets-Waits now packets c u).0,
      settled now packets c u refl ∙ sym (and_false t.waiting_on_keepalive),
    )
read_packets-Waits now (got_other n ∷ packets) c t = Waits-refl t
read_packets-Waits now (nothing ∷ packets) c t = Waits-refl t
read_packets-Waits now (read_throws ∷ packets) c t = Waits-refl t

show_all-Waits :
    (came : Bool) (takes : Option ℕ) (t : TerminalClient) (p : Flow × List ℕ × TerminalClient)
    → Waits came t (p.2)
    → Waits came t ((show_all takes p).1)
show_all-Waits came takes t (goes_on, c, u) h = shows (u.has_console && not (is_empty c)) takes
  where
    shows :
        (b : Bool) (k : Option ℕ)
        → Waits came t ((if b then write_console k c u else (goes_on, u)).1)
    shows true none = h
    shows true (some n) = h
    shows false k = h
show_all-Waits came takes t (breaks, c, u) h = h
show_all-Waits came takes t (throws, c, u) h = h
show_all-Waits came takes t (fatal, c, u) h = h

reads-Waits :
    (r : Round) (b : Bool) (t : TerminalClient)
    → Waits (b && answered r.packets) t ((if_set b (on_packets r) t).1)
reads-Waits r true t =
    show_all-Waits (answered r.packets) r.console_takes t (read_packets r.now r.packets [] t)
      (read_packets-Waits r.now r.packets [] t)
reads-Waits r false t = Waits-refl t

send_all-closes :
    (now : ℕ) (ps : List Sent) (t : TerminalClient)
    → (send_all now ps t).keepalive_closes ≡ t.keepalive_closes
send_all-closes now [] t = refl
send_all-closes now (p ∷ ps) t = send_all-closes now ps (keep now (send p t))

check_info-closes :
    (r : Round) (t : TerminalClient) → (check_info r t).keepalive_closes ≡ t.keepalive_closes
check_info-closes r t = looks (t.has_console && not (same r.info t.last_terminal_info))
  where
    looks :
        (b : Bool)
        → (if b
            then send (terminal_info r.info) (record t { last_terminal_info = r.info })
            else t).keepalive_closes
          ≡ t.keepalive_closes
    looks true = refl
    looks false = refl

-- The check closes the connection only while an answer is waited for.
abbrev Closing : Round → TerminalClient → TerminalClient → Type 0
Closing r t u =
    (u.keepalive_closes ≡ t.keepalive_closes)
    ⊎ ((u.keepalive_closes ≡ 1 + t.keepalive_closes)
        × (r.connected ≡ true)
        × (t.waiting_on_keepalive ≡ true))

check_keepalive-Closing : (r : Round) (t : TerminalClient) → Closing r t (check_keepalive r t)
check_keepalive-Closing r t = looks r.connected (ltb t.keepalive_time r.now) t.waiting_on_keepalive
  where
    looks :
        (connected due waiting : Bool)
        → ((if connected
              then (if due
                  then (if waiting
                      then record (keep r.now t) {
                        keepalive_closes = 1 + t.keepalive_closes;
                        waiting_on_keepalive = false;
                      }
                      else record (send keep_alive (keep r.now t)) { waiting_on_keepalive = true })
                  else t)
              else record t { waiting_on_keepalive = false }).keepalive_closes
            ≡ t.keepalive_closes)
          ⊎ (((if connected
                  then (if due
                      then (if waiting
                          then record (keep r.now t) {
                            keepalive_closes = 1 + t.keepalive_closes;
                            waiting_on_keepalive = false;
                          }
                          else record (send keep_alive (keep r.now t)) {
                            waiting_on_keepalive = true;
                          })
                      else t)
                  else record t { waiting_on_keepalive = false }).keepalive_closes
                ≡ 1 + t.keepalive_closes)
              × (connected ≡ true)
              × (waiting ≡ true))
    looks true true true = inr (refl, refl, refl)
    looks true true false = inl refl
    looks true false waiting = inl refl
    looks false due waiting = inl refl

rest_of_round-Closing : (r : Round) (t : TerminalClient) → Closing r t ((rest_of_round r t).1)
rest_of_round-Closing r t =
    let u = check_keepalive r t in
    let e : (update_forwards r (check_info r u)).keepalive_closes ≡ u.keepalive_closes =
      send_all-closes r.now (map forward_data r.data_to_send)
        (send_all r.now (map destination_request r.requests) (check_info r u))
      ∙ send_all-closes r.now (map destination_request r.requests) (check_info r u)
      ∙ check_info-closes r u in
    elim (check_keepalive-Closing r t) [
      | inl same_count ↦ inl (e ∙ same_count)
      | inr (one_more, connected, waiting) ↦ inr (e ∙ one_more, connected, waiting)
    ]

-- What a round whose check closes the connection tells.
abbrev pub Missed : Round → TerminalClient → TerminalClient → Type 0
Missed r t u =
    (u.keepalive_closes ≡ 1 + t.keepalive_closes)
    × (r.connected ≡ true)
    × (t.waiting_on_keepalive ≡ true)
    × (r.connection_ready && answered r.packets ≡ false)

missed :
    (r : Round) (t u w : TerminalClient)
    → Waits ((r.connected && r.connection_ready) && answered r.packets) t u
    → Closing r u w
    → (w.keepalive_closes ≡ t.keepalive_closes) ⊎ Missed r t w
missed r t u w (count, waits) (inl e) = inl (e ∙ count)
missed r t u w (count, waits) (inr (e, connected, waiting)) =
    let (was, none_came) =
      both t.waiting_on_keepalive ((r.connected && r.connection_ready) && answered r.packets)
        (sym waits ∙ waiting) in
    inr (
      e ∙ ap (λ n. 1 + n) count,
      connected,
      was,
      sym (ap (λ b. (b && r.connection_ready) && answered r.packets) connected) ∙ none_came,
    )
  where
    both : (a b : Bool) → a && not b ≡ true → (a ≡ true) × (b ≡ false)
    both true true h = absurd cc
    both true false h = (refl, refl)
    both false b h = absurd cc

-- In a round the check of the keepalive closes the connection at most once, and only one that has a
-- socket and has waited for the answer to a keepalive since an earlier round, with no keepalive
-- among the packets of this round.
pub round-closes :
    (r : Round) (t : TerminalClient)
    → (((round r t).1).keepalive_closes ≡ t.keepalive_closes) ⊎ Missed r t ((round r t).1)
unfolding round
round-closes r t = after_console (before_packets r t) (before_packets-Waits r t)
  where
    and_true : (x : Bool) → x && true ≡ x
    and_true true = refl
    and_true false = refl

    b : Bool
    b = r.connected && r.connection_ready

    after_packets :
        (q : Flow × TerminalClient)
        → Waits (b && answered r.packets) t (q.1)
        → (((caught (and_then q (rest_of_round r))).1).keepalive_closes ≡ t.keepalive_closes)
          ⊎ Missed r t ((caught (and_then q (rest_of_round r))).1)
    after_packets (goes_on, u) h =
        missed r t u ((rest_of_round r u).1) h (rest_of_round-Closing r u)
    after_packets (breaks, u) (count, _) = inl count
    after_packets (throws, u) (count, _) = inl count
    after_packets (fatal, u) (count, _) = inl count

    after_console :
        (p : Flow × TerminalClient)
        → Waits false t (p.1)
        → (((caught (and_then (and_then p (if_set b (on_packets r))) (rest_of_round r))).1
              ).keepalive_closes
            ≡ t.keepalive_closes)
          ⊎ Missed r t
              ((caught (and_then (and_then p (if_set b (on_packets r))) (rest_of_round r))).1)
    after_console (goes_on, u) (count, waits) =
        let (count', waits') = reads-Waits r b u in
        let w : u.waiting_on_keepalive ≡ t.waiting_on_keepalive =
          waits ∙ and_true t.waiting_on_keepalive in
        after_packets (if_set b (on_packets r) u)
          (count' ∙ count, waits' ∙ ap (λ x. x && not (b && answered r.packets)) w)
    after_console (breaks, u) (count, _) = inl count
    after_console (throws, u) (count, _) = inl count
    after_console (fatal, u) (count, _) = inl count
