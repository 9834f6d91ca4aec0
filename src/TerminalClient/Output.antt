-- ===== src/TerminalClient/Output.antt =====
-- What terminal/TerminalClient.cpp writes to the console.
use eternal_terminal.Common.{
  ℕ, ◌+◌, Bool, true, false, not, ◌&&◌, List, [], ◌∷◌, ◌++◌, ◌≡◌, refl, ap, sym, ◌∙◌, if◌then◌else◌,
  map, ltb, same, append_assoc, append-nil, Bool-cases, inl, inr, zero, suc, Option, none, some,
  take, is_empty,
}
use eternal_terminal.TerminalClient.{
  Sent, terminal_info, keep_alive, destination_request, forward_data, Got, port_forward, got_buffer,
  got_keep_alive, got_other, nothing, read_throws, FromConsole, bytes, ended, again, failed, Round,
  TerminalClient, Flow, goes_on, breaks, throws, fatal, send, keep, on_console, read_packets,
  write_console, show_all, check_keepalive, check_info, send_all, if_set, and_then, on_packets,
  rest_of_round, caught, round, run,
}

-- The terminal output in the packets up to the first one that is not there.
abbrev pub text_of : List Got → List ℕ
text_of [] = []
text_of (port_forward p ∷ packets) = text_of packets
text_of (got_buffer s ∷ packets) = s ++ text_of packets
text_of (got_keep_alive ∷ packets) = text_of packets
text_of (got_other n ∷ packets) = []
text_of (nothing ∷ packets) = []
text_of (read_throws ∷ packets) = []

-- What a write brings to the console: all, or a first part.
abbrev pub first_part : Option ℕ → List ℕ → List ℕ
first_part none s = s
first_part (some n) s = take n s

-- Whether the loop over them comes to its end: no exception and no unknown type.
abbrev pub is_clean : List Got → Bool
is_clean [] = true
is_clean (port_forward p ∷ packets) = is_clean packets
is_clean (got_buffer s ∷ packets) = is_clean packets
is_clean (got_keep_alive ∷ packets) = is_clean packets
is_clean (got_other n ∷ packets) = false
is_clean (nothing ∷ packets) = true
is_clean (read_throws ∷ packets) = false

abbrev pub is_going : Flow → Bool
is_going goes_on = true
is_going _ = false

-- The part of the round before the connection is read.
abbrev pub before_packets : Round → TerminalClient → Flow × TerminalClient
before_packets r t = if_set (t.has_console && r.console_ready) (on_console r.now r.from_console) t

-- The output that a round brings to the console.
abbrev pub shown_in : Round → TerminalClient → List ℕ
shown_in r t =
    if is_going ((before_packets r t).0)
      && (r.connected && r.connection_ready)
      && is_clean r.packets
    then first_part r.console_takes (text_of r.packets)
    else []

abbrev pub shown_all : List Round → TerminalClient → List ℕ
shown_all [] t = []
shown_all (r ∷ rounds) t =
    let rest = if is_going ((round r t).0) then shown_all rounds ((round r t).1) else [] in
    if t.shutting_down then [] else shown_in r t ++ rest

-- What the parts leave as it is, but for the console's output.
abbrev view : TerminalClient → Bool × List ℕ
view t = (t.has_console, t.shown)

on_console-view :
    (now : ℕ) (f : FromConsole) (t : TerminalClient) → view ((on_console now f t).1) ≡ view t
on_console-view now (bytes s) t = refl
on_console-view now ended t = refl
on_console-view now again t = refl
on_console-view now failed t = refl

before_packets-view : (r : Round) (t : TerminalClient) → view ((before_packets r t).1) ≡ view t
before_packets-view r t = read (t.has_console && r.console_ready)
  where
    read : (b : Bool) → view ((if_set b (on_console r.now r.from_console) t).1) ≡ view t
    read true = on_console-view r.now r.from_console t
    read false = refl

send_all-view : (now : ℕ) (ps : List Sent) (t : TerminalClient) → view (send_all now ps t) ≡ view t
send_all-view now [] t = refl
send_all-view now (p ∷ ps) t = send_all-view now ps (keep now (send p t))

check_keepalive-view : (r : Round) (t : TerminalClient) → view (check_keepalive r t) ≡ view t
check_keepalive-view r t = looks r.connected (ltb t.keepalive_time r.now) t.waiting_on_keepalive
  where
    looks :
        (connected due waiting : Bool)
        → view (
            if connected
            then (if due
                then (if waiting
                    then record (keep r.now t) {
                      keepalive_closes = 1 + t.keepalive_closes;
                      waiting_on_keepalive = false;
                    }
                    else record (send keep_alive (keep r.now t)) { waiting_on_keepalive = true })
                else t)
            else record t { waiting_on_keepalive = false })
          ≡ view t
    looks true true true = refl
    looks true true false = refl
    looks true false waiting = refl
    looks false due waiting = refl

check_info-view : (r : Round) (t : TerminalClient) → view (check_info r t) ≡ view t
check_info-view r t = looks (t.has_console && not (same r.info t.last_terminal_info))
  where
    looks :
        (b : Bool)
        → view (
            if b then send (terminal_info r.info) (record t { last_terminal_info = r.info }) else t)
          ≡ view t
    looks true = refl
    looks false = refl

rest_of_round-view : (r : Round) (t : TerminalClient) → view ((rest_of_round r t).1) ≡ view t
rest_of_round-view r t =
    send_all-view r.now (map forward_data r.data_to_send)
      (send_all r.now (map destination_request r.requests) (check_info r (check_keepalive r t)))
    ∙ send_all-view r.now (map destination_request r.requests) (check_info r (check_keepalive r t))
    ∙ check_info-view r (check_keepalive r t)
    ∙ check_keepalive-view r t

-- The loop over the packets collects the text, if it comes to its end, and shows nothing yet.
read_packets-view :
    (now : ℕ) (packets : List Got) (c : List ℕ) (t : TerminalClient)
    → view ((read_packets now packets c t).2) ≡ view t
unfolding read_packets
read_packets-view now [] c t = refl
read_packets-view now (port_forward p ∷ packets) c t =
    read_packets-view now packets c (record (keep now t) { forwarded = t.forwarded ++ p ∷ [] })
read_packets-view now (got_buffer s ∷ packets) c t =
    either t.has_console (read_packets-view now packets (c ++ s) (keep now t))
      (read_packets-view now packets c t)
  where
    either :
        (b : Bool)
        → view ((read_packets now packets (c ++ s) (keep now t)).2) ≡ view t
        → view ((read_packets now packets c t).2) ≡ view t
        → view (
            (if b
              then read_packets now packets (c ++ s) (keep now t)
              else read_packets now packets c t).2)
          ≡ view t
    either true x y = x
    either false x y = y
read_packets-view now (got_keep_alive ∷ packets) c t =
    read_packets-view now packets c (record t { waiting_on_keepalive = false })
read_packets-view now (got_other n ∷ packets) c t = refl
read_packets-view now (nothing ∷ packets) c t = refl
read_packets-view now (read_throws ∷ packets) c t = refl

read_packets-text :
    (now : ℕ) (packets : List Got) (c : List ℕ) (t : TerminalClient)
    → t.has_console ≡ true
    → is_clean packets ≡ true
    → ((read_packets now packets c t).0 ≡ goes_on)
      × ((read_packets now packets c t).1 ≡ c ++ text_of packets)
unfolding read_packets
read_packets-text now [] c t h clean = (refl, sym (append-nil c))
read_packets-text now (port_forward p ∷ packets) c t h clean =
    read_packets-text now packets c (record (keep now t) { forwarded = t.forwarded ++ p ∷ [] }) h
      clean
read_packets-text now (got_buffer s ∷ packets) c t h clean =
    either t.has_console h (read_packets-text now packets (c ++ s) (keep now t) h clean)
  where
    either :
        (b : Bool)
        → b ≡ true
        → (((read_packets now packets (c ++ s) (keep now t)).0 ≡ goes_on)
            × ((read_packets now packets (c ++ s) (keep now t)).1 ≡ c ++ s ++ text_of packets))
        → let p : Flow × List ℕ × TerminalClient =
            if b
            then read_packets now packets (c ++ s) (keep now t)
            else read_packets now packets c t in
          (p.0 ≡ goes_on) × (p.1 ≡ c ++ (s ++ text_of packets))
    either true e (flow, text) = (flow, text ∙ append_assoc c s (text_of packets))
    either false e rest = absurd cc
read_packets-text now (got_keep_alive ∷ packets) c t h clean =
    read_packets-text now packets c (record t { waiting_on_keepalive = false }) h clean
read_packets-text now (got_other n ∷ packets) c t h clean = absurd cc
read_packets-text now (nothing ∷ packets) c t h clean = (refl, sym (append-nil c))
read_packets-text now (read_throws ∷ packets) c t h clean = absurd cc

read_packets-unclean :
    (now : ℕ) (packets : List Got) (c : List ℕ) (t : TerminalClient)
    → is_clean packets ≡ false
    → is_going ((read_packets now packets c t).0) ≡ false
unfolding read_packets
read_packets-unclean now [] c t clean = absurd cc
read_packets-unclean now (port_forward p ∷ packets) c t clean =
    read_packets-unclean now packets c (record (keep now t) { forwarded = t.forwarded ++ p ∷ [] })
      clean
read_packets-unclean now (got_buffer s ∷ packets) c t clean =
    either t.has_console (read_packets-unclean now packets (c ++ s) (keep now t) clean)
      (read_packets-unclean now packets c t clean)
  where
    either :
        (b : Bool)
        → is_going ((read_packets now packets (c ++ s) (keep now t)).0) ≡ false
        → is_going ((read_packets now packets c t).0) ≡ false
        → is_going (
            (if b
              then read_packets now packets (c ++ s) (keep now t)
              else read_packets now packets c t).0)
          ≡ false
    either true x y = x
    either false x y = y
read_packets-unclean now (got_keep_alive ∷ packets) c t clean =
    read_packets-unclean now packets c (record t { waiting_on_keepalive = false }) clean
read_packets-unclean now (got_other n ∷ packets) c t clean = refl
read_packets-unclean now (nothing ∷ packets) c t clean = absurd cc
read_packets-unclean now (read_throws ∷ packets) c t clean = refl

first_part-nil : (takes : Option ℕ) → first_part takes [] ≡ []
first_part-nil none = refl
first_part-nil (some zero) = refl
first_part-nil (some (suc n)) = refl

show_all-going :
    (takes : Option ℕ) (p : Flow × List ℕ × TerminalClient)
    → p.0 ≡ goes_on
    → (p.2).has_console ≡ true
    → view ((show_all takes p).1) ≡ (true, (p.2).shown ++ first_part takes p.1)
show_all-going takes (goes_on, c, t) e h = shows t.has_console h c
  where
    written :
        (k : Option ℕ) (s : List ℕ)
        → view ((write_console k s t).1) ≡ (true, t.shown ++ first_part k s)
    written none s = ap (λ x. (x, t.shown ++ s)) h
    written (some n) s = ap (λ x. (x, t.shown ++ take n s)) h

    shows :
        (b : Bool)
        → b ≡ true
        → (s : List ℕ)
        → view ((if b && not (is_empty s) then write_console takes s t else (goes_on, t)).1)
          ≡ (true, t.shown ++ first_part takes s)
    shows true e [] =
        ap (λ x. (x, t.shown)) h
        ∙ ap (λ x. (true, x))
            (sym (append-nil t.shown) ∙ ap (t.shown ++◌) (sym (first_part-nil takes)))
    shows true e (x ∷ s) = written takes (x ∷ s)
    shows false e s = absurd cc
show_all-going takes (breaks, c, t) e h = absurd cc
show_all-going takes (throws, c, t) e h = absurd cc
show_all-going takes (fatal, c, t) e h = absurd cc

show_all-still :
    (takes : Option ℕ) (p : Flow × List ℕ × TerminalClient)
    → is_going (p.0) ≡ false
    → (show_all takes p).1 ≡ p.2
show_all-still takes (goes_on, c, t) e = absurd cc
show_all-still takes (breaks, c, t) e = refl
show_all-still takes (throws, c, t) e = refl
show_all-still takes (fatal, c, t) e = refl

on_packets-view :
    (r : Round) (t : TerminalClient)
    → t.has_console ≡ true
    → view ((on_packets r t).1) ≡ (
      true,
      t.shown
          ++ (if is_clean r.packets then first_part r.console_takes (text_of r.packets) else []),
    )
on_packets-view r t h =
    let v = read_packets-view r.now r.packets [] t in
    elim (Bool-cases (is_clean r.packets)) [
      | inl e ↦
          let (flow, text) = read_packets-text r.now r.packets [] t h e in
          rw e (
            show_all-going r.console_takes (read_packets r.now r.packets [] t) flow
              (ap (λ x. x.0) v ∙ h)
            ∙ ap (λ x. (true, x))
                (ap (λ l. l ++ first_part r.console_takes ((read_packets r.now r.packets [] t).1))
                    (ap (λ x. x.1) v)
                  ∙ ap (λ l. t.shown ++ first_part r.console_takes l) text))
      | inr e ↦ rw e (
          ap view (
            show_all-still r.console_takes (read_packets r.now r.packets [] t)
              (read_packets-unclean r.now r.packets [] t e))
          ∙ v
          ∙ cc (h, append-nil t.shown))
    ]

before_rest-view :
    (r : Round) (b : Bool) (p : Flow × TerminalClient)
    → (p.1).has_console ≡ true
    → view ((and_then p (if_set b (on_packets r))).1) ≡ (
      true,
      (p.1).shown
          ++ (if is_going (p.0) && b && is_clean r.packets
              then first_part r.console_takes (text_of r.packets)
              else []),
    )
before_rest-view r true (goes_on, t) h = on_packets-view r t h
before_rest-view r false (goes_on, t) h = cc (h, append-nil t.shown)
before_rest-view r b (breaks, t) h = cc (h, append-nil t.shown)
before_rest-view r b (throws, t) h = cc (h, append-nil t.shown)
before_rest-view r b (fatal, t) h = cc (h, append-nil t.shown)

end-view :
    (r : Round) (p : Flow × TerminalClient)
    → view ((caught (and_then p (rest_of_round r))).1) ≡ view (p.1)
end-view r (goes_on, t) = rest_of_round-view r t
end-view r (breaks, t) = refl
end-view r (throws, t) = refl
end-view r (fatal, t) = refl

round-view :
    (r : Round) (t : TerminalClient)
    → t.has_console ≡ true
    → view ((round r t).1) ≡ (true, t.shown ++ shown_in r t)
unfolding round
round-view r t h =
    let v = before_packets-view r t in
    let p = before_packets r t in
    let b = r.connected && r.connection_ready in
    end-view r (and_then p (if_set b (on_packets r)))
    ∙ before_rest-view r b p (ap (λ x. x.0) v ∙ h)
    ∙ ap (λ x. (true, x ++ shown_in r t)) (ap (λ x. x.1) v)

-- A client with a console, in any number of rounds, whatever comes from the connection, the console
-- and the port forwarding: the bytes that the console gets are, in order, the terminal output in
-- the packets of the rounds, of each round all of it or, when the write to the console fails, the
-- first part that it takes. A round shows nothing when the console ends it first, and nothing when
-- an exception or an unknown packet comes among its packets.
pub run-shown :
    (rounds : List Round) (t : TerminalClient)
    → t.has_console ≡ true
    → ((run rounds t).1).shown ≡ t.shown ++ shown_all rounds t
unfolding run
run-shown [] t h = sym (append-nil t.shown)
run-shown (r ∷ rounds) t h =
    let v = round-view r t h in
    looks t.shutting_down (round r t) refl (run-shown rounds ((round r t).1) (ap (λ x. x.0) v))
      (ap (λ x. x.1) v)
  where
    last_round : (l : List ℕ) → l ≡ t.shown ++ shown_in r t → l ≡ t.shown ++ (shown_in r t ++ [])
    last_round l e = e ∙ ap (λ x. t.shown ++ x) (sym (append-nil (shown_in r t)))

    looks :
        (b : Bool) (p : Flow × TerminalClient)
        → p ≡ round r t
        → ((run rounds (p.1)).1).shown ≡ (p.1).shown ++ shown_all rounds (p.1)
        → (p.1).shown ≡ t.shown ++ shown_in r t
        → ((if b then (breaks, t) else and_then p (run rounds)).1).shown
          ≡ t.shown
            ++ (if b
                then []
                else shown_in r t ++ (if is_going (p.0) then shown_all rounds (p.1) else []))
    looks true p e rest here = sym (append-nil t.shown)
    looks false (goes_on, u) e rest here =
        rest
        ∙ ap (λ l. l ++ shown_all rounds u) here
        ∙ append_assoc t.shown (shown_in r t) (shown_all rounds u)
    looks false (breaks, u) e rest here = last_round u.shown here
    looks false (throws, u) e rest here = last_round u.shown here
    looks false (fatal, u) e rest here = last_round u.shown here
