-- ===== src/Examples/Multiplexer.antt =====
-- The multiplexer with sizes as fractions: tests, and the theorems at inputs that meet their
-- hypotheses.
use eternal_terminal.Common.{
  ℕ, ◌*◌, ◌≡◌, ◌≢◌, refl, true, false, none, some, List, [], ◌∷◌, find, map, same,
}
use eternal_terminal.Terminal.{started}
use eternal_terminal.Htm.{
  Uuid, Floats, Pane, MultiplexerState, Result, ok, fatal, new_tab, id_in_use, listed,
}
use eternal_terminal.Htm.Splitting.{new_split}
use eternal_terminal.Htm.Closing.{close_pane}
use eternal_terminal.Htm.WellFormed.{WellFormed}
use eternal_terminal.Htm.Turned.{new_split-ok}
use eternal_terminal.Htm.CloseSteps.{Closes, close_pane-Closes}
use eternal_terminal.HtmServer.{Round, HtmServer, event, make_split, initial, step}
use eternal_terminal.HtmServer.Reached.{
  Reached, made, first, StaysUp, Reached-WellFormed, step-Reached,
}

-- A numerator and a denominator.
abbrev Size : Type 0
Size = ℕ × ℕ

abbrev fractions : Floats Size
fractions = record {
  half = (1, 2);
  halve = λ x. (x.0, x.1 * 2);
  scale = λ m n x. (x.0 * m, x.1 * n);
}

abbrev the_tab : Uuid
the_tab = 1 ∷ []

abbrev pane_a : Uuid
pane_a = 2 ∷ []

abbrev pane_b : Uuid
pane_b = 3 ∷ []

abbrev pane_c : Uuid
pane_c = 4 ∷ []

abbrev split_1 : Uuid
split_1 = 5 ∷ []

abbrev split_2 : Uuid
split_2 = 6 ∷ []

abbrev fresh : MultiplexerState Size
fresh = initial the_tab pane_a

abbrev then :
    Result (MultiplexerState Size)
    → (MultiplexerState Size → Result (MultiplexerState Size))
    → Result (MultiplexerState Size)
then (ok s) f = f s
then r f = r

-- The first pane beside a split of the two others: closing it ends the process.
close_beside_split :
    then (new_split fractions split_1 pane_a pane_b true fresh) (λ s.
      then (new_split fractions split_2 pane_b pane_c false s) (λ t. close_pane fractions pane_a t))
    ≡ fatal
unfolding initial new_split close_pane started id_in_use
close_beside_split = refl

-- A tab split in three and closed to two: the sizes are 3/8 each, not 1 in all.
abbrev sizes_of : Uuid → Result (MultiplexerState Size) → List Size
sizes_of id (ok s) = elim (find id s.splits) [ none ↦ [] | some sp ↦ sp.sizes ]
sizes_of id r = []

sizes_left :
    sizes_of split_1 (
      then (new_split fractions split_1 pane_a pane_b true fresh) (λ s.
        then
          (new_split fractions split_2 pane_a pane_c true s)
          (λ t. close_pane fractions pane_c t)))
    ≡ (3, 8) ∷ (3, 8) ∷ []
unfolding initial new_split close_pane started id_in_use
sizes_left = refl

-- A pane that gets the id of a closed one is not closed any more.
abbrev panes_of : Result (MultiplexerState Size) → List Uuid
panes_of (ok s) = map (λ e. e.0) s.panes
panes_of r = []

closed_id_again :
    panes_of (
      then
        (close_pane fractions pane_a fresh)
        (λ s. then (new_tab the_tab pane_a s) (λ t. close_pane fractions pane_a t)))
    ≡ pane_a ∷ []
unfolding initial new_tab close_pane started id_in_use
closed_id_again = refl

abbrev server : HtmServer Size
server = first the_tab pane_a true

the_tab_named : the_tab ≢ []
the_tab_named = cc

server-Reached : Reached fractions server
server-Reached = made the_tab pane_a true the_tab_named

split_1_new : (split_1 ≢ []) × (id_in_use split_1 fresh ≡ false) × (same split_1 pane_b ≡ false)
unfolding initial id_in_use
split_1_new = (cc, refl, refl)

abbrev splits_now : Round
splits_now = event (some (make_split pane_a pane_b true)) (λ id. []) (λ id. true)

step-Reached_example : StaysUp (step fractions split_1 splits_now server)
step-Reached_example = step-Reached fractions split_1 splits_now server server-Reached split_1_new

abbrev first_pane : Pane
first_pane = record { id = pane_a; parent_id = the_tab; terminal = started }

first_found : find pane_a fresh.panes ≡ some first_pane
unfolding initial
first_found = refl

none_closed : listed pane_a fresh.closed ≡ false
unfolding initial
none_closed = refl

pane_b_free : id_in_use pane_b fresh ≡ false
unfolding initial id_in_use
pane_b_free = refl

fresh-WellFormed : WellFormed fresh
fresh-WellFormed = Reached-WellFormed fractions server server-Reached

close_pane-Closes_example : Closes fresh pane_a first_pane (close_pane fractions pane_a fresh)
close_pane-Closes_example =
    close_pane-Closes fractions fresh pane_a first_pane fresh-WellFormed first_found none_closed

new_split-ok_example :
    (done : MultiplexerState Size) × (new_split fractions split_1 pane_a pane_b true fresh
      ≡ ok done)
    × WellFormed done
new_split-ok_example =
    new_split-ok fractions true fresh fresh-WellFormed pane_a pane_b split_1 first_pane first_found
      pane_b_free (split_1_new.1) (split_1_new.2) (split_1_new.0)
