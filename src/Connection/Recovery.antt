-- ===== src/Connection/Recovery.antt =====
-- What `Connection::recover` leaves behind, and the answers of an exchange that goes through.
use eternal_terminal.Common.{
  ℕ, ◌≡◌, refl, Bool, true, false, Option, none, some, List, Outcome, ok, throws, fatal, waiting,
  runtime_error, out_of_range, length_error, ℤ,
}
use eternal_terminal.Net.{Net, close}
use eternal_terminal.Reader.{Reader}
use eternal_terminal.Reader
use eternal_terminal.Writer.{Writer}
use eternal_terminal.Writer
use eternal_terminal.Connection.{
  Connection, Exchange, Call, connection_recover, recover_at, exchange_headers, send_catchup,
  finish_recover, recover_failed,
}

-- Everything on the new socket: the messages of the other end in the reader's local buffer, the
-- backup handed over from the number that the other end sent.
pub record Moved (fd : ℕ) (x : Exchange) (c : Connection) (net : Net) (out : Connection × Net)
    : Type 0 where
  pub old_reader : Reader
  pub old_writer : Writer
  pub number : ℤ
  pub messages : List (List ℕ)
  pub entries : List (List ℕ)
  pub reads : c.reader ≡ some old_reader
  pub writes : c.writer ≡ some old_writer
  pub asks : x.remote_header ≡ some number
  pub hands_over : Writer.recover old_writer number ≡ ok messages
  pub brings : x.remote_catchup ≡ some entries
  pub result : out ≡ (
    record c {
      socket_fd = some fd;
      reader = some (Reader.revive fd entries old_reader);
      writer = some (Writer.revive fd old_writer);
    },
    net,
  )

-- Either all of it moves to the new socket, or nothing has changed; the new socket is closed
-- unless an exception or an abort goes past the handler.
unfoldable pub Recovered : ℕ → Exchange → Connection → Net → Call Bool → Type 0
Recovered fd x c net (ok true, out) = Moved fd x c net out
Recovered fd x c net (ok false, out) = out ≡ (c, close fd net)
Recovered fd x c net (throws e, out) = out ≡ (c, net)
Recovered fd x c net (fatal, out) = out ≡ (c, net)
Recovered fd x c net (waiting, out) = out ≡ (c, net)

abbrev exchange_of : Bool → Option ℤ → Bool → Option (List (List ℕ)) → Exchange
exchange_of a number b entries = record {
  sends_header = a;
  remote_header = number;
  sends_catchup = b;
  remote_catchup = entries;
}

catchup-Recovered :
    (fd : ℕ) (a : Bool) (n : ℤ) (sends : Bool) (entries : Option (List (List ℕ))) (c : Connection)
    (net : Net) (r : Reader) (w : Writer) (out : Outcome (List (List ℕ)))
    → c.reader ≡ some r
    → c.writer ≡ some w
    → Writer.recover w n ≡ out
    → Recovered fd
        (exchange_of a (some n) sends entries)
        c
        net
        (send_catchup fd (exchange_of a (some n) sends entries) out r w c net)
unfolding Recovered send_catchup finish_recover recover_failed
catchup-Recovered fd a n false entries c net r w (ok messages) hr hw hm = refl
catchup-Recovered fd a n true none c net r w (ok messages) hr hw hm = refl
catchup-Recovered fd a n true (some entries) c net r w (ok messages) hr hw hm = record {
  old_reader = r;
  old_writer = w;
  number = n;
  messages = messages;
  entries = entries;
  reads = hr;
  writes = hw;
  asks = refl;
  hands_over = hm;
  brings = refl;
  result = refl;
}
catchup-Recovered fd a n sends entries c net r w (throws runtime_error) hr hw hm = refl
catchup-Recovered fd a n sends entries c net r w (throws out_of_range) hr hw hm = refl
catchup-Recovered fd a n sends entries c net r w (throws length_error) hr hw hm = refl
catchup-Recovered fd a n sends entries c net r w fatal hr hw hm = refl
catchup-Recovered fd a n sends entries c net r w waiting hr hw hm = refl

header-Recovered :
    (fd : ℕ) (a : Bool) (number : Option ℤ) (sends : Bool) (entries : Option (List (List ℕ)))
    (c : Connection) (net : Net) (r : Reader) (w : Writer)
    → c.reader ≡ some r
    → c.writer ≡ some w
    → Recovered fd
        (exchange_of a number sends entries)
        c
        net
        (exchange_headers fd (exchange_of a number sends entries) r w c net)
unfolding exchange_headers recover_failed Recovered
header-Recovered fd false number sends entries c net r w hr hw = refl
header-Recovered fd true none sends entries c net r w hr hw = refl
header-Recovered fd true (some n) sends entries c net r w hr hw =
    catchup-Recovered fd true n sends entries c net r w (Writer.recover w n) hr hw refl

at-Recovered :
    (fd : ℕ) (x : Exchange) (c : Connection) (net : Net) (reader : Option Reader)
    (writer : Option Writer)
    → c.reader ≡ reader
    → c.writer ≡ writer
    → Recovered fd x c net (recover_at fd x reader writer c net)
unfolding recover_at Recovered
at-Recovered fd x c net (some r) (some w) hr hw =
    header-Recovered fd x.sends_header x.remote_header x.sends_catchup x.remote_catchup c net r w hr
      hw
at-Recovered fd x c net none none hr hw = refl
at-Recovered fd x c net none (some w) hr hw = refl
at-Recovered fd x c net (some r) none hr hw = refl

-- `recover` moves all of a connection to the new socket, or changes nothing of it and, when it
-- returns false, closes the new socket.
pub recover-Recovered :
    (fd : ℕ) (x : Exchange) (c : Connection) (net : Net)
    → Recovered fd x c net (connection_recover fd x c net)
unfolding connection_recover
recover-Recovered fd x c net = at-Recovered fd x c net c.reader c.writer refl refl

-- What an end receives when nothing fails at either.
abbrev pub answers : ℤ → List (List ℕ) → Exchange
answers number entries = record {
  sends_header = true;
  remote_header = some number;
  sends_catchup = true;
  remote_catchup = some entries;
}
