-- ===== src/Transfer.antt =====
-- src/base/SocketHandler.cpp and SocketHandler.hpp: transfers of a whole buffer, with their retries
-- and time limits, and the framing of protobuf messages over them.
pub mod Whole
pub mod Framing
pub mod Partial
pub mod Raw
use eternal_terminal.Common.{
  ℕ, zero, suc, ◌+◌, ◌*◌, ◌/◌, ◌%◌, Bool, true, false, not, ◌&&◌, ◌||◌, Option, none, some, List,
  [], ◌∷◌, ◌++◌, Outcome, ok, throws, fatal, waiting, runtime_error, ◌==◌, ltb, leb, if◌then◌else◌,
  length, take, drop, continue, ◌-◌,
}
use eternal_terminal.Connection.{eagain}

abbrev pub etimedout : ℕ
etimedout = 110

-- What an iteration of `readAll` meets: no data yet, and whether the time limit has passed; what
-- the kernel holds, nothing of it at the end of the stream; or a failure with its errno.
pub data Incoming : Type 0 where
  not_ready : Bool → Incoming
  holds : List ℕ → Incoming
  read_fails : ℕ → Incoming

-- The kernel keeps what a read left.
abbrev pub keep : List ℕ → List Incoming → List Incoming
keep [] script = script
keep (b ∷ bs) script = holds (b ∷ bs) ∷ script

unfoldable pub read_all : Bool → ℕ → List Incoming → Outcome (List ℕ) × List Incoming
read_all timeout zero script = (ok [], script)
read_all timeout (suc n) [] = (waiting, [])
read_all timeout (suc n) (not_ready past_limit ∷ script) =
    let rest = read_all timeout (suc n) script in
    if timeout && past_limit then (throws runtime_error, script) else rest
read_all timeout (suc n) (read_fails e ∷ script) =
    let rest = read_all timeout (suc n) script in
    if e == eagain then rest else (throws runtime_error, script)
read_all timeout (suc n) (holds [] ∷ script) = (throws runtime_error, script)
read_all timeout (suc n) (holds (b ∷ bs) ∷ script) =
    let rest = read_all timeout (suc n - length (b ∷ bs)) script in
    if leb (suc n) (length (b ∷ bs))
    then (ok (take (suc n) (b ∷ bs)), keep (drop (suc n) (b ∷ bs)) script)
    else (continue rest.0 rest.1 λ more. (ok ((b ∷ bs) ++ more), rest.1))

-- What an iteration of `writeAllOrThrow` meets: the time limit has passed since the last bytes
-- went out; room for so many bytes; or a failure with its errno.
pub data Outgoing : Type 0 where
  timed_out : Outgoing
  room : ℕ → Outgoing
  write_fails : ℕ → Outgoing

-- The bytes that went out, beside how the call ended.
unfoldable pub write_all_or_throw : Bool → List ℕ → List Outgoing → Outcome (Unit {0}) × List ℕ
write_all_or_throw timeout [] script = (ok tt, [])
write_all_or_throw timeout (b ∷ bs) [] = (waiting, [])
write_all_or_throw timeout (b ∷ bs) (timed_out ∷ script) =
    let rest = write_all_or_throw timeout (b ∷ bs) script in
    if timeout then (throws runtime_error, []) else rest
write_all_or_throw timeout (b ∷ bs) (write_fails e ∷ script) =
    let rest = write_all_or_throw timeout (b ∷ bs) script in
    if e == eagain || (not timeout && e == etimedout) then rest else (throws runtime_error, [])
write_all_or_throw timeout (b ∷ bs) (room zero ∷ script) = (throws runtime_error, [])
write_all_or_throw timeout (b ∷ bs) (room (suc n) ∷ script) =
    let rest = write_all_or_throw timeout (drop n bs) script in (rest.0, (b ∷ take n bs) ++ rest.1)

-- `writeAllOrReturn`: none for -1, and the count that it returns. The time limit always holds.
unfoldable pub write_all_or_return : ℕ → List ℕ → List Outgoing → Outcome (Option ℕ) × List ℕ
write_all_or_return count [] script = (ok (some count), [])
write_all_or_return count (b ∷ bs) [] = (waiting, [])
write_all_or_return count (b ∷ bs) (timed_out ∷ script) = (ok none, [])
write_all_or_return count (b ∷ bs) (write_fails e ∷ script) =
    let rest = write_all_or_return count (b ∷ bs) script in
    if e == eagain then rest else (ok none, [])
write_all_or_return count (b ∷ bs) (room zero ∷ script) = (ok (some 0), [])
write_all_or_return count (b ∷ bs) (room (suc n) ∷ script) =
    let rest = write_all_or_return count (drop n bs) script in (rest.0, (b ∷ take n bs) ++ rest.1)

-- An int64 as it lies in memory, the lowest byte first.
abbrev pub to_bytes : ℕ → ℕ → List ℕ
to_bytes zero n = []
to_bytes (suc k) n = (n % 256) ∷ to_bytes k (n / 256)

abbrev pub from_bytes : List ℕ → ℕ
from_bytes [] = 0
from_bytes (b ∷ bs) = b + 256 * from_bytes bs

abbrev pub max_message : ℕ
max_message = 128 * 1024 * 1024

-- `writeProto` of a serialized message: the length and the bytes, in two transfers.
unfoldable pub write_message :
    Bool → List ℕ → List Outgoing → List Outgoing → Outcome (Unit {0}) × List ℕ
write_message timeout s header_script script =
    if ltb max_message (length s)
    then (fatal, [])
    else let header = write_all_or_throw timeout (to_bytes 8 (length s)) header_script in
      let body = write_all_or_throw timeout s script in
      continue header.0 header.1 λ done. (body.0, header.1 ++ body.1)

-- What `readProto` reads before it parses. A negative length has its top bit set, so it is
-- larger than the limit as well.
unfoldable pub read_message : Bool → List Incoming → Outcome (List ℕ) × List Incoming
read_message timeout script =
    let (header, rest) = read_all timeout 8 script in
    continue header rest λ bytes.
      if ltb max_message (from_bytes bytes)
      then (throws runtime_error, rest)
      else read_all timeout (from_bytes bytes) rest
