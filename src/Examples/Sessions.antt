-- ===== src/Examples/Sessions.antt =====
-- A session that writes, loses its connection, and recovers.
use eternal_terminal.Net.{Net, Recv, accepted, arrivals, quiet, bytes}
use eternal_terminal.Packet.Sealed.{seal}
use eternal_terminal.Common.{
  ℕ, ◌+◌, ◌≡◌, ◌≢◌, refl, false, List, [], ◌∷◌, ◌++◌, length, arith, Outcome, ok, fatal, throws,
  Error, encode_be32, take, drop, decode_be32, to_int32,
}
use eternal_terminal.Crypto
use eternal_terminal.Crypto.Nonce.{increment_nonce, initial_nonce}
use eternal_terminal.Packet.{Packet, packet_length, serialize, deserialize}
use eternal_terminal.Packet
use eternal_terminal.Writer.{
  Writer, WriteState, success, write, would_skip, transmit, backup, trim, send_loop, writer,
  recover, recover_messages, collect,
}
use eternal_terminal.Writer
use eternal_terminal.Reader.{
  Reader, ReadResult, message, read, reader, nothing, read_socket, read_header, read_message,
  read_body, read_local, construct_partial_message, partial_message_length, message_remainder,
  unpack,
}
use eternal_terminal.Session.{
  Session, start, Reach, here, next, writes, loses, closes_writer, both, after_write, after_recover,
  exchange, reads, after_read,
}
use eternal_terminal.Session.Steps.{Fits}
use eternal_terminal.Session.Delivery.{
  delivered-prefix-written, read_safe, recover_then_drain, linked_complete, exchange_covers, drain,
}
use eternal_terminal.Examples.Box.{toy, toy-IsSecretbox, handler, hello}

abbrev begun : Session
begun = start handler 3 4

abbrev sent : Outcome WriteState × (Writer × Net)
sent = write toy hello begun.writer (record quiet { sends = accepted 9 ∷ accepted 100 ∷ [] })

abbrev wrote : Session
wrote = after_write success hello sent.1.0 sent.1.1.wire begun

wrote-Reach : Reach toy begun wrote
unfolding write would_skip transmit backup trim send_loop writer reader serialize packet_length
    Packet.encrypt Crypto.encrypt increment_nonce initial_nonce encode_be32
wrote-Reach =
    next here (writes begun hello (accepted 9 ∷ accepted 100 ∷ []) success sent.1.0 sent.1.1 refl)

wrote-Fits : Fits wrote.written
unfolding packet_length
wrote-Fits = record { frameable = (refl, omega arith, tt); few = omega arith }

-- The reader takes the packet in two reads: a piece of the header, then the rest.
abbrev bursts : List Recv
bursts = bytes (take 2 wrote.wire) ∷ bytes (drop 2 wrote.wire) ∷ []

abbrev first_read : Outcome ReadResult × (Reader × Net)
first_read = read toy wrote.reader (record quiet { reads = bursts })

abbrev started : Session
started = after_read nothing first_read.1.0 (arrivals first_read.1.1.reads ++ []) wrote

abbrev second_read : Outcome ReadResult × (Reader × Net)
second_read = read toy started.reader (record quiet { reads = first_read.1.1.reads })

abbrev heard : Session
heard = after_read (message hello) second_read.1.0 (arrivals second_read.1.1.reads ++ []) started

heard-Reach : Reach toy begun heard
unfolding write would_skip transmit backup trim send_loop writer reader serialize packet_length
    Packet.encrypt Crypto.encrypt increment_nonce initial_nonce encode_be32 read read_socket
    read_header read_message read_body read_local construct_partial_message partial_message_length
    message_remainder unpack deserialize decode_be32 Packet.decrypt Crypto.decrypt
heard-Reach =
    next (next wrote-Reach (reads wrote bursts [] nothing first_read.1.0 first_read.1.1 refl refl))
      (reads started first_read.1.1.reads [] (message hello) second_read.1.0 second_read.1.1 refl
        refl)

linked_complete_example : heard.delivered ≡ heard.written
unfolding write would_skip transmit backup trim send_loop writer reader serialize packet_length
    Packet.encrypt Crypto.encrypt increment_nonce initial_nonce encode_be32 read read_socket
    read_header read_message read_body read_local construct_partial_message partial_message_length
    message_remainder unpack deserialize decode_be32 Packet.decrypt Crypto.decrypt
linked_complete_example =
    linked_complete toy toy-IsSecretbox handler 3 4 heard-Reach wrote-Fits refl refl refl

-- The network loses all but five bytes of the packet, and the writer closes its socket.
abbrev lost : Session
lost = record wrote { wire = take 5 wrote.wire; linked = false }

abbrev broken : Session
broken = record lost { writer = Writer.invalidate_socket lost.writer }

broken-Reach : Reach toy begun broken
unfolding write would_skip transmit backup trim send_loop writer reader serialize packet_length
    Packet.encrypt Crypto.encrypt increment_nonce initial_nonce encode_be32 Writer.invalidate_socket
broken-Reach =
    next (next wrote-Reach (loses wrote (take 5 wrote.wire) (drop 5 wrote.wire) refl))
      (closes_writer lost)

delivered-prefix-written_example :
    (rest : List Packet) × (broken.written ≡ broken.delivered ++ rest)
delivered-prefix-written_example =
    delivered-prefix-written toy toy-IsSecretbox handler 3 4 broken-Reach wrote-Fits

read_safe_example :
    ((read toy broken.reader (record quiet { reads = bytes broken.wire ∷ [] })).0 ≢ fatal)
    × ((e : Error)
        → (read toy broken.reader (record quiet { reads = bytes broken.wire ∷ [] })).0 ≢ throws e)
unfolding write would_skip transmit backup trim send_loop writer reader serialize packet_length
    Packet.encrypt Crypto.encrypt increment_nonce initial_nonce encode_be32
read_safe_example =
    read_safe toy toy-IsSecretbox handler 3 4 broken-Reach wrote-Fits (bytes broken.wire ∷ []) []
      refl

abbrev messages : List (List ℕ)
messages = serialize (seal toy handler.key handler.nonce hello) ∷ []

recover_then_drain_example :
    (drain toy
      (length (after_recover both 5 6 messages broken).reader.local_buffer)
      (after_recover both 5 6 messages broken)).delivered
    ≡ broken.written
unfolding write would_skip transmit backup trim send_loop writer reader serialize packet_length
    Packet.encrypt Crypto.encrypt increment_nonce initial_nonce encode_be32 Writer.invalidate_socket
    recover recover_messages collect to_int32
recover_then_drain_example =
    recover_then_drain toy toy-IsSecretbox handler 3 4 broken-Reach wrote-Fits both 5 6 messages
      refl (λ e. cc)

exchange_covers_example :
    (messages : List (List ℕ)) × (exchange broken ≡ ok messages)
    × (broken.reader.sequence_number + length messages ≡ length broken.written)
unfolding write would_skip transmit backup trim send_loop writer reader serialize packet_length
    Packet.encrypt Crypto.encrypt increment_nonce initial_nonce encode_be32 Writer.invalidate_socket
exchange_covers_example =
    exchange_covers toy toy-IsSecretbox handler 3 4 broken-Reach wrote-Fits refl (omega arith)
