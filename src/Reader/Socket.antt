-- ===== src/Reader/Socket.antt =====
-- No read of src/base/BackedReader.cpp changes the reader's socket or what the recovery brought,
-- but for the message that it takes.
use eternal_terminal.Common.{ℕ, ◌≡◌, refl, List, [], ◌∷◌, arith, take, drop, ◌++◌}
use eternal_terminal.Net.{Net, Recv, bytes, recv_failed, leave}
use eternal_terminal.Crypto.{Secretbox}
use eternal_terminal.Reader.{
  Reader, construct_partial_message, partial_message_length, read_body, read_message, read_header,
  read_socket, read_local, read_from, read,
}

module _ (box : Secretbox) where
  socket-construct :
      (r : Reader) (net : Net) → (construct_partial_message box r net).1.0.socket_fd ≡ r.socket_fd
  unfolding construct_partial_message partial_message_length
  socket-construct r net = ground arith

  socket-body :
      (n : ℕ) (r : Reader) (net : Net) (reads : List Recv)
      → (read_body box n r net reads).1.0.socket_fd ≡ r.socket_fd
  unfolding read_body
  socket-body n r net [] = refl
  socket-body n r net (recv_failed e ∷ reads) = refl
  socket-body n r net (bytes [] ∷ reads) = refl
  socket-body n r net (bytes (b ∷ bs) ∷ reads) = ground (
    arith,
    socket-construct (record r { partial_message = r.partial_message ++ take n (b ∷ bs) })
        (record net { reads = leave (drop n (b ∷ bs)) reads }),
  )

  socket-message : (r : Reader) (net : Net) → (read_message box r net).1.0.socket_fd ≡ r.socket_fd
  unfolding read_message partial_message_length
  socket-message r net = grind (arith, socket-construct, socket-body)

  socket-header :
      (r : Reader) (net : Net) (reads : List Recv)
      → (read_header box r net reads).1.0.socket_fd ≡ r.socket_fd
  unfolding read_header
  socket-header r net [] = refl
  socket-header r net (recv_failed e ∷ reads) = refl
  socket-header r net (bytes [] ∷ reads) = refl
  socket-header r net (bytes (b ∷ bs) ∷ reads) = socket-message _ _

  socket-socket : (r : Reader) (net : Net) → (read_socket box r net).1.0.socket_fd ≡ r.socket_fd
  unfolding read_socket
  socket-socket r net = ground (arith, socket-header r net net.reads, socket-message r net)

  socket-local :
      (s : List ℕ) (rest : List (List ℕ)) (r : Reader) (net : Net)
      → (read_local box s rest r net).1.0.socket_fd ≡ r.socket_fd
  unfolding read_local
  socket-local s rest r net = ground arith

  socket-from :
      (l : List (List ℕ)) (r : Reader) (net : Net)
      → (read_from box l r net).1.0.socket_fd ≡ r.socket_fd
  socket-from [] r net = socket-socket r net
  socket-from (s ∷ rest) r net = socket-local s rest r net

  pub socket-read : (r : Reader) (net : Net) → (read box r net).1.0.socket_fd ≡ r.socket_fd
  unfolding read
  socket-read r net = ground (arith, socket-from r.local_buffer r net)
