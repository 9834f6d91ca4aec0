-- ===== src/Net.antt =====
-- The socket as the code sees it (src/base/SocketHandler.hpp, read and write): each call meets
-- the next entry of a script, and what the kernel accepts is appended to `wire`.
use eternal_terminal.Common.{ℕ, ◌≡◌, refl, List, [], ◌∷◌, ◌++◌}

-- What comes in on a socket: a burst of bytes, of which one `read` returns as many as it asked
-- for and leaves the rest; or a failure with its errno. An empty burst is the end of the stream.
pub data Recv : Type 0 where
  bytes : List ℕ → Recv
  recv_failed : ℕ → Recv

-- What `write` meets: room for so many bytes, or a failure with its errno.
pub data Send : Type 0 where
  accepted : ℕ → Send
  send_failed : ℕ → Send

-- The rest of a burst comes before what is still to arrive.
abbrev pub leave : List ℕ → List Recv → List Recv
leave [] reads = reads
leave (b ∷ bs) reads = bytes (b ∷ bs) ∷ reads

-- All the bytes that a script brings.
abbrev pub arrivals : List Recv → List ℕ
arrivals [] = []
arrivals (bytes bs ∷ reads) = bs ++ arrivals reads
arrivals (recv_failed e ∷ reads) = arrivals reads

pub arrivals-leave :
    (bs : List ℕ) (reads : List Recv) → arrivals (leave bs reads) ≡ bs ++ arrivals reads
arrivals-leave [] reads = refl
arrivals-leave (b ∷ bs) reads = refl

pub record Net : Type 0 where
  pub reads : List Recv
  pub sends : List Send
  pub wire : List ℕ
  pub errno : ℕ
  pub closed : List ℕ

abbrev pub epipe : ℕ
epipe = 32

abbrev pub quiet : Net
quiet = record { reads = []; sends = []; wire = []; errno = 0; closed = [] }

-- `socketHandler->close(fd)`
abbrev pub close : ℕ → Net → Net
close fd net = record net { closed = fd ∷ net.closed }
