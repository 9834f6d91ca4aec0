-- ===== src/Lib.antt =====
-- Eternal Terminal: the transport that keeps a remote shell alive over broken connections.
--
-- A session has a client and a server. Each end has a Connection (src/base/Connection.cpp), which
-- owns a BackedReader and a BackedWriter on one socket. A writer numbers and encrypts its packets
-- and keeps a backup of them; a reader counts the packets that it takes. When the socket is lost, the
-- client reconnects, both ends exchange the counts of their readers, and each writer hands over what
-- the other's reader lacks. ServerConnection knows the clients' keys and connections.
--
-- Common      shared names, tests on numbers, lists, outcomes of calls, 32-bit words, maps
-- Net         the socket calls of src/base/SocketHandler.hpp: a script of the kernel's answers
-- Crypto      src/base/CryptoHandler.cpp; libsodium's secretbox is the parameter `Secretbox`, and
--             `IsSecretbox` is what its documentation promises
-- Packet      src/base/Packet.hpp; Packet/Sealed is the frame that a packet has on the wire
-- Writer      src/base/BackedWriter.cpp: write, recover, revive, invalidateSocket
-- Reader      src/base/BackedReader.cpp: read, revive, invalidateSocket, hasData
-- Session     one direction of a session: a writer, the network and the reader of the other end,
--             with every step that either end or the network can take
-- Connection  src/base/Connection.cpp: readPacket, read, writePacket, write, closeSocket,
--             recover, shutdown
-- Server      src/base/ServerConnection.cpp and src/base/ServerClientConnection.cpp: clientHandler,
--             addClientKey, removeClient, destroyPartialConnection, shutdown, recoverClient
-- Client      src/base/ClientConnection.cpp: connect, closeSocketAndMaybeReconnect, pollReconnect
-- Transfer    src/base/SocketHandler.cpp and SocketHandler.hpp: readAll, writeAllOrThrow,
--             writeAllOrReturn, readProto and writeProto; src/base/RawSocketUtils.cpp
-- Forward     src/terminal/forwarding: the ids, the maps and the data path of the tunnels
-- Tunnels     src/base/TunnelUtils.cpp: parseRangesToRequests, processEtStyleTunnelArg and
--             parseSshTunnelArg, over split of src/base/Headers.hpp (Common/Strings) and stoi of
--             the C++ library (Common/Stoi)
-- Hosts       src/terminal/HostParsing.hpp: parseHostString
-- Terminal    src/htm/TerminalHandler.cpp: the kept output of a terminal, pollUserTerminal
-- Router      src/terminal/UserTerminalRouter.cpp: acceptNewConnection, tryGetInfoForConnection,
--             and the registration in src/terminal/TerminalServer.cpp
-- UserTerminal  src/terminal/UserTerminalHandler.cpp: the loop of runUserTerminal
-- TerminalServer  src/terminal/TerminalServer.cpp: the loop of runTerminal by its rounds; how it starts
--             and leaves is in TerminalServer/Opening; runJumpHost is in TerminalServer/JumpHost
-- TerminalClient  src/terminal/TerminalClient.cpp: the loop of run, by its rounds
-- Htm         src/htm/MultiplexerState.cpp: newTab, appendData and resizePane, with newSplit in
--             Htm/Splitting and closePane in Htm/Closing; the other children keep the invariant
-- HtmServer   src/htm/HtmServer.cpp: the commands and the rounds of run, with update and
--             sendTerminalBuffers of the state
-- Examples    a concrete secretbox, runs of the code, and the theorems at concrete inputs
--
-- An operation that holds a mutex to its end is one step; writePacket, which takes it anew for each
-- of its parts, finds another connection in each. A call returns (`ok`), throws, aborts the
-- process (`fatal`, for STFATAL), or is still waiting when the script of answers is used up. The
-- loops over the kernel's answers and over the attempts of a reconnect recurse on that script, so
-- they need no fuel. A descriptor of -1 is none. Bytes are numbers. The counters of 64 bits are not
-- cut; the header of a recovery is cut to 32 bits as protobuf does, and a session is held to fewer
-- than 2^31 packets where the theorems need it.
--
-- Not modelled: the thread pool and acceptNewConnection of ServerConnection, protobuf (a transfer in a recovery is a
-- success or a failure, and its framing is in Transfer), the socket handlers' system calls, the
-- sockets and files that port forwarding makes, the JSON and base64 messages of htm, the other event
-- loops, and the programs.
pub mod Common
pub mod Net
pub mod Crypto
pub mod Packet
pub mod Writer
pub mod Reader
pub mod Session
pub mod Connection
pub mod Server
pub mod Client
pub mod Transfer
pub mod Forward
pub mod Hosts
pub mod Htm
pub mod HtmServer
pub mod Router
pub mod Terminal
pub mod TerminalClient
pub mod TerminalServer
pub mod Tunnels
pub mod UserTerminal
pub mod Examples
