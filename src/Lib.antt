-- ===== src/Lib.antt =====
-- benker-vpn: a VPN gateway that shares one public address among the TCP connections of its client.
--
-- The server (src/server/main.c) takes IP packets of the client from a UDP socket and packets of the
-- world from a raw socket. src/lib/packet_handler.c decides what becomes of a packet: it asks the
-- session table (src/lib/session_struct.c) for the TCP session, moves the state of that session by
-- the packet's flags, and lets src/lib/protocol_headers.c rewrite the address and the port, or turn
-- the packet into a reset. A session of the client gets a port of the server, under which the
-- answers of the world find it.
--
-- Files and source:
--   Base: helpers; C words, Boolean tests, and `Run`, a result or a fault (a dangling pointer, a
--     division by zero).
--   Packet: a buffer, its big-endian fields, and struct iphdr and struct tcphdr as offsets in it.
--   Checksum: summing, ip_csum, tcp_csum. Checksum/Sum relates summing to a one's complement sum,
--     Checksum/Ip and Checksum/Tcp say when a checksum that is stored is right.
--   Rewrite: replace_src_ip_port, replace_dst_ip_port and their parts; the proofs are split into the
--     address (Rewrite/Ip), the port (Rewrite/Port) and both (Rewrite/Both).
--   Validate: validate_ip_tcp. Reset: fillin_reset, field by field (Reset/Fields) and as a whole
--     (Reset/Laws).
--   Session: src/lib/session_struct.c and its header. `Table` is struct session_hash_table, `Session`
--     is struct tcp_session, a `Chain` lists the session pointers of a linked list, and `Memory`
--     says which sessions are allocated. Session/Valid has the invariant, Session/Search the chains,
--     Session/Port the search for a port, Session/Add and Session/Lookup what adding a session does,
--     Session/Clean the removal of expired ones, Session/Delete the end of a table, Session/Print the
--     print functions. Session/Nodes has the linked lists node by node, on a heap of
--     `struct session_linked_list`; its children relate each list function to the one on a `Chain`.
--     Session/Nodes/Hash is the table over these nodes: `HashTable` has the two arrays of heads, `Nodes`
--     the heap and the next address that calloc gives. Session/Nodes/Hash/Represents says which `Table`
--     such nodes stand for, and Session/Nodes/Hash/Add, Clean and Delete take the operations one by
--     one. Session/Life and Session/Nodes/Hash/Life run any calls from init_hash_table to
--     delete_hash_table, on chains (with Session/Life/Step and Session/Life/Account on what becomes of
--     the sessions) and on nodes. Session/Safe is what these calls need so as not to
--     fault where a session may expire while the lists are cleaned; Session/Safe/Part and
--     Session/Safe/Clean are about cleaning them under any clock.
--   Handler: src/lib/packet_handler.c. Handler/Client and Handler/World list the ways in which each
--     handler returns, Handler/RoundTrip runs a packet and its answer through both, Handler/Flags is
--     the state machine of a session, Handler/Expired a session that is too old, Handler/Served the
--     packets that must be sent on.
--   Gateway: what handle_client_packet, handle_world_packet and clean_expired_session promise together,
--     as steps on a map from ports to their owners; Gateway/View reads that map off a table,
--     Gateway/Client and Gateway/Refines show that the code takes such steps.
--   Net: src/lib/udp.c and src/lib/vpn_raw_sock.c; Net/Laws is about reading, Net/Open about the
--     descriptors that stay open.
--   Server: src/server/main.c, with its loop round by round; Server/Safe shows that it goes on,
--     Server/Relays and Server/Replies which packets it must send on to the world and to the client,
--     Server/Outgoing sets all that it sends against all that it reads.
--     Client: src/client/main.c, round by round (Client/Relay) and over
--     all rounds (Client/InOrder).
--   EndToEnd: a packet of the tunnel through the client's loop and the server's, and its answer back.
--   Tunnel: src/lib/ip_command.c; Tunnel/Descriptors is about the descriptors that it leaves open.
--   Hex: the functions of the trial programs that load and print packets as hexadecimal digits.
--   Trials: src/server/main_trial.c and src/client/main_trial.c. Trials/Sessions is main4,
--     Trials/Connection main5, Trials/Resets main3, Trials/Tun tun_alloc and main, Trials/Polling main2
--     and the client's main.
--   Poc: the programs under POC that touch the network. Poc/RawSock is POC/RAWSOCK/main.c,
--     Poc/IpCommand POC/IP_COMMAND/main.c, Poc/TunTap POC/TUNTAP/main.c, Poc/UdpServer
--     POC/UDP/server-src/main.c.
--   Tests: packets and tables for examples.
--
-- Conventions:
--   A buffer is a function from offsets to bytes, without its size; the one store outside a buffer that
--   is modelled is that of POC/UDP/server-src/main.c, where it ends the run. A `uint16_t` or `uint32_t`
--   is a natural number, cut by a remainder where the code stores it. Bit fields are read by division.
--   `id += 1` in fillin_reset is done on the bytes of a little-endian host. time(NULL) is a parameter,
--   `Clock`: what its n-th call returns; the memory counts the calls. calloc is taken to succeed. The
--   arrays of a table are functions, and freeing them is left out, as is what the code prints.
--
--   What the kernel, libc and libnetlink answer is an input: each system call of a round has a field
--   in `Answers`, `SetupAnswers`, `Descriptor` or a list of answers, and EAGAIN, EWOULDBLOCK and
--   PACKET_HOST are parameters. What the code asks of them is an output: `Call` for the sockets,
--   `Request` for netlink, `Event` for what the set-up of the tunnel opens and closes. Where
--   rtnl_open fails it leaves nothing open. Constants of the system's headers that are only passed on are names.
--
-- Bounds and fuel:
--   Folding the carries of a 32-bit sum takes two rounds at most (`fold_fuel`). The loop that looks
--   for a port ends when `count` has passed `mod_num`; `count` has no initial value in the source, so
--   it is a parameter, shifted by `int_zero` to be a natural number, and `claim_fuel` is the number of
--   rounds that are left from it. A loop over nodes needs one unit more than the list has nodes, which
--   is a hypothesis of each theorem about it; in a table it gets one unit more than addresses have
--   been given out, and no list is longer than that. The loops of the server and the client go on for
--   as long as there are answers; those that read the raw socket, and those of the trial programs, end
--   with an answer that makes the code leave them, and answers that stop before it are a fault
--   (`out_of_fuel`), which is no behaviour of the code.
--
-- Not modelled: what is printed, save for the sessions and the calls of time(NULL) in it, and the
-- digits of packets in the trial programs; and POC/C_TRIAL, POC/GLIB_TRIAL and POC/UDP/client-src, which try
-- out the language, glib and printf. src/server/main_trial.c calls the handlers and get_udp_socket_server
-- with the arguments of an older version, which is not in the repository: where it does, they are
-- parameters.
pub mod Base
pub mod Packet
pub mod Checksum
pub mod Rewrite
pub mod Validate
pub mod Reset
pub mod Session
pub mod Handler
pub mod Gateway
pub mod Net
pub mod Server
pub mod Client
pub mod EndToEnd
pub mod Tunnel
pub mod Hex
pub mod Trials
pub mod Poc
mod Tests
