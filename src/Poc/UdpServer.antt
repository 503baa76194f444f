-- ===== src/Poc/UdpServer.antt =====
-- POC/UDP/server-src/main.c: one message is received and answered. A failed `recvfrom` gives -1, and
-- `buffer[n] = 0` then stores in front of the buffer; it stores behind it for a message that fills it.
use benker_vpn.Base.{ℕ, zero, suc, ltb, if◌then◌else◌, List, [], ◌∷◌}
use benker_vpn.Packet.{Buffer, put8}
use benker_vpn.Net.{
  Received, message, SockaddrIn, af_inet, sock_dgram, unset, inaddr_any, htons, msg_confirm, Call,
  call_socket, call_bind_in, call_sendto_in, Descriptor, no_socket, unbound, bound, fill,
}
use benker_vpn.Trials.Connection.{codes}

-- A text in memory, and zeros behind it.
abbrev text_buffer : List ℕ → Buffer
text_buffer [] i = 0
text_buffer (c ∷ text) zero = c
text_buffer (c ∷ text) (suc i) = text_buffer text i

abbrev reply : Buffer
reply = text_buffer (codes "Hello from server")

abbrev port : ℕ
port = 8080

abbrev bufsize : ℕ
bufsize = 2048

abbrev servaddr : SockaddrIn
servaddr = record { sin_family = af_inet; sin_port = htons port; sin_addr = inaddr_any }

-- `exited` is `exit(EXIT_FAILURE)`; `finished` comes with the text that is printed of the client, and
-- `outside` is a store outside the buffer, after which nothing is known.
pub data Ending : Type 0 where
  exited outside : Ending
  finished : Buffer → Ending

-- What follows `bind`, by the answer of `recvfrom`.
answer_client : (sockfd : ℕ) → Buffer → Received → Ending × List Call
unfolding fill put8
answer_client sockfd b (Received.failed errno) = (outside, [])
answer_client sockfd b (message msg n cliaddr) =
    if ltb n bufsize
    then (
      finished (put8 (fill msg n b) n 0),
      call_sendto_in sockfd reply 17 msg_confirm cliaddr ∷ [],
    )
    else (outside, [])

-- How the program ends, and the calls.
unfoldable pub main : Descriptor → Buffer → Received → Ending × List Call
unfolding answer_client
main no_socket b received = (exited, call_socket af_inet sock_dgram unset ∷ [])
main (unbound fd) b received =
    (exited, call_socket af_inet sock_dgram unset ∷ call_bind_in fd servaddr ∷ [])
main (bound fd) b received =
    let (ending, calls) = answer_client fd b received in
    (ending, call_socket af_inet sock_dgram unset ∷ call_bind_in fd servaddr ∷ calls)
