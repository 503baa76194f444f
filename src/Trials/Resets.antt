-- ===== src/Trials/Resets.antt =====
-- `main3` of src/server/main_trial.c: frames whose packets are refused go back to their senders as
-- resets. `handle_client_packet` is called without a table and with the arguments of an older version,
-- which is not in the repository: it is a parameter.
pub mod Laws
use benker_vpn.Base.{
  ℕ, ◌+◌, Option, none, some, List, [], ◌∷◌, ◌==◌, if◌then◌else◌, Run, ok, fault, out_of_fuel,
  ◌>>=◌,
}
use benker_vpn.Packet.{Buffer, get16, memcpy}
use benker_vpn.Net.{
  Call, call_socket, call_sendto_ll, af_packet, sock_raw, eth_p_ip, no_flags, fill,
}
use benker_vpn.Handler.{Reply, valid_session, invalid_session}
use benker_vpn.Client.{TunRead, packet}
use benker_vpn.Poc.RawSock.{behind, with_behind, ll_addr, sizeof_ethhdr}

-- `tempChar` holds the source while the addresses are exchanged.
unfoldable pub swap_addresses : Buffer → Buffer
unfolding memcpy
swap_addresses b =
    let temp : Buffer = λ i. 0 in
    let temp_char = memcpy temp 0 b 6 6 in memcpy (memcpy b 6 b 0 6) 0 temp_char 0 6

module _ (handle_client_packet : Buffer → (size : ℕ) → Reply) where
  -- What is sent for a frame in the buffer, by what the handler answers, and the buffer that is left.
  unfoldable pub reset_frame : (sock : ℕ) → Buffer → Reply → List Call × Buffer
  unfolding swap_addresses ll_addr
  reset_frame sock b (valid_session r) = ([], with_behind b sizeof_ethhdr r)
  reset_frame sock b (invalid_session r temp) =
      let whole = swap_addresses (with_behind b sizeof_ethhdr r) in
      (call_sendto_ll sock whole (sizeof_ethhdr + temp) no_flags (ll_addr whole) ∷ [], whole)

  -- One round, on a frame that has been read.
  unfoldable pub handle_frame : (sock : ℕ) → Buffer → (frame_size : ℕ) → List Call × Buffer
  unfolding reset_frame
  handle_frame sock b frame_size =
      if get16 b 12 == 0x800
      then reset_frame sock b (handle_client_packet (behind b sizeof_ethhdr) frame_size)
      else ([], b)

  -- The `while` loop, on what the reads of the socket give, up to a read that failed.
  unfoldable pub reset_frames : (sock : ℕ) → Buffer → List TunRead → Run (List (List Call))
  unfolding handle_frame fill
  reset_frames sock b [] = fault out_of_fuel
  reset_frames sock b (TunRead.failed errno ∷ rest) = ok []
  reset_frames sock b (packet msg size ∷ rest) = do
    let (calls, b') = handle_frame sock (fill msg size b) size
    more ← reset_frames sock b' rest
    ok (calls ∷ more)

  -- The program returns 1 in each case; `sock` is what `socket` returns.
  unfoldable pub main3 : Option ℕ → Buffer → List TunRead → Run (List Call × List (List Call))
  unfolding reset_frames
  main3 none b reads = ok (call_socket af_packet sock_raw eth_p_ip ∷ [], [])
  main3 (some sock) b reads = do
    sent ← reset_frames sock b reads
    ok (call_socket af_packet sock_raw eth_p_ip ∷ [], sent)
