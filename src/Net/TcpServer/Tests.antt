-- ===== src/Net/TcpServer/Tests.antt =====
-- The theorem on the server at a concrete run, with a message callback that echoes: a peer connects,
-- sends a frame of one byte, and closes. Where the send of the echo fails, the loop over the frames
-- goes on with an iterator of the erased connection.
use cascade.Base.{ℕ, ◌≡◌, refl, false, List, [], ◌∷◌, length}
use cascade.Base.Dict.{find, insert, erase}
use cascade.Net.Framing.{drain_all, encode_frame}
use cascade.Net.TcpServer.{
  Sent, accepted, send_failed, Note, Call, call_send, peer, no_peer, Received, bytes, peer_closed,
  Progress, returned, dangling, TcpServer, new_server, accept_loop, handle_readable, read_loop,
  feed_connection, feed_drained, deliver, after_callback, still_there, settle, run_calls,
  after_callback_send, send, send_connected, send_frame, send_loop, disconnect, drop_connection,
  accept_one,
}
use cascade.Net.TcpServer.Notes.{IsBalanced}
use cascade.Net.TcpServer.Lifetime.{
  AreFresh, begun, after_accept, after_readable, Reached-IsBalanced,
}

abbrev echo : List Sent → List Note → ℕ → List ℕ → List Call
echo answers notes fd message = call_send fd answers message (length message) ∷ []

abbrev connected : TcpServer
connected = accept_loop (peer 5 ∷ no_peer ∷ []) new_server

abbrev received : List Received
received = bytes (0 ∷ 0 ∷ 0 ∷ 1 ∷ 9 ∷ []) ∷ peer_closed ∷ []

abbrev state_of : Progress → TcpServer
state_of (returned s) = s
state_of other = new_server

abbrev Gone : Progress → Type 0
Gone (dangling s) = Unit
Gone other = ⊥

abbrev echoed : Progress
echoed = handle_readable (echo (accepted 5 ∷ [])) 5 false received connected

echoed_returned : echoed ≡ returned (state_of echoed)
unfolding handle_readable read_loop feed_connection feed_drained deliver after_callback still_there
    settle run_calls after_callback_send send send_connected send_frame send_loop disconnect
    drop_connection accept_loop accept_one drain_all encode_frame find insert erase
echoed_returned = refl

Reached-IsBalanced_example : IsBalanced (state_of echoed)
unfolding AreFresh find
Reached-IsBalanced_example = Reached-IsBalanced (state_of echoed) (
    after_readable (echo (accepted 5 ∷ [])) 5 false received
      (after_accept (peer 5 ∷ no_peer ∷ []) begun (refl, tt)) echoed_returned)

echo_dangles : Gone (handle_readable (echo (send_failed ∷ [])) 5 false received connected)
unfolding handle_readable read_loop feed_connection feed_drained deliver after_callback still_there
    settle run_calls after_callback_send send send_connected send_frame send_loop disconnect
    drop_connection accept_loop accept_one drain_all encode_frame find insert erase
echo_dangles = tt
