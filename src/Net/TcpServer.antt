-- ===== src/Net/TcpServer.antt =====
-- cpp/core/net/tcp_server.hpp: the connections of a server, by file descriptor. What accept, recv and
-- send answer are arguments of the operations, one answer for each round of their loops. The
-- callbacks are set; what they get is noted with the calls to the event loop and to the kernel. The
-- message callback may call the server back and throw: what it does is a function of the notes so
-- far, the connection and the message. The two others do not call the server.
pub mod Notes
pub mod Lifetime
pub mod Tests
use cascade.Base.{
  ℕ, zero, suc, ◌+◌, Bool, true, false, List, [], ◌∷◌, ◌++◌, Option, none, some, ◌==◌,
  if◌then◌else◌, is_empty, take, drop,
}
use cascade.Base.Dict.{find, insert, erase}
use cascade.Net.Framing.{Drained, drain_all, encode_frame}

pub data Accepted : Type 0 where
  peer : ℕ → Accepted
  no_peer : Accepted
  accept_interrupted : Accepted
  accept_failed : Accepted

pub data Received : Type 0 where
  bytes : List ℕ → Received
  peer_closed : Received
  drained : Received
  recv_interrupted : Received
  recv_failed : Received

pub data Sent : Type 0 where
  accepted : ℕ → Sent
  buffer_full : Sent
  send_failed : Sent

pub data Note : Type 0 where
  loop_add : ℕ → Note
  loop_remove : ℕ → Note
  close : ℕ → Note
  on_connect : ℕ → Note
  on_message : ℕ → List ℕ → Note
  on_disconnect : ℕ → Note
  written : ℕ → List ℕ → Note

-- A connection is the buffer of its decoder.
pub record TcpServer : Type 0 where
  pub connections : List (ℕ × List ℕ)
  pub notes : List Note

abbrev pub note_all : List Note → TcpServer → TcpServer
note_all more s = record s { notes = s.notes ++ more }

abbrev pub new_server : TcpServer
new_server = record { connections = []; notes = [] }

pub drop_connection : ℕ → Option (List ℕ) → TcpServer → TcpServer
drop_connection fd none s = s
drop_connection fd (some buffer) s = record {
  connections = erase fd s.connections;
  notes = s.notes ++ loop_remove fd ∷ close fd ∷ on_disconnect fd ∷ [];
}

pub disconnect : ℕ → TcpServer → TcpServer
disconnect fd s = drop_connection fd (find fd s.connections) s

pub accept_one : ℕ → TcpServer → TcpServer
accept_one fd s = record {
  connections = insert fd [] s.connections;
  notes = s.notes ++ loop_add fd ∷ on_connect fd ∷ [];
}

pub accept_loop : List Accepted → TcpServer → TcpServer
accept_loop [] s = s
accept_loop (peer fd ∷ answers) s = accept_loop answers (accept_one fd s)
accept_loop (no_peer ∷ answers) s = s
accept_loop (accept_interrupted ∷ answers) s = accept_loop answers s
accept_loop (accept_failed ∷ answers) s = s

-- The loop of `send` over what is left of the frame.
pub send_loop : ℕ → List Sent → List ℕ → TcpServer → TcpServer
send_loop id answers [] s = s
send_loop id [] (b ∷ bs) s = s
send_loop id (accepted n ∷ answers) (b ∷ bs) s =
    send_loop id answers (drop n (b ∷ bs)) (note_all (written id (take n (b ∷ bs)) ∷ []) s)
send_loop id (buffer_full ∷ answers) (b ∷ bs) s = send_loop id answers (b ∷ bs) s
send_loop id (send_failed ∷ answers) (b ∷ bs) s = disconnect id s

-- `none` where the encoder throws.
pub send_frame : ℕ → List Sent → Option (List ℕ) → TcpServer → Option TcpServer
send_frame id answers none s = none
send_frame id answers (some frame) s = some (send_loop id answers frame s)

pub send_connected : ℕ → List Sent → List ℕ → ℕ → Option (List ℕ) → TcpServer → Option TcpServer
send_connected id answers payload len none s = some s
send_connected id answers payload len (some buffer) s =
    send_frame id answers (encode_frame payload len) s

pub send : ℕ → List Sent → List ℕ → ℕ → TcpServer → Option TcpServer
send id answers payload len s = send_connected id answers payload len (find id s.connections) s

-- What a message callback does with the server: a call of `send`, with the kernel's answers to it,
-- or an exception of its own.
pub data Call : Type 0 where
  call_send : ℕ → List Sent → List ℕ → ℕ → Call
  call_throw : Call

-- How a call ends. `dangling` stands for the use of an iterator whose connection is erased, which is
-- undefined; the state is the one before the use.
pub data Progress : Type 0 where
  returned : TcpServer → Progress
  threw : TcpServer → Progress
  dangling : TcpServer → Progress

-- What follows a `send`: the exception of the encoder leaves the server as it was.
pub after_callback_send : (TcpServer → Progress) → TcpServer → Option TcpServer → Progress
after_callback_send next s none = threw s
after_callback_send next s (some t) = next t

-- The calls of one callback.
pub run_calls : List Call → TcpServer → Progress
run_calls [] s = returned s
run_calls (call_send id answers payload len ∷ calls) s =
    after_callback_send (run_calls calls) s (send id answers payload len s)
run_calls (call_throw ∷ calls) s = threw s

-- `it->second` after a callback: is the connection still there?
pub still_there : (TcpServer → Progress) → Option (List ℕ) → TcpServer → Progress
still_there next none s = dangling s
still_there next (some buffer) s = next s

pub after_callback : ℕ → (TcpServer → Progress) → Progress → Progress
after_callback fd next (returned s) = still_there next (find fd s.connections) s
after_callback fd next (threw s) = threw s
after_callback fd next (dangling s) = dangling s

-- What follows the loop over the frames: an exception, of the decoder or of a callback, is caught
-- and drops the connection; else `next` is the rounds that follow.
pub settle : ℕ → Bool → (TcpServer → Progress) → Progress → Progress
settle fd failed next (returned s) = if failed then returned (disconnect fd s) else next s
settle fd failed next (threw s) = returned (disconnect fd s)
settle fd failed next (dangling s) = dangling s

module _ (reaction : List Note → ℕ → List ℕ → List Call) where
  -- The loop over the frames that the decoder gives.
  pub deliver : ℕ → List (List ℕ) → TcpServer → Progress
  deliver fd [] s = returned s
  deliver fd (frame ∷ frames) s =
      after_callback fd (deliver fd frames)
        (run_calls (reaction s.notes fd frame) (note_all (on_message fd frame ∷ []) s))

  -- The frames of a connection, and the bytes that are left in its decoder.
  pub feed_drained : ℕ → (TcpServer → Progress) → Drained → TcpServer → Progress
  feed_drained fd next r s =
      settle fd r.failed next
        (deliver fd r.frames (record s { connections = insert fd r.left s.connections }))

  pub feed_connection : ℕ → (TcpServer → Progress) → List ℕ → Option (List ℕ) → TcpServer → Progress
  feed_connection fd next chunk none s = returned s
  feed_connection fd next chunk (some buffer) s =
      feed_drained fd next (drain_all (buffer ++ chunk)) s

  pub read_loop : ℕ → List Received → TcpServer → Progress
  read_loop fd [] s = returned s
  read_loop fd (bytes chunk ∷ answers) s =
      feed_connection fd (read_loop fd answers) chunk (find fd s.connections) s
  read_loop fd (peer_closed ∷ answers) s = returned (disconnect fd s)
  read_loop fd (drained ∷ answers) s = returned s
  read_loop fd (recv_interrupted ∷ answers) s = read_loop fd answers s
  read_loop fd (recv_failed ∷ answers) s = returned (disconnect fd s)

  pub handle_readable : ℕ → Bool → List Received → TcpServer → Progress
  handle_readable fd hung_up answers s =
      if hung_up then returned (disconnect fd s) else read_loop fd answers s
