-- ===== src/Net/TcpServer/Lifetime.antt =====
-- The life of a connection: each one that is accepted is closed, and reported, once.
use cascade.Base.{
  ℕ, ◌≡◌, refl, ap, subst, sym, ◌∙◌, Bool, List, [], ◌∷◌, ◌++◌, Option, none, some, if_either,
  append-nil, drop, take,
}
use cascade.Base.Dict.{find, insert}
use native.Mathlib.Decide.{ℕ_discrete}
use cascade.Net.Framing.{drain_all, encode_frame}
use cascade.Net.TcpServer.{
  Accepted, peer, no_peer, accept_interrupted, accept_failed, Received, bytes, peer_closed, drained,
  recv_interrupted, recv_failed, Sent, accepted, buffer_full, send_failed, Note, on_message,
  written, TcpServer, new_server, disconnect, accept_one, accept_loop, deliver, feed_drained,
  feed_connection, read_loop, handle_readable, send_loop, send_frame, send_connected, send, Call,
  call_send, call_throw, Progress, returned, threw, dangling, run_calls, still_there,
  after_callback_send, after_callback, settle,
}
use cascade.Net.TcpServer.Notes.{
  new_server-IsBalanced, IsBalanced, present, present-insert_same, present-insert_other,
  accept_one-IsBalanced, drop_connection-IsBalanced, silent-IsBalanced, message-IsSilent,
  none-IsSilent, written-IsSilent,
}

disconnect-IsBalanced : (fd : ℕ) (s : TcpServer) → IsBalanced s → IsBalanced (disconnect fd s)
unfolding disconnect
disconnect-IsBalanced fd s h = drop_connection-IsBalanced fd (find fd s.connections) s refl h

send_loop-IsBalanced :
    (id : ℕ) (answers : List Sent) (frame : List ℕ) (s : TcpServer)
    → IsBalanced s
    → IsBalanced (send_loop id answers frame s)
unfolding send_loop
send_loop-IsBalanced id [] [] s h = h
send_loop-IsBalanced id (answer ∷ answers) [] s h = h
send_loop-IsBalanced id [] (b ∷ bs) s h = h
send_loop-IsBalanced id (accepted n ∷ answers) (b ∷ bs) s h =
    let note = written id (take n (b ∷ bs)) ∷ [] in
    let t = record s { notes = s.notes ++ note } in
    send_loop-IsBalanced id answers (drop n (b ∷ bs)) t
      (silent-IsBalanced s t note refl (written-IsSilent id (take n (b ∷ bs))) (λ fd. refl) h)
send_loop-IsBalanced id (buffer_full ∷ answers) (b ∷ bs) s h =
    send_loop-IsBalanced id answers (b ∷ bs) s h
send_loop-IsBalanced id (send_failed ∷ answers) (b ∷ bs) s h = disconnect-IsBalanced id s h

-- The kernel's answers to `accept`: a descriptor that it gives is not in use.
unfoldable pub AreFresh : List Accepted → TcpServer → Type 0
AreFresh [] s = Unit
AreFresh (peer fd ∷ answers) s = (find fd s.connections ≡ none) × AreFresh answers (accept_one fd s)
AreFresh (no_peer ∷ answers) s = Unit
AreFresh (accept_interrupted ∷ answers) s = AreFresh answers s
AreFresh (accept_failed ∷ answers) s = Unit

accept_loop-IsBalanced :
    (answers : List Accepted) (s : TcpServer)
    → AreFresh answers s
    → IsBalanced s
    → IsBalanced (accept_loop answers s)
unfolding accept_loop AreFresh
accept_loop-IsBalanced [] s fresh h = h
accept_loop-IsBalanced (peer fd ∷ answers) s fresh h =
    accept_loop-IsBalanced answers (accept_one fd s) fresh.1 (accept_one-IsBalanced fd s fresh.0 h)
accept_loop-IsBalanced (no_peer ∷ answers) s fresh h = h
accept_loop-IsBalanced (accept_interrupted ∷ answers) s fresh h =
    accept_loop-IsBalanced answers s fresh h
accept_loop-IsBalanced (accept_failed ∷ answers) s fresh h = h

AllBalanced : Option TcpServer → Type 0
AllBalanced none = Unit
AllBalanced (some s) = IsBalanced s

send_connected-AllBalanced :
    (id : ℕ) (answers : List Sent) (payload : List ℕ) (len : ℕ) (o : Option (List ℕ))
    (s : TcpServer)
    → IsBalanced s
    → AllBalanced (send_connected id answers payload len o s)
unfolding send_connected send_frame AllBalanced
send_connected-AllBalanced id answers payload len none s h = h
send_connected-AllBalanced id answers payload len (some buffer) s h =
    encoded (encode_frame payload len)
  where
    encoded : (o : Option (List ℕ)) → AllBalanced (send_frame id answers o s)
    encoded none = tt
    encoded (some frame) = send_loop-IsBalanced id answers frame s h

send-AllBalanced :
    (id : ℕ) (answers : List Sent) (payload : List ℕ) (len : ℕ) (s : TcpServer)
    → IsBalanced s
    → AllBalanced (send id answers payload len s)
unfolding send
send-AllBalanced id answers payload len s h =
    send_connected-AllBalanced id answers payload len (find id s.connections) s h

Balanced : Progress → Type 0
Balanced (returned s) = IsBalanced s
Balanced (threw s) = IsBalanced s
Balanced (dangling s) = IsBalanced s

after_callback_send-Balanced :
    (next : TcpServer → Progress) (s : TcpServer) (o : Option TcpServer)
    → ((t : TcpServer) → IsBalanced t → Balanced (next t))
    → IsBalanced s
    → AllBalanced o
    → Balanced (after_callback_send next s o)
unfolding after_callback_send Balanced AllBalanced
after_callback_send-Balanced next s none later h k = h
after_callback_send-Balanced next s (some t) later h k = later t k

run_calls-Balanced :
    (calls : List Call) (s : TcpServer) → IsBalanced s → Balanced (run_calls calls s)
unfolding run_calls Balanced AllBalanced
run_calls-Balanced [] s h = h
run_calls-Balanced (call_throw ∷ calls) s h = h
run_calls-Balanced (call_send id answers payload len ∷ calls) s h =
    after_callback_send-Balanced (run_calls calls) s (send id answers payload len s)
      (λ t k. run_calls-Balanced calls t k) h (send-AllBalanced id answers payload len s h)

still_there-Balanced :
    (next : TcpServer → Progress) (o : Option (List ℕ)) (s : TcpServer)
    → ((t : TcpServer) → IsBalanced t → Balanced (next t))
    → IsBalanced s
    → Balanced (still_there next o s)
unfolding still_there Balanced
still_there-Balanced next none s later h = h
still_there-Balanced next (some buffer) s later h = later s h

after_callback-Balanced :
    (fd : ℕ) (next : TcpServer → Progress) (p : Progress)
    → ((t : TcpServer) → IsBalanced t → Balanced (next t))
    → Balanced p
    → Balanced (after_callback fd next p)
unfolding after_callback Balanced
after_callback-Balanced fd next (returned s) later h =
    still_there-Balanced next (find fd s.connections) s later h
after_callback-Balanced fd next (threw s) later h = h
after_callback-Balanced fd next (dangling s) later h = h

settle-Balanced :
    (fd : ℕ) (failed : Bool) (next : TcpServer → Progress) (p : Progress)
    → ((t : TcpServer) → IsBalanced t → Balanced (next t))
    → Balanced p
    → Balanced (settle fd failed next p)
unfolding settle Balanced
settle-Balanced fd failed next (returned s) later h =
    if_either Balanced failed (disconnect-IsBalanced fd s h) (later s h)
settle-Balanced fd failed next (threw s) later h = disconnect-IsBalanced fd s h
settle-Balanced fd failed next (dangling s) later h = h

-- A write to the buffer of a connection that is there is no part of its life.
buffered-IsBalanced :
    (fd : ℕ) (left buffer : List ℕ) (s : TcpServer)
    → find fd s.connections ≡ some buffer
    → IsBalanced s
    → IsBalanced (record s { connections = insert fd left s.connections })
unfolding present
buffered-IsBalanced fd left buffer s e h =
    silent-IsBalanced s (record s { connections = insert fd left s.connections }) []
      (sym (append-nil s.notes)) none-IsSilent
      (λ id. elim (ℕ_discrete fd id) [
        | yes same ↦
            present-insert_same fd id left s.connections same
            ∙ sym (ap (λ x. present (find x s.connections)) (sym same) ∙ ap present e)
        | no ne ↦ present-insert_other fd id left s.connections ne
      ])
      h

module _ (reaction : List Note → ℕ → List ℕ → List Call) where
  deliver-Balanced :
      (fd : ℕ) (frames : List (List ℕ)) (s : TcpServer)
      → IsBalanced s
      → Balanced (deliver reaction fd frames s)
  unfolding deliver Balanced
  deliver-Balanced fd [] s h = h
  deliver-Balanced fd (frame ∷ frames) s h =
      let note = on_message fd frame ∷ [] in
      let t = record s { notes = s.notes ++ note } in
      after_callback-Balanced fd (deliver reaction fd frames)
        (run_calls (reaction s.notes fd frame) t) (λ t k. deliver-Balanced fd frames t k)
        (run_calls-Balanced (reaction s.notes fd frame) t
          (silent-IsBalanced s t note refl (message-IsSilent fd frame) (λ fd. refl) h))

  feed_connection-Balanced :
      (fd : ℕ) (next : TcpServer → Progress) (chunk : List ℕ) (o : Option (List ℕ)) (s : TcpServer)
      → ((t : TcpServer) → IsBalanced t → Balanced (next t))
      → find fd s.connections ≡ o
      → IsBalanced s
      → Balanced (feed_connection reaction fd next chunk o s)
  unfolding feed_connection feed_drained Balanced
  feed_connection-Balanced fd next chunk none s later e h = h
  feed_connection-Balanced fd next chunk (some buffer) s later e h =
      let r = drain_all (buffer ++ chunk) in
      let t = record s { connections = insert fd r.left s.connections } in
      settle-Balanced fd r.failed next (deliver reaction fd r.frames t) later
        (deliver-Balanced fd r.frames t (buffered-IsBalanced fd r.left buffer s e h))

  read_loop-Balanced :
      (fd : ℕ) (answers : List Received) (s : TcpServer)
      → IsBalanced s
      → Balanced (read_loop reaction fd answers s)
  unfolding read_loop Balanced
  read_loop-Balanced fd [] s h = h
  read_loop-Balanced fd (bytes chunk ∷ answers) s h =
      feed_connection-Balanced fd (read_loop reaction fd answers) chunk (find fd s.connections) s
        (λ t k. read_loop-Balanced fd answers t k) refl h
  read_loop-Balanced fd (peer_closed ∷ answers) s h = disconnect-IsBalanced fd s h
  read_loop-Balanced fd (drained ∷ answers) s h = h
  read_loop-Balanced fd (recv_interrupted ∷ answers) s h = read_loop-Balanced fd answers s h
  read_loop-Balanced fd (recv_failed ∷ answers) s h = disconnect-IsBalanced fd s h

-- The states of a server, by any calls of the event loop and of its user, in which no message
-- callback loses the connection whose message it handles.
pub data Reached : TcpServer → Type 0 where
  begun : Reached new_server
  after_accept :
      (answers : List Accepted) {s : TcpServer}
      → Reached s
      → AreFresh answers s
      → Reached (accept_loop answers s)
  after_readable :
      (reaction : List Note → ℕ → List ℕ → List Call) (fd : ℕ) (hung_up : Bool)
      (answers : List Received) {s t : TcpServer}
      → Reached s
      → handle_readable reaction fd hung_up answers s ≡ returned t
      → Reached t
  after_send :
      (id : ℕ) (answers : List Sent) (payload : List ℕ) (len : ℕ) {s t : TcpServer}
      → Reached s
      → send id answers payload len s ≡ some t
      → Reached t

-- After any calls, a descriptor was accepted and added to the event loop as often as it was closed,
-- and once more while it is in the table of connections; each close came with one removal from the
-- event loop and one report of the disconnection, each acceptance with one report of the
-- connection. The kernel's accept gives no descriptor that is in the table. The message callback may
-- send on any connections and throw; a call in which it loses the connection whose message it
-- handles is not counted, and the other callbacks do not call the server.
pub Reached-IsBalanced : (s : TcpServer) → Reached s → IsBalanced s
unfolding handle_readable send AllBalanced Balanced
Reached-IsBalanced _ begun = new_server-IsBalanced
Reached-IsBalanced _ (after_accept answers {s} before fresh) =
    accept_loop-IsBalanced answers s fresh (Reached-IsBalanced s before)
Reached-IsBalanced _ (after_readable reaction fd hung_up answers {s} {t} before e) =
    let h = Reached-IsBalanced s before in
    subst Balanced e (
      if_either Balanced hung_up (disconnect-IsBalanced fd s h)
        (read_loop-Balanced reaction fd answers s h))
Reached-IsBalanced _ (after_send id answers payload len {s} {t} before e) =
    subst AllBalanced e (send-AllBalanced id answers payload len s (Reached-IsBalanced s before))
