-- ===== src/ControlPlane/Calls.antt =====
-- The calls of the control plane client: registration and heartbeats.
use cascade.Base.{
  ℕ, ◌+◌, ◌-◌, ◌%◌, ◌^◌, ◌<◌, ◌≡◌, refl, ap, subst, inl, inr, Bool, true, false, List, [], ◌∷◌,
  Option, none, some, arith, if_either, is_empty, length, Bool-cases,
}
use cascade.ControlPlane.{
  StatusCode, ok, failed_precondition, unavailable, deadline_exceeded, other, Reply,
  ControlPlaneClient, Outcome, returned, rpc_failed, rejected, BrokerInfo, CreateTopicResult,
  split_addresses, connect_locked, new_client, is_retried, call_with_failover, register_outcome,
  register_broker, heartbeat_outcome, heartbeat_once, throw_failed, list_brokers, create_topic,
  schedule_next_heartbeat, heartbeat_due, count_missed, run_heartbeat, schedule_registered,
  start_heartbeating, stop_heartbeating,
}
use cascade.ControlPlane.Endpoint.{IsConnected}
use cascade.ControlPlane.Failover.{call_with_failover-IsConnected, call_with_failover-final}

-- The states of a client from its constructor on, by any calls, whatever the network replies.
pub data Reached : ControlPlaneClient → Type 0 where
  constructed :
      (addresses id address : List ℕ) {c : ControlPlaneClient}
      → new_client addresses id address ≡ some c
      → Reached c
  after_register :
      (rpc : List ℕ → ℕ → Reply Bool) {c : ControlPlaneClient}
      → Reached c
      → Reached ((register_broker rpc c).1)
  after_heartbeat :
      (rpc register_rpc : List ℕ → ℕ → Reply Bool) {c : ControlPlaneClient}
      → Reached c
      → Reached (run_heartbeat rpc register_rpc c)
  after_list :
      (rpc : List ℕ → ℕ → Reply (List BrokerInfo)) {c : ControlPlaneClient}
      → Reached c
      → Reached ((list_brokers rpc c).1)
  after_create :
      (rpc : List ℕ → ℕ → Reply CreateTopicResult) {c : ControlPlaneClient}
      → Reached c
      → Reached ((create_topic rpc c).1)
  after_start :
      (rpc : List ℕ → ℕ → Reply Bool) (interval_ms : ℕ) {c : ControlPlaneClient}
      → Reached c
      → Reached ((start_heartbeating rpc interval_ms c).1)
  after_timer :
      (interval_ms : ℕ) {c : ControlPlaneClient} → Reached c → Reached (heartbeat_due interval_ms c)
  after_stop : {c : ControlPlaneClient} → Reached c → Reached (stop_heartbeating c)

first_inside : (xs : List (List ℕ)) → is_empty xs ≡ false → 0 < length xs
first_inside [] h = absurd (cc (h))
first_inside (x ∷ xs) h = omega arith

-- The same addresses, the same current one, the same stub.
same_endpoints :
    (c d : ControlPlaneClient)
    → d.endpoints ≡ c.endpoints
    → d.current_idx ≡ c.current_idx
    → d.stub ≡ c.stub
    → IsConnected c
    → IsConnected d
same_endpoints c d e f g h = record { known = rw (e, f) h.known; spoken = rw (e, f, g) h.spoken }

MadeConnected : Option ControlPlaneClient → Type 0
MadeConnected none = Unit
MadeConnected (some c) = IsConnected c

new_client-MadeConnected :
    (addresses id address : List ℕ) → MadeConnected (new_client addresses id address)
unfolding new_client connect_locked MadeConnected
new_client-MadeConnected addresses id address =
    elim (Bool-cases (is_empty (split_addresses addresses))) [
      | inl none_given ↦ rw none_given tt
      | inr given ↦
          rw given
            (record { known = first_inside (split_addresses addresses) given; spoken = refl })
    ]

called :
    {R : Type 0} (rpc : List ℕ → ℕ → Reply R) (blank : R) (c : ControlPlaneClient)
    → IsConnected c
    → IsConnected ((call_with_failover rpc blank c).1)
called rpc blank c h = (call_with_failover-IsConnected rpc blank c h).0

register_outcome-IsConnected :
    (code : StatusCode) (leader : Option (List ℕ)) (response : Bool) (c : ControlPlaneClient)
    → IsConnected c
    → IsConnected
        ((register_outcome (record { code = code; leader = leader; response = response }) c).1)
unfolding register_outcome
register_outcome-IsConnected ok leader true c h = same_endpoints c _ refl refl refl h
register_outcome-IsConnected ok leader false c h = h
register_outcome-IsConnected failed_precondition leader response c h = h
register_outcome-IsConnected unavailable leader response c h = h
register_outcome-IsConnected deadline_exceeded leader response c h = h
register_outcome-IsConnected (other n) leader response c h = h

throw_failed-IsConnected :
    {R : Type 0} (code : StatusCode) (leader : Option (List ℕ)) (response : R)
    (c : ControlPlaneClient)
    → IsConnected c
    → IsConnected
        ((throw_failed (record { code = code; leader = leader; response = response }) c).1)
unfolding throw_failed
throw_failed-IsConnected ok leader response c h = h
throw_failed-IsConnected failed_precondition leader response c h = h
throw_failed-IsConnected unavailable leader response c h = h
throw_failed-IsConnected deadline_exceeded leader response c h = h
throw_failed-IsConnected (other n) leader response c h = h

register_broker-IsConnected :
    (rpc : List ℕ → ℕ → Reply Bool) (c : ControlPlaneClient)
    → IsConnected c
    → IsConnected ((register_broker rpc c).1)
unfolding register_broker
register_broker-IsConnected rpc c h =
    let (reply, d) = call_with_failover rpc false c in
    register_outcome-IsConnected reply.code reply.leader reply.response d (called rpc false c h)

heartbeat_outcome-IsConnected :
    (rpc : List ℕ → ℕ → Reply Bool) (code : StatusCode) (leader : Option (List ℕ)) (response : Bool)
    (c : ControlPlaneClient)
    → IsConnected c
    → IsConnected
        ((heartbeat_outcome rpc (record { code = code; leader = leader; response = response }) c).1)
unfolding heartbeat_outcome
heartbeat_outcome-IsConnected rpc ok leader true c h = h
heartbeat_outcome-IsConnected rpc ok leader false c h = register_broker-IsConnected rpc c h
heartbeat_outcome-IsConnected rpc failed_precondition leader response c h = h
heartbeat_outcome-IsConnected rpc unavailable leader response c h = h
heartbeat_outcome-IsConnected rpc deadline_exceeded leader response c h = h
heartbeat_outcome-IsConnected rpc (other n) leader response c h = h

count_missed-IsConnected :
    (alive : Bool) (c : ControlPlaneClient) → IsConnected c → IsConnected (count_missed (alive, c))
unfolding count_missed
count_missed-IsConnected true c h = h
count_missed-IsConnected false c h = same_endpoints c _ refl refl refl h

run_heartbeat-IsConnected :
    (rpc register_rpc : List ℕ → ℕ → Reply Bool) (c : ControlPlaneClient)
    → IsConnected c
    → IsConnected (run_heartbeat rpc register_rpc c)
unfolding run_heartbeat heartbeat_once
run_heartbeat-IsConnected rpc register_rpc c h =
    let begun = record c { tasks = c.tasks - 1 } in
    let (reply, d) = call_with_failover rpc false begun in
    let outcome = heartbeat_outcome register_rpc reply d in
    count_missed-IsConnected outcome.0 outcome.1 (
      heartbeat_outcome-IsConnected register_rpc reply.code reply.leader reply.response d
        (called rpc false begun (same_endpoints c begun refl refl refl h)))

schedule_next_heartbeat-IsConnected :
    (interval_ms : ℕ) (c : ControlPlaneClient)
    → IsConnected c
    → IsConnected (schedule_next_heartbeat interval_ms c)
unfolding schedule_next_heartbeat
schedule_next_heartbeat-IsConnected interval_ms c h =
    if_either IsConnected c.stop h (same_endpoints c _ refl refl refl h)

schedule_registered-IsConnected :
    (interval_ms : ℕ) (o : Outcome (Unit {0})) (c : ControlPlaneClient)
    → IsConnected c
    → IsConnected ((schedule_registered interval_ms (o, c)).1)
unfolding schedule_registered
schedule_registered-IsConnected interval_ms (returned done) c h =
    schedule_next_heartbeat-IsConnected interval_ms c h
schedule_registered-IsConnected interval_ms (rpc_failed code) c h = h
schedule_registered-IsConnected interval_ms rejected c h = h

start_heartbeating-IsConnected :
    (rpc : List ℕ → ℕ → Reply Bool) (interval_ms : ℕ) (c : ControlPlaneClient)
    → IsConnected c
    → IsConnected ((start_heartbeating rpc interval_ms c).1)
unfolding start_heartbeating
start_heartbeating-IsConnected rpc interval_ms c h =
    let r = register_broker rpc c in
    if_either (λ (o : Outcome (Unit {0}) × ControlPlaneClient). IsConnected (o.1)) c.registered
      (schedule_next_heartbeat-IsConnected interval_ms c h)
      (schedule_registered-IsConnected interval_ms r.0 r.1 (register_broker-IsConnected rpc c h))

-- After any calls, whatever the network replies to them, the client has an address, and its stub
-- is for the current one of its addresses.
pub Reached-IsConnected : (c : ControlPlaneClient) → Reached c → IsConnected c
unfolding MadeConnected list_brokers create_topic heartbeat_due stop_heartbeating
Reached-IsConnected c (constructed addresses id address made) =
    subst MadeConnected made (new_client-MadeConnected addresses id address)
Reached-IsConnected _ (after_register rpc {c} before) =
    register_broker-IsConnected rpc c (Reached-IsConnected c before)
Reached-IsConnected _ (after_heartbeat rpc register_rpc {c} before) =
    run_heartbeat-IsConnected rpc register_rpc c (Reached-IsConnected c before)
Reached-IsConnected _ (after_list rpc {c} before) =
    let (reply, d) = call_with_failover rpc [] c in
    throw_failed-IsConnected reply.code reply.leader reply.response d
      (called rpc [] c (Reached-IsConnected c before))
Reached-IsConnected _ (after_create rpc {c} before) =
    let blank : CreateTopicResult = record { created = false; error = [] } in
    let (reply, d) = call_with_failover rpc blank c in
    throw_failed-IsConnected reply.code reply.leader reply.response d
      (called rpc blank c (Reached-IsConnected c before))
Reached-IsConnected _ (after_start rpc interval_ms {c} before) =
    start_heartbeating-IsConnected rpc interval_ms c (Reached-IsConnected c before)
Reached-IsConnected _ (after_timer interval_ms {c} before) =
    let task = record c { tasks = c.tasks + 1 } in
    schedule_next_heartbeat-IsConnected interval_ms task
      (same_endpoints c task refl refl refl (Reached-IsConnected c before))
Reached-IsConnected _ (after_stop {c} before) =
    same_endpoints c _ refl refl refl (Reached-IsConnected c before)

-- If the control plane answers a heartbeat with ok but does not acknowledge it, and then accepts
-- the registration, the heartbeat is counted as missed and the client is registered again.
pub run_heartbeat-registers :
    (rpc register_rpc : List ℕ → ℕ → Reply Bool) (c : ControlPlaneClient)
    → (rpc c.stub 0).code ≡ ok
    → (rpc c.stub 0).response ≡ false
    → (register_rpc c.stub 0).code ≡ ok
    → (register_rpc c.stub 0).response ≡ true
    → run_heartbeat rpc register_rpc c ≡ record c {
      registered = true;
      tasks = c.tasks - 1;
      missed_heartbeats = (c.missed_heartbeats + 1) % 2 ^ 64;
    }
unfolding run_heartbeat heartbeat_once heartbeat_outcome register_broker register_outcome
    count_missed is_retried
run_heartbeat-registers rpc register_rpc c answered unknown accepted listed =
    let begun = record c { tasks = c.tasks - 1 } in
    let beat = call_with_failover-final rpc false begun (ap is_retried answered) in
    let again = call_with_failover-final register_rpc false begun (ap is_retried accepted) in
    rw (beat, answered, unknown, again, accepted, listed) refl
