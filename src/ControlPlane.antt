-- ===== src/ControlPlane.antt =====
-- cpp/core/controlplane/control_plane_client.hpp: the client of the control plane. A procedure call
-- over the network is a parameter: the reply of an address at an attempt. The pauses between the
-- attempts, the deadlines and the credentials are left out; a stub is the address it is for.
pub mod Endpoint
pub mod Failover
pub mod Addresses
pub mod Calls
pub mod Tests
use cascade.Base.{
  ℕ, zero, suc, ◌+◌, ◌-◌, ◌%◌, ◌^◌, Bool, true, false, ◌||◌, ◌&&◌, not, List, [], ◌∷◌, ◌++◌, Option,
  none, some, ◌==◌, is_empty, if◌then◌else◌, get_or, length,
}
use cascade.Base.Text.{text_eq}

abbrev pub max_attempts : ℕ
max_attempts = 12

-- grpc::StatusCode, as far as the client tells the codes apart.
pub data StatusCode : Type 0 where
  ok : StatusCode
  failed_precondition : StatusCode
  unavailable : StatusCode
  deadline_exceeded : StatusCode
  other : ℕ → StatusCode

-- A status, the trailer "x-cascade-leader" if there is one, and the response.
pub record Reply (R : Type 0) : Type 0 where
  pub code : StatusCode
  pub leader : Option (List ℕ)
  pub response : R

pub record ControlPlaneClient : Type 0 where
  pub broker_id : List ℕ
  pub broker_address : List ℕ
  pub endpoints : List (List ℕ)
  pub current_idx : ℕ
  pub stub : List ℕ
  pub registered : Bool
  pub stop : Bool
  pub missed_heartbeats : ℕ
  -- The intervals of the armed timers, and the heartbeats that the pool has still to run.
  pub timers : List ℕ
  pub tasks : ℕ

-- " \t"
pub is_space : ℕ → Bool
is_space c = (c == 32) || (c == 9)

-- From the first character that is no space on.
pub drop_spaces : List ℕ → List ℕ
drop_spaces [] = []
drop_spaces (c ∷ cs) = if is_space c then drop_spaces cs else c ∷ cs

-- Up to the last character that is no space.
pub drop_last_spaces : List ℕ → List ℕ
drop_last_spaces [] = []
drop_last_spaces (c ∷ cs) =
    let rest = drop_last_spaces cs in if is_empty rest && is_space c then [] else c ∷ rest

-- `item.substr(b, e - b + 1)`, unless the item is blank.
pub push_item : List ℕ → List (List ℕ) → List (List ℕ)
push_item item out =
    let trimmed = drop_last_spaces (drop_spaces item) in
    if is_empty trimmed then out else trimmed ∷ out

-- The loop of `std::getline`: `item` is what it has read of the item, which ends at ',' or at the
-- end of the text. Nothing is read behind a ',' that ends the text.
pub split_items : List ℕ → List ℕ → List (List ℕ)
split_items item [] = if is_empty item then [] else push_item item []
split_items item (c ∷ cs) =
    let next = split_items [] cs in
    let more = split_items (item ++ c ∷ []) cs in if c == 44 then push_item item next else more

pub split_addresses : List ℕ → List (List ℕ)
split_addresses s = split_items [] s

pub connect_locked : ControlPlaneClient → ControlPlaneClient
connect_locked c = record c { stub = get_or c.endpoints c.current_idx [] }

-- The constructor; `none` where it throws, for a list without addresses. The certificate is left out.
pub new_client : List ℕ → List ℕ → List ℕ → Option ControlPlaneClient
new_client control_plane_addresses broker_id broker_address =
    let endpoints = split_addresses control_plane_addresses in
    if is_empty endpoints
    then none
    else some (
        connect_locked record {
          broker_id = broker_id;
          broker_address = broker_address;
          endpoints = endpoints;
          current_idx = 0;
          stub = [];
          registered = false;
          stop = false;
          missed_heartbeats = 0;
          timers = [];
          tasks = 0;
        })

pub current_endpoint : ControlPlaneClient → List ℕ
current_endpoint c = get_or c.endpoints c.current_idx []

pub rotate_endpoint : ControlPlaneClient → ControlPlaneClient
rotate_endpoint c =
    connect_locked (record c { current_idx = (c.current_idx + 1) % length c.endpoints })

-- `std::find`, as an index; the length where it is not found.
pub find_endpoint : List ℕ → List (List ℕ) → ℕ
find_endpoint addr [] = 0
find_endpoint addr (e ∷ es) =
    let rest = find_endpoint addr es in if text_eq e addr then 0 else suc rest

pub follow_leader : List ℕ → ControlPlaneClient → ControlPlaneClient
follow_leader leader_addr c =
    let idx = find_endpoint leader_addr c.endpoints in
    let known =
      if idx == length c.endpoints
      then record c { endpoints = c.endpoints ++ leader_addr ∷ [] }
      else c in
    if idx == c.current_idx then known else connect_locked (record known { current_idx = idx })

-- What the loop of `call_with_failover` does with a status, and whether it goes on.
pub after_reply : StatusCode → Option (List ℕ) → ControlPlaneClient → ControlPlaneClient
after_reply failed_precondition none c = rotate_endpoint c
after_reply failed_precondition (some leader_addr) c = follow_leader leader_addr c
after_reply unavailable leader c = rotate_endpoint c
after_reply deadline_exceeded leader c = rotate_endpoint c
after_reply ok leader c = c
after_reply (other code) leader c = c

pub is_retried : StatusCode → Bool
is_retried failed_precondition = true
is_retried unavailable = true
is_retried deadline_exceeded = true
is_retried ok = false
is_retried (other code) = false

module _ {R : Type 0} where
  -- The attempts from `attempt` on, `remaining` of them; `status` is the one before.
  pub call_loop :
      (List ℕ → ℕ → Reply R) → ℕ → ℕ → Reply R → ControlPlaneClient → Reply R × ControlPlaneClient
  call_loop rpc zero attempt status c = (status, c)
  call_loop rpc (suc remaining) attempt status c =
      let reply = rpc c.stub attempt in
      let rest =
        call_loop rpc remaining (attempt + 1) reply (after_reply reply.code reply.leader c) in
      if is_retried reply.code then rest else (reply, c)

  -- A status is ok before the first attempt; `blank` is the response that the caller passes in.
  pub call_with_failover :
      (List ℕ → ℕ → Reply R) → R → ControlPlaneClient → Reply R × ControlPlaneClient
  call_with_failover rpc blank c =
      call_loop rpc max_attempts 0 (record { code = ok; leader = none; response = blank }) c

-- What a call throws, or what it returns.
pub data Outcome (R : Type 0) : Type 0 where
  returned : R → Outcome R
  rpc_failed : StatusCode → Outcome R
  rejected : Outcome R

pub register_outcome : Reply Bool → ControlPlaneClient → Outcome (Unit {0}) × ControlPlaneClient
register_outcome reply c = elim reply.code [
  | ok ↦ if reply.response then (returned tt, record c { registered = true }) else (rejected, c)
  | failed_precondition ↦ (rpc_failed reply.code, c)
  | unavailable ↦ (rpc_failed reply.code, c)
  | deadline_exceeded ↦ (rpc_failed reply.code, c)
  | other n ↦ (rpc_failed reply.code, c)
]

-- The response is its field `registered`.
pub register_broker :
    (List ℕ → ℕ → Reply Bool) → ControlPlaneClient → Outcome (Unit {0}) × ControlPlaneClient
register_broker rpc c =
    let (reply, called) = call_with_failover rpc false c in register_outcome reply called

-- The response is its field `acknowledged`; the second argument answers a registration, whose
-- exceptions are caught.
pub heartbeat_outcome :
    (List ℕ → ℕ → Reply Bool) → Reply Bool → ControlPlaneClient → Bool × ControlPlaneClient
heartbeat_outcome register_rpc reply c = elim reply.code [
  | ok ↦ if reply.response then (true, c) else (false, (register_broker register_rpc c).1)
  | failed_precondition ↦ (false, c)
  | unavailable ↦ (false, c)
  | deadline_exceeded ↦ (false, c)
  | other n ↦ (false, c)
]

pub heartbeat_once :
    (List ℕ → ℕ → Reply Bool)
    → (List ℕ → ℕ → Reply Bool)
    → ControlPlaneClient
    → Bool × ControlPlaneClient
heartbeat_once rpc register_rpc c =
    let (reply, called) = call_with_failover rpc false c in
    heartbeat_outcome register_rpc reply called

-- `list_brokers` and `create_topic`: the response, or the exception.
module _ {R : Type 0} where
  pub throw_failed : Reply R → ControlPlaneClient → Outcome R × ControlPlaneClient
  throw_failed reply c = elim reply.code [
    | ok ↦ (returned reply.response, c)
    | failed_precondition ↦ (rpc_failed reply.code, c)
    | unavailable ↦ (rpc_failed reply.code, c)
    | deadline_exceeded ↦ (rpc_failed reply.code, c)
    | other n ↦ (rpc_failed reply.code, c)
  ]

pub record BrokerInfo : Type 0 where
  pub broker_id : List ℕ
  pub address : List ℕ
  pub alive : Bool
  pub last_heartbeat_unix_ms : ℕ

pub list_brokers :
    (List ℕ → ℕ → Reply (List BrokerInfo))
    → ControlPlaneClient
    → Outcome (List BrokerInfo) × ControlPlaneClient
list_brokers rpc c = let (reply, called) = call_with_failover rpc [] c in throw_failed reply called

pub record CreateTopicResult : Type 0 where
  pub created : Bool
  pub error : List ℕ

pub create_topic :
    (List ℕ → ℕ → Reply CreateTopicResult)
    → ControlPlaneClient
    → Outcome CreateTopicResult × ControlPlaneClient
create_topic rpc c =
    let (reply, called) = call_with_failover rpc (record { created = false; error = [] }) c in
    throw_failed reply called

pub schedule_next_heartbeat : ℕ → ControlPlaneClient → ControlPlaneClient
schedule_next_heartbeat interval_ms c =
    if c.stop then c else record c { timers = interval_ms ∷ c.timers }

-- The callback of a timer: a heartbeat for the pool, and the next timer.
pub heartbeat_due : ℕ → ControlPlaneClient → ControlPlaneClient
heartbeat_due interval_ms c = schedule_next_heartbeat interval_ms (record c { tasks = c.tasks + 1 })

-- The pool runs a heartbeat.
pub count_missed : Bool × ControlPlaneClient → ControlPlaneClient
count_missed (alive, c) =
    if alive then c else record c { missed_heartbeats = (c.missed_heartbeats + 1) % 2 ^ 64 }

pub run_heartbeat :
    (List ℕ → ℕ → Reply Bool) → (List ℕ → ℕ → Reply Bool) → ControlPlaneClient → ControlPlaneClient
run_heartbeat rpc register_rpc c =
    count_missed (heartbeat_once rpc register_rpc (record c { tasks = c.tasks - 1 }))

pub schedule_registered :
    ℕ → Outcome (Unit {0}) × ControlPlaneClient → Outcome (Unit {0}) × ControlPlaneClient
schedule_registered interval_ms (returned done, c) =
    (returned done, schedule_next_heartbeat interval_ms c)
schedule_registered interval_ms (rpc_failed code, c) = (rpc_failed code, c)
schedule_registered interval_ms (rejected, c) = (rejected, c)

pub start_heartbeating :
    (List ℕ → ℕ → Reply Bool) → ℕ → ControlPlaneClient → Outcome (Unit {0}) × ControlPlaneClient
start_heartbeating rpc interval_ms c =
    if c.registered
    then (returned tt, schedule_next_heartbeat interval_ms c)
    else schedule_registered interval_ms (register_broker rpc c)

pub stop_heartbeating : ControlPlaneClient → ControlPlaneClient
stop_heartbeating c = record c { stop = true }
