-- ===== src/ControlPlane/Tests.antt =====
-- The theorems on the control plane client at concrete inputs.
use cascade.Base.{
  ℕ, ◌≡◌, refl, ◌≢◌, inl, Bool, true, false, List, [], ◌∷◌, Option, none, some, arith,
  if◌then◌else◌,
}
use cascade.Base.Text.{text_eq, text_eq_ne}
use cascade.ControlPlane.{
  StatusCode, ok, failed_precondition, unavailable, Reply, ControlPlaneClient, new_client,
  split_addresses, split_items, push_item, drop_spaces, drop_last_spaces, is_space, connect_locked,
  call_with_failover, run_heartbeat,
}
use cascade.ControlPlane.Endpoint.{IsConnected, IsDown}
use cascade.ControlPlane.Failover.{call_with_failover-follow_leader, call_with_failover-reaches}
use cascade.ControlPlane.Addresses.{joined, addresses, IsPlain, ArePlain, split_addresses-joined}
use cascade.ControlPlane.Calls.{Reached-IsConnected, constructed, after_heartbeat}

-- Two brokers' control planes, "a" and "b", as "a, b".
abbrev a_address : List ℕ
a_address = 97 ∷ []

abbrev b_address : List ℕ
b_address = 98 ∷ []

abbrev two_addresses : List (List ℕ)
two_addresses = a_address ∷ b_address ∷ []

abbrev client : ControlPlaneClient
client = record {
  broker_id = [];
  broker_address = [];
  endpoints = two_addresses;
  current_idx = 0;
  stub = a_address;
  registered = false;
  stop = false;
  missed_heartbeats = 0;
  timers = [];
  tasks = 0;
}

client-IsConnected : IsConnected client
client-IsConnected = record { known = omega arith; spoken = refl }

abbrev answer : StatusCode → Option (List ℕ) → Bool → Reply Bool
answer code leader response = record { code = code; leader = leader; response = response }

-- Only "b" is up.
abbrev only_b : List ℕ → ℕ → Reply Bool
only_b addr attempt =
    if text_eq addr b_address then answer ok none true else answer unavailable none false

-- "a" names "b" as the leader.
abbrev b_leads : List ℕ → ℕ → Reply Bool
b_leads addr attempt =
    if text_eq addr b_address
    then answer ok none true
    else answer failed_precondition (some b_address) false

abbrev b_registers : List ℕ → ℕ → Reply Bool
b_registers addr attempt = answer ok none true

-- A control plane that does not know the broker.
abbrev forgetful : List ℕ → ℕ → Reply Bool
forgetful addr attempt = answer ok none false

split_addresses-joined_example : split_addresses (97 ∷ 44 ∷ 32 ∷ 98 ∷ []) ≡ two_addresses
unfolding joined addresses IsPlain ArePlain is_space
split_addresses-joined_example = split_addresses-joined ((0, a_address) ∷ (1, b_address) ∷ []) (
  refl,
  (refl, (λ e. absurd (omega arith)), tt),
  (refl, (refl, (λ e. absurd (omega arith)), tt), tt),
)

Reached-IsConnected_example : IsConnected (run_heartbeat b_leads b_leads client)
unfolding new_client split_addresses split_items push_item drop_spaces drop_last_spaces is_space
    connect_locked
Reached-IsConnected_example =
    Reached-IsConnected (run_heartbeat b_leads b_leads client)
      (after_heartbeat b_leads b_leads (constructed (97 ∷ 44 ∷ 98 ∷ []) [] [] refl))

call_with_failover-follow_leader_example :
    ((call_with_failover b_leads false client).0 ≡ answer ok none true)
    × ((call_with_failover b_leads false client).1.stub ≡ b_address)
call_with_failover-follow_leader_example =
    call_with_failover-follow_leader b_leads false client b_address client-IsConnected refl refl
      refl

others-IsDown : (a : List ℕ) (attempt : ℕ) → a ≢ b_address → IsDown ((only_b a attempt).code)
unfolding IsDown
others-IsDown a attempt ne = rw (text_eq_ne a b_address ne) (inl refl)

call_with_failover-reaches_example :
    ((call_with_failover only_b false client).0.code ≡ ok)
    × ((call_with_failover only_b false client).1.stub ≡ b_address)
call_with_failover-reaches_example =
    call_with_failover-reaches only_b b_address (λ attempt. refl) others-IsDown false 1 client
      client-IsConnected (omega arith) (omega arith) refl
