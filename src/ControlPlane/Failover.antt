-- ===== src/ControlPlane/Failover.antt =====
-- The failover of the control plane client: which addresses it turns to.
use cascade.Base.{
  ℕ, zero, suc, ◌+◌, ◌-◌, ◌≤◌, ◌<◌, ◌≡◌, refl, ap, subst, sym, ◌∙◌, ◌≢◌, ◌⊎◌, inl, inr, true, false,
  List, [], ◌++◌, some, arith, get_or, length, Bool-cases,
}
use cascade.Base.Text.{text_eq, text_eq_refl, text_eq_sound}
use cascade.ControlPlane.{
  ok, failed_precondition, Reply, ControlPlaneClient, max_attempts, connect_locked, rotate_endpoint,
  follow_leader, after_reply, is_retried, call_loop, call_with_failover,
}
use cascade.ControlPlane.Endpoint.{
  IsConnected, rotate_endpoint-IsConnected, follow_leader_lem, Keeps, Keeps-refl, Keeps-trans,
  after_reply_lem, IsDown, down_again, down_rotates, Ahead, rotate_endpoint-Ahead,
}
use native.Mathlib.Decide.{dec_lt}

module _ {R : Type 0} (rpc : List ℕ → ℕ → Reply R) where
  call_loop-IsConnected :
      (remaining attempt : ℕ) (status : Reply R) (c : ControlPlaneClient)
      → IsConnected c
      → IsConnected ((call_loop rpc remaining attempt status c).1)
        × Keeps c ((call_loop rpc remaining attempt status c).1)
  unfolding call_loop
  call_loop-IsConnected zero attempt status c h = (h, Keeps-refl c)
  call_loop-IsConnected (suc remaining) attempt status c h =
      let reply = rpc c.stub attempt in
      let d = after_reply reply.code reply.leader c in
      let (connected, kept) = after_reply_lem reply.code reply.leader c h in
      let (later, kept_later) = call_loop-IsConnected remaining (attempt + 1) reply d connected in
      elim (Bool-cases (is_retried reply.code)) [
        | inl again ↦ rw again (later, Keeps-trans c d _ kept kept_later)
        | inr last ↦ rw last (h, Keeps-refl c)
      ]

  -- Whatever the addresses reply, a call leaves the client connected to the current one of its
  -- addresses, if it was so before, and keeps all its addresses in their places.
  pub call_with_failover-IsConnected :
      (blank : R) (c : ControlPlaneClient)
      → IsConnected c
      → IsConnected ((call_with_failover rpc blank c).1)
        × ((more : List (List ℕ)) × ((call_with_failover rpc blank c).1.endpoints
              ≡ c.endpoints ++ more))
  unfolding call_with_failover Keeps
  call_with_failover-IsConnected blank c h = call_loop-IsConnected max_attempts 0 _ c h

  call_loop-again :
      (n attempt : ℕ) (status : Reply R) (c : ControlPlaneClient)
      → is_retried (rpc c.stub attempt).code ≡ true
      → call_loop rpc (suc n) attempt status c
        ≡ call_loop rpc n
            (attempt + 1)
            (rpc c.stub attempt)
            (after_reply (rpc c.stub attempt).code (rpc c.stub attempt).leader c)
  unfolding call_loop
  call_loop-again n attempt status c again = rw again refl

  call_loop-last :
      (n attempt : ℕ) (status : Reply R) (c : ControlPlaneClient)
      → is_retried (rpc c.stub attempt).code ≡ false
      → call_loop rpc (suc n) attempt status c ≡ (rpc c.stub attempt, c)
  unfolding call_loop
  call_loop-last n attempt status c last = rw last refl

  -- A reply that is not retried is returned as it is, and changes nothing.
  pub call_with_failover-final :
      (blank : R) (c : ControlPlaneClient)
      → is_retried (rpc c.stub 0).code ≡ false
      → call_with_failover rpc blank c ≡ (rpc c.stub 0, c)
  unfolding call_with_failover
  call_with_failover-final blank c last = call_loop-last 11 0 _ c last

  -- If the address that the client speaks to refuses the first attempt and names a leader, and the
  -- leader answers the second with ok, then the call returns that answer, and the client speaks to
  -- the leader from then on, if it was connected to the current one of its addresses before.
  pub call_with_failover-follow_leader :
      (blank : R) (c : ControlPlaneClient) (leader_addr : List ℕ)
      → IsConnected c
      → (rpc c.stub 0).code ≡ failed_precondition
      → (rpc c.stub 0).leader ≡ some leader_addr
      → (rpc leader_addr 1).code ≡ ok
      → ((call_with_failover rpc blank c).0 ≡ rpc leader_addr 1)
        × ((call_with_failover rpc blank c).1.stub ≡ leader_addr)
  unfolding call_with_failover is_retried after_reply
  call_with_failover-follow_leader blank c leader_addr h refused hint answered =
      let d = follow_leader leader_addr c in
      let spoken = (follow_leader_lem leader_addr c h).1 in
      let again = call_loop-again 11 0 _ c (ap is_retried refused) in
      let followed : after_reply (rpc c.stub 0).code (rpc c.stub 0).leader c ≡ d =
        rw (refused, hint) refl in
      let answer : rpc d.stub 1 ≡ rpc leader_addr 1 = ap (λ a. rpc a 1) spoken in
      let last =
        call_loop-last 10 1 (rpc c.stub 0) d
          (ap (λ r. is_retried r.code) answer ∙ ap is_retried answered) in
      let whole = again ∙ ap (call_loop rpc 11 1 (rpc c.stub 0)) followed ∙ last in
      (ap (λ r. r.0) whole ∙ answer, ap (λ r. r.1.stub) whole ∙ spoken)

  module _ (good : List ℕ) (up : (attempt : ℕ) → (rpc good attempt).code ≡ ok)
      (down : (a : List ℕ) (attempt : ℕ) → a ≢ good → IsDown ((rpc a attempt).code)) where
    -- The call ends at the address that answers.
    Answered : Reply R × ControlPlaneClient → Type 0
    Answered (reply, c) = (reply.code ≡ ok) × (c.stub ≡ good)

    at_good :
        (n attempt : ℕ) (status : Reply R) (c : ControlPlaneClient)
        → c.stub ≡ good
        → Answered (call_loop rpc (suc n) attempt status c)
    unfolding Answered is_retried
    at_good n attempt status c e =
        let code : (rpc c.stub attempt).code ≡ ok = ap (λ a. (rpc a attempt).code) e ∙ up attempt in
        rw (call_loop-last n attempt status c (ap is_retried code)) (code, e)

    reaches :
        (remaining attempt d k : ℕ) (status : Reply R) (c : ControlPlaneClient)
        → IsConnected c
        → get_or c.endpoints k [] ≡ good
        → k < length c.endpoints
        → d < remaining
        → Ahead c d k
        → Answered (call_loop rpc remaining attempt status c)
    unfolding Ahead rotate_endpoint connect_locked
    reaches zero attempt d k status c h at inside l ahead = absurd (omega arith)
    reaches (suc remaining) attempt zero k status c h at inside l ahead =
        let here : c.current_idx ≡ k = omega (arith, ahead, h.known) in
        at_good remaining attempt status c (h.spoken ∙ ap (λ i. get_or c.endpoints i []) here ∙ at)
    reaches (suc remaining) attempt (suc d) k status c h at inside l ahead =
        elim (Bool-cases (text_eq c.stub good)) [
          | inl same ↦ at_good remaining attempt status c (text_eq_sound c.stub good same)
          | inr differs ↦
              let reply = rpc c.stub attempt in
              let apart : c.stub ≢ good =
                λ e. absurd (cc (differs, ap (λ a. text_eq a good) e, text_eq_refl good)) in
              let lost = down c.stub attempt apart in
              let next = down_rotates reply.code reply.leader c lost in
              let again = call_loop-again remaining attempt status c (down_again reply.code lost) in
              let turned = rotate_endpoint-Ahead c d k h.known inside ahead in
              subst Answered (sym (again ∙ ap (call_loop rpc remaining (attempt + 1) reply) next)) (
                reaches remaining (attempt + 1) d k reply (rotate_endpoint c)
                  (rotate_endpoint-IsConnected c h) at inside (omega arith) turned)
        ]

    turns :
        (cur k n : ℕ) → cur < n → k < n → (d : ℕ) × (d < n) × ((cur + d ≡ k) ⊎ (cur + d ≡ k + n))
    turns cur k n l m = elim (dec_lt k cur) [
      | yes behind ↦ (k + n - cur, omega arith, inr (omega arith))
      | no ahead ↦ (k - cur, omega arith, inl (omega arith))
    ]

    -- If a client with at most twelve addresses, connected to the current one of them, calls, and
    -- one of its addresses always answers ok while every other address is unavailable or exceeds
    -- its deadline at every attempt, then the call returns ok, and the client speaks to the address
    -- that answers from then on.
    pub call_with_failover-reaches :
        (blank : R) (k : ℕ) (c : ControlPlaneClient)
        → IsConnected c
        → length c.endpoints ≤ max_attempts
        → k < length c.endpoints
        → get_or c.endpoints k [] ≡ good
        → ((call_with_failover rpc blank c).0.code ≡ ok)
          × ((call_with_failover rpc blank c).1.stub ≡ good)
    unfolding call_with_failover Answered Ahead
    call_with_failover-reaches blank k c h few inside at =
        let (d, short, ahead) = turns c.current_idx k (length c.endpoints) h.known inside in
        reaches max_attempts 0 d k _ c h at inside (omega arith) ahead
