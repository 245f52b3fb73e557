-- ===== src/Timer/Connections/Silence.antt =====
-- A silent connection is reported.
use cascade.Base.{
  ℕ, zero, suc, ◌-◌, ◌^◌, ◌<◌, ◌≡◌, refl, sym, subst, ◌∙◌, ap, List, [], ◌∷◌, none, arith, ==_refl,
}
use cascade.Base.Dict.{find, find-erase}
use cascade.Timer.Wheel.{tick, ticks_of}
use cascade.Timer.Wheel.Fires.{IsWheel, Has, after, add_timer-fires}
use cascade.Timer.Connections.{
  ConnectionManager, arm_timer_locked, register_connection, unregister_connection,
  on_heartbeat_received, run_due, handle_timeout, tick_connections,
}

-- The manager after `k` ticks in which nothing else happens.
abbrev silent : ℕ → ConnectionManager → ConnectionManager
silent zero m = m
silent (suc k) m = silent k (tick_connections m).1

run_due-wheel : (due : List ℕ) (m : ConnectionManager) → (run_due due m).wheel ≡ m.wheel
unfolding run_due handle_timeout
run_due-wheel [] m = refl
run_due-wheel (id ∷ due) m = run_due-wheel due (handle_timeout id m)

silent-wheel : (k : ℕ) (m : ConnectionManager) → (silent k m).wheel ≡ after k m.wheel
unfolding tick_connections
silent-wheel zero m = refl
silent-wheel (suc k) m =
    silent-wheel k (tick_connections m).1
    ∙ ap (after k) (run_due-wheel (tick m.wheel).0 (record m { wheel = (tick m.wheel).1 }))

-- On a wheel of fewer than 2 ^ 32 slots, for a timeout of fewer than 2 ^ 63 ticks, if
-- nothing but ticks happens after a connection registers, it is reported dead in the tick in which its
-- timeout ends.
register-silent :
    (id : ℕ) (m : ConnectionManager)
    → IsWheel m.wheel
    → ticks_of m.timeout_ms m.wheel < 2 ^ 63
    → Has id
        (tick_connections (silent (ticks_of m.timeout_ms m.wheel - 1) (register_connection id m))).0
unfolding tick_connections register_connection arm_timer_locked
register-silent id m ok short =
    subst (λ w. Has id (tick w).0)
      (sym (silent-wheel (ticks_of m.timeout_ms m.wheel - 1) (register_connection id m)))
      (add_timer-fires m.timeout_ms id m.wheel ok short)

unregister-untracked :
    (id : ℕ) (m : ConnectionManager) → find id (unregister_connection id m).timers ≡ none
unfolding unregister_connection
unregister-untracked id m = ground (arith, find-erase id id m.timers, ==_refl id)

heartbeat-untracked :
    (id : ℕ) (m : ConnectionManager) → find id m.timers ≡ none → on_heartbeat_received id m ≡ m
unfolding on_heartbeat_received
heartbeat-untracked id m e = ground arith

-- A connection that has been unregistered is not tracked, and a heartbeat of it that comes late
-- changes nothing.
unregister-heartbeat :
    (id : ℕ) (m : ConnectionManager)
    → (find id (unregister_connection id m).timers ≡ none)
      × (on_heartbeat_received id (unregister_connection id m) ≡ unregister_connection id m)
unregister-heartbeat id m = (
  unregister-untracked id m,
  heartbeat-untracked id (unregister_connection id m) (unregister-untracked id m),
)
