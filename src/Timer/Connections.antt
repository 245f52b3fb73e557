-- ===== src/Timer/Connections.antt =====
-- cpp/core/net/connection_manager.hpp: liveness of connections by timers. A connection's id is a
-- number, and the callback of its timer is that id. The manager's wheel is used by it alone.
pub mod Silence
use cascade.Base.{ℕ, Bool, true, false, List, [], ◌∷◌, ◌++◌, Option, none, some, length}
use cascade.Base.Dict.{find, insert, erase}
use cascade.Timer.Wheel.{TimerWheel, add_timer, cancel, tick}

pub record ConnectionManager : Type 0 where
  pub wheel : TimerWheel ℕ
  pub timeout_ms : ℕ
  pub timers : List (ℕ × ℕ)

pub arm_timer_locked : ℕ → ConnectionManager → ConnectionManager
arm_timer_locked id m =
    let (timer_id, w) = add_timer m.timeout_ms id m.wheel in
    record m { wheel = w; timers = insert id timer_id m.timers }

pub register_connection : ℕ → ConnectionManager → ConnectionManager
register_connection id m = arm_timer_locked id m

pub unregister_connection : ℕ → ConnectionManager → ConnectionManager
unregister_connection id m = elim (find id m.timers) [
  | none ↦ m
  | some timer_id ↦ record m { wheel = (cancel timer_id m.wheel).1; timers = erase id m.timers }
]

pub on_heartbeat_received : ℕ → ConnectionManager → ConnectionManager
on_heartbeat_received id m = elim (find id m.timers) [
  | none ↦ m
  | some timer_id ↦ arm_timer_locked id (record m { wheel = (cancel timer_id m.wheel).1 })
]

pub tracked_count : ConnectionManager → ℕ
tracked_count m = length m.timers

-- `handle_timeout`, without the call of `on_timeout_`.
pub handle_timeout : ℕ → ConnectionManager → ConnectionManager
handle_timeout id m = record m { timers = erase id m.timers }

-- The callbacks that a tick of the wheel runs, one after the other: the ids that `on_timeout_` is
-- called with, and the manager after them.
pub run_due : List ℕ → ConnectionManager → ConnectionManager
run_due [] m = m
run_due (id ∷ due) m = run_due due (handle_timeout id m)

pub tick_connections : ConnectionManager → List ℕ × ConnectionManager
tick_connections m = let (due, w) = tick m.wheel in (due, run_due due (record m { wheel = w }))
