-- ===== src/Timer/Wheel.antt =====
-- cpp/core/timer/timer_wheel.hpp: a hashed timer wheel. A callback is a value of type `A`: `tick`
-- returns those that it fires, which the caller then runs outside the lock.
pub mod Turn
pub mod Fires
pub mod Tests
use cascade.Base.{
  ℕ, ◌+◌, ◌-◌, ◌/◌, ◌%◌, Bool, true, false, List, [], ◌∷◌, ◌++◌, Option, none, some, ◌==◌,
  if◌then◌else◌, length, get_or, get_elem?, set, replicate,
}
use cascade.Base.Word.{add64, sub64}
use cascade.Base.Dict.{find, insert, erase}

pub record Entry (A : Type 0) : Type 0 where
  pub id : ℕ
  pub remaining_revolutions : ℕ
  pub callback : A

pub record TimerWheel (A : Type 0) : Type 0 where
  pub slots : List (List (Entry A))
  pub tick_ms : ℕ
  pub current_slot : ℕ
  pub next_id : ℕ
  pub id_to_slot : List (ℕ × ℕ)

module _ {A : Type 0} where
  pub new_wheel : ℕ → ℕ → TimerWheel A
  new_wheel num_slots tick_ms = record {
    slots = replicate num_slots [];
    tick_ms = tick_ms;
    current_slot = 0;
    next_id = 1;
    id_to_slot = [];
  }

  -- `slots_[i]`
  abbrev pub bucket_at : ℕ → TimerWheel A → List (Entry A)
  bucket_at i w = get_or w.slots i []

  -- The delay in ticks, one at least. A wheel has a positive `tick_ms`: the source divides by it
  -- without a test.
  pub ticks_of : ℕ → TimerWheel A → ℕ
  ticks_of delay_ms w = let ticks = delay_ms / w.tick_ms in if ticks == 0 then 1 else ticks

  pub add_timer : ℕ → A → TimerWheel A → ℕ × TimerWheel A
  add_timer delay_ms cb w =
      let ticks = ticks_of delay_ms w in
      let slot_index = sub64 (add64 w.current_slot ticks) 1 % length w.slots in
      let revolutions = (ticks - 1) / length w.slots in
      let entry : Entry A = record {
        id = w.next_id;
        remaining_revolutions = revolutions;
        callback = cb;
      } in
      (
        w.next_id,
        record w {
          slots = set w.slots slot_index (bucket_at slot_index w ++ entry ∷ []);
          next_id = add64 w.next_id 1;
          id_to_slot = insert w.next_id slot_index w.id_to_slot;
        },
      )

  -- `std::find_if` and `erase`: the first entry of that id goes; none if there is none.
  pub remove_entry : ℕ → List (Entry A) → Option (List (Entry A))
  remove_entry id [] = none
  remove_entry id (e ∷ es) =
      let rest = remove_entry id es in
      if e.id == id then some es else elim rest [ none ↦ none | some rs ↦ some (e ∷ rs) ]

  pub cancel : ℕ → TimerWheel A → Bool × TimerWheel A
  cancel id w = elim (find id w.id_to_slot) [
    | none ↦ (false, w)
    | some i ↦ elim (remove_entry id (bucket_at i w)) [
      | none ↦ (false, w)
      | some bucket ↦
          (true, record w { slots = set w.slots i bucket; id_to_slot = erase id w.id_to_slot })
    ]
  ]

  -- The loop of `tick` over the bucket: what is due, what remains, and the ids still known.
  pub sweep : List (Entry A) → List (ℕ × ℕ) → (List A × List (Entry A)) × List (ℕ × ℕ)
  sweep [] ids = (([], []), ids)
  sweep (e ∷ es) ids =
      let ((due, remaining), fired) = sweep es (erase e.id ids) in
      let ((due', remaining'), kept) = sweep es ids in
      if e.remaining_revolutions == 0 then ((e.callback ∷ due, remaining), fired) else (
        (due', record e { remaining_revolutions = e.remaining_revolutions - 1 } ∷ remaining'),
        kept,
      )

  pub tick : TimerWheel A → List A × TimerWheel A
  tick w =
      let ((due, remaining), ids) = sweep (bucket_at w.current_slot w) w.id_to_slot in
      (
        due,
        record w {
          slots = set w.slots w.current_slot remaining;
          current_slot = add64 w.current_slot 1 % length w.slots;
          id_to_slot = ids;
        },
      )

  pub pending_count : TimerWheel A → ℕ
  pending_count w = length w.id_to_slot
