-- ===== src/Storage/Log.antt =====
-- cpp/core/storage/log.hpp: the log of a partition, a row of segments. The reader-writer lock makes
-- each operation one step. Directory calls and `msync` are taken to succeed; a flush is counted.
pub mod Chain
pub mod AppendRead
pub mod Batch
pub mod Tests
use cascade.Base.{
  ℕ, zero, suc, ◌+◌, ◌-◌, ◌^◌, is_empty, Bool, true, false, ◌||◌, List, [], ◌∷◌, ◌++◌, Option, none,
  some, ltb, if◌then◌else◌, length,
}
use cascade.Base.Word.{add64}
use cascade.Storage.Segment
use cascade.Storage.Segment.{
  Segment, ReadResult, record_header_size, open_segment, seal, read_from, position_hint_for,
}

-- `segments_` is never empty after the constructor: `active` is its back, `older` the rest from
-- the back on.
pub record Log : Type 0 where
  pub max_segment_bytes : ℕ
  pub older : List Segment
  pub active : Segment
  pub next_offset : ℕ
  pub flush_calls : ℕ

-- What a call that may throw leaves: its result, or none for the exception, and the log.
abbrev pub Outcome : Type 0 → Type 0
Outcome A = Option A × Log

-- `roll_new_segment`: the file of a new segment does not exist yet. `none` if its constructor
-- throws, which leaves `segments_` as it was.
pub roll_new_segment : ℕ → Log → Option Log
roll_new_segment base_offset l = elim (open_segment none base_offset l.max_segment_bytes) [
  | none ↦ none
  | some s ↦ some (record l { older = l.active ∷ l.older; active = s })
]

-- The second try, on the segment that was just rolled.
pub append_retry : List ℕ → Log → Outcome ℕ
append_retry payload l =
    let (offset, s) = Segment.append payload l.active in (offset, record l { active = s })

-- The part that `append` and `append_batch` share: write to the active segment, or seal it, roll a
-- new one and write there.
pub append_rolling : List ℕ → Log → Outcome ℕ
append_rolling payload l =
    let (offset, s) = Segment.append payload l.active in
    elim offset [
      | some o ↦ (some o, record l { active = s })
      | none ↦
          let sealed_log : Log = record l { active = seal s } in
          elim (roll_new_segment (seal s).next_offset sealed_log) [
            | none ↦ (none, sealed_log)
            | some rolled ↦ append_retry payload rolled
          ]
    ]

-- `next_offset_` is stored only after a success.
pub append : List ℕ → Log → Outcome ℕ
append payload l =
    let (offset, after) = append_rolling payload l in
    elim offset [
      | none ↦ (none, after)
      | some o ↦ (some o, record after { next_offset = add64 o 1 })
    ]

-- The check that `append_batch` makes of every payload before it writes.
pub cannot_fit : ℕ → List (List ℕ) → Bool
cannot_fit max [] = false
cannot_fit max (p ∷ ps) =
    (ltb (2 ^ 32 - 1) (length p) || ltb max (add64 record_header_size (length p)))
    || cannot_fit max ps

-- The loop of `append_batch`; false is an exception midway.
pub append_each : List (List ℕ) → Log → Bool × Log
append_each [] l = (true, l)
append_each (p ∷ ps) l =
    let (offset, after) = append_rolling p l in
    elim offset [ none ↦ (false, after) | some o ↦ append_each ps after ]

-- `next_offset_.store(segments_.back()->next_offset())`, on success and on an exception alike.
abbrev pub publish_offset : Log → Log
publish_offset l = record l { next_offset = l.active.next_offset }

pub flush : Log → Log
flush l = record l { flush_calls = add64 l.flush_calls 1 }

pub append_batch : List (List ℕ) → Bool → Log → Outcome ℕ
append_batch payloads flush_after l =
    let (done, after) = append_each payloads l in
    let first = l.active.next_offset in
    if cannot_fit l.max_segment_bytes payloads
    then (none, l)
    else if is_empty payloads
    then (some first, l)
    else if done
    then (some first, if flush_after then flush (publish_offset after) else publish_offset after)
    else (none, publish_offset after)

-- The segment with the largest base offset that does not exceed `offset`: the one before
-- `std::upper_bound`, the segments standing in the order of their base offsets.
pub segment_for : ℕ → List Segment → Option Segment
segment_for offset [] = none
segment_for offset (s ∷ ss) = if ltb offset s.base_offset then segment_for offset ss else some s

pub read : ℕ → Log → Option ReadResult
read offset l = elim (segment_for offset (l.active ∷ l.older)) [
  | none ↦ none
  | some s ↦ read_from offset (position_hint_for offset s) s
]

pub segment_count : Log → ℕ
segment_count l = length (l.active ∷ l.older)

-- `recover_existing_segments` on the files of the directory, in the order of their names, as base
-- offset and content. `done` are the segments before, from the back on; the last one stays open.
pub recover_from : ℕ → List Segment → List (ℕ × List ℕ) → Option (List Segment)
recover_from max done [] = some done
recover_from max done ((base, file) ∷ files) = elim (open_segment (some file) base max) [
  | none ↦ none
  | some s ↦ recover_from max (s ∷ done) files
]

seal_all : List Segment → List Segment
seal_all [] = []
seal_all (s ∷ ss) = seal s ∷ seal_all ss

-- The constructor. `none` if a segment's constructor throws.
pub open_log : ℕ → List (ℕ × List ℕ) → Option Log
open_log max files = elim (recover_from max [] files) [
  | none ↦ none
  | some [] ↦ elim (open_segment none 0 max) [
    | none ↦ none
    | some s ↦ some (record {
      max_segment_bytes = max;
      older = [];
      active = s;
      next_offset = 0;
      flush_calls = 0;
    })
  ]
  | some (s ∷ ss) ↦ some (record {
    max_segment_bytes = max;
    older = seal_all ss;
    active = s;
    next_offset = s.next_offset;
    flush_calls = 0;
  })
]
