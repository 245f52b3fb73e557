-- ===== src/Media/JitterBuffer.antt =====
-- cpp/core/media/jitter_buffer.hpp: reorders audio frames and conceals the missing ones. Sequence
-- numbers have 32 bits and times 64; their wrap-around is written out.
pub mod Play
pub mod Playout
pub mod Tests
use cascade.Base.{
  ℕ, suc, ◌+◌, ◌*◌, ◌%◌, ◌^◌, Bool, true, false, List, [], ◌∷◌, Option, none, some, ltb, leb,
  if◌then◌else◌,
}
use cascade.Base.Word.{add64, mul64, add32, sub32}
use cascade.Base.Dict.{find, insert, erase}

pub record JitterBuffer : Type 0 where
  pub frame_interval_ms : ℕ
  pub target_delay_ms : ℕ
  pub started : Bool
  pub base_arrival_ms : ℕ
  pub base_sequence : ℕ
  pub next_sequence : ℕ
  pub buffer : List (ℕ × List ℕ)
  pub last_good_payload : List ℕ
  pub has_last_good : Bool
  pub concealed_count : ℕ
  pub packets_played : ℕ
  pub late_after_deadline : ℕ

pub new_buffer : ℕ → ℕ → JitterBuffer
new_buffer frame_interval_ms target_delay_ms = record {
  frame_interval_ms = frame_interval_ms;
  target_delay_ms = target_delay_ms;
  started = false;
  base_arrival_ms = 0;
  base_sequence = 0;
  next_sequence = 0;
  buffer = [];
  last_good_payload = [];
  has_last_good = false;
  concealed_count = 0;
  packets_played = 0;
  late_after_deadline = 0;
}

pub data Kind : Type 0 where
  packet : Kind
  concealed : Kind
  not_ready : Kind

pub record PullResult : Type 0 where
  pub kind : Kind
  pub sequence : ℕ
  pub payload : List ℕ

abbrev pub nothing_yet : PullResult
nothing_yet = record { kind = not_ready; sequence = 0; payload = [] }

-- The first part of `push`: the first frame sets the bases.
abbrev pub start : ℕ → ℕ → JitterBuffer → JitterBuffer
start sequence arrival_time_ms b = if b.started then b else record b {
  started = true;
  base_arrival_ms = arrival_time_ms;
  base_sequence = sequence;
  next_sequence = sequence;
}

pub push : ℕ → List ℕ → ℕ → JitterBuffer → JitterBuffer
push sequence payload arrival_time_ms b =
    let s = start sequence arrival_time_ms b in
    if ltb sequence s.next_sequence
    then record s { late_after_deadline = add64 s.late_after_deadline 1 }
    else record s { buffer = insert sequence payload s.buffer }

-- `slot` is a difference of 32-bit numbers.
pub deadline : JitterBuffer → ℕ
deadline b =
    let slot = sub32 b.next_sequence b.base_sequence in
    add64 (add64 b.base_arrival_ms b.target_delay_ms) (mul64 slot b.frame_interval_ms)

pub pull : ℕ → JitterBuffer → PullResult × JitterBuffer
pull now_ms b =
    if b.started
    then elim (find b.next_sequence b.buffer) [
      | some p ↦ (
        record { kind = packet; sequence = b.next_sequence; payload = p },
        record b {
          last_good_payload = p;
          has_last_good = true;
          buffer = erase b.next_sequence b.buffer;
          next_sequence = add32 b.next_sequence 1;
          packets_played = add64 b.packets_played 1;
        },
      )
      | none ↦
          if leb (deadline b) now_ms
          then (
            record {
              kind = concealed;
              sequence = b.next_sequence;
              payload = if b.has_last_good then b.last_good_payload else [];
            },
            record b {
              next_sequence = add32 b.next_sequence 1;
              concealed_count = add64 b.concealed_count 1;
              packets_played = add64 b.packets_played 1;
            },
          )
          else (nothing_yet, b)
    ]
    else (nothing_yet, b)
