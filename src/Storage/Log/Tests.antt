-- ===== src/Storage/Log/Tests.antt =====
-- Runs of log.hpp, and its theorems at concrete inputs.
use cascade.Base.{true, ℕ, ◌+◌, ◌≡◌, refl, false, List, [], ◌∷◌, some, arith, replicate}
use cascade.Storage.Segment.{Segment}
use cascade.Storage.Segment.Layout.{Holds, IsPayload, encode}
use cascade.Storage.Segment.Read.{lookup_record}
use cascade.Storage.Log.{Log, append, read, append_batch}
use cascade.Storage.Log.Chain.{HoldsLog, read_lem}
use cascade.Storage.Log.Batch.{append_batch_lem}
use cascade.Storage.Log.AppendRead.{append_lem}

-- A segment of 30 bytes: room for one record of two bytes, not for a second.
abbrev first_segment : Segment
first_segment = record {
  base_offset = 0;
  max_bytes = 30;
  bytes = replicate 30 0;
  mapped_len = 30;
  write_pos = 0;
  next_offset = 0;
  record_count = 0;
  sealed = false;
  index = [];
  bytes_since_last_index = 0;
}

abbrev pub new_log : Log
new_log = record {
  max_segment_bytes = 30;
  older = [];
  active = first_segment;
  next_offset = 0;
  flush_calls = 0;
}

abbrev pub word : List ℕ
word = 97 ∷ 98 ∷ []

pub word-IsPayload : IsPayload word
word-IsPayload = omega arith

first-Holds : Holds first_segment []
unfolding encode
first-Holds = record {
  stored = refl;
  ended = refl;
  room = omega arith;
  fits = omega arith;
  backed = λ e. omega arith;
  next = refl;
  counted = refl;
  payloads = tt;
  indexed = tt;
  small_offsets = omega arith;
  small_memory = omega arith;
}

pub new-HoldsLog : HoldsLog 0 new_log []
new-HoldsLog = record {
  chained = record {
    chain = ([], [], refl, refl, first-Holds, refl);
    active = refl;
    size = refl;
    positive = omega arith;
    small = omega arith;
  };
  next = refl;
}

pub one_word-HoldsLog : HoldsLog 0 (append word new_log).1 (word ∷ [])
one_word-HoldsLog =
    (append_lem 0 new_log [] word new-HoldsLog word-IsPayload (omega arith) (omega arith)).1

append_lem_example :
    ((append word new_log).0 ≡ some 0) × HoldsLog 0 (append word new_log).1 (word ∷ [])
append_lem_example =
    append_lem 0 new_log [] word new-HoldsLog word-IsPayload (omega arith) (omega arith)

read_lem_example : read (0 + 0) (append word new_log).1 ≡ lookup_record 0 0 (word ∷ [])
read_lem_example = read_lem 0 0 (append word new_log).1 (word ∷ []) one_word-HoldsLog

append_batch_lem_example :
    ((append_batch (word ∷ word ∷ []) true new_log).0 ≡ some 0)
    × HoldsLog 0 (append_batch (word ∷ word ∷ []) true new_log).1 (word ∷ word ∷ [])
    × ((append_batch (word ∷ word ∷ []) true new_log).1.flush_calls ≡ 1)
append_batch_lem_example =
    append_batch_lem 0 new_log [] word (word ∷ []) true new-HoldsLog
      (word-IsPayload, (word-IsPayload, tt)) (omega arith, (omega arith, tt)) (omega arith)
