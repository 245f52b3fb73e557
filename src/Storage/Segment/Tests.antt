-- ===== src/Storage/Segment/Tests.antt =====
-- Runs of segment.hpp, and its theorems at concrete inputs.
use cascade.Base.{
  ℕ, ◌≤◌, ◌≡◌, refl, inl, false, List, [], ◌∷◌, ◌++◌, some, arith, length, replicate,
}
use cascade.Storage.Bytes.{le_bytes}
use cascade.Storage.Crc32.{crc32, crc_loop, crc32_table, table_from, crc_bits, crc_bit}
use cascade.Storage.Crc32.Bitwise.{crc32-eq-serial, crc_serial}
use cascade.Storage.Segment.{Segment, mapped, append, replay}
use cascade.Storage.Segment.Layout.{encode, record_bytes, Holds, IsPayload}
use cascade.Storage.Segment.Append.{append-Holds}
use cascade.Storage.Segment.Recover.{IsMapped}
use cascade.Storage.Segment.Keep.{replay_keeps, replay-empty_first}
use Prim.Native.Nat.{bit_xor}

-- A segment of 64 bytes whose first offset is 5, nothing written.
abbrev fresh : Segment
fresh = record {
  base_offset = 5;
  max_bytes = 64;
  bytes = replicate 64 0;
  mapped_len = 64;
  write_pos = 0;
  next_offset = 5;
  record_count = 0;
  sealed = false;
  index = [];
  bytes_since_last_index = 0;
}

abbrev word : List ℕ
word = 97 ∷ 98 ∷ []

fresh-Holds : Holds fresh []
unfolding encode
fresh-Holds = record {
  stored = refl;
  ended = refl;
  room = omega arith;
  fits = omega arith;
  backed = λ e. omega arith;
  next = refl;
  counted = refl;
  payloads = tt;
  indexed = tt;
  small_offsets = omega arith;
  small_memory = omega arith;
}

word-IsPayload : IsPayload word
word-IsPayload = omega arith

crc32-eq-serial_example : crc32 word ≡ bit_xor (crc_serial 0xFFFFFFFF word) 0xFFFFFFFF
crc32-eq-serial_example = crc32-eq-serial word (omega arith)

append-Holds_example : ((append word fresh).0 ≡ some 5) × Holds (append word fresh).1 (word ∷ [])
append-Holds_example =
    append-Holds fresh [] word fresh-Holds word-IsPayload refl (omega arith) (omega arith)

-- Two records, and four bytes of a third.
abbrev torn : List ℕ
torn = 7 ∷ 0 ∷ 0 ∷ 0 ∷ []

crashed-IsMapped : IsMapped (mapped (encode 5 (word ∷ []) ++ torn) 22 false 5 64)
unfolding mapped encode record_bytes le_bytes crc32 crc_loop crc32_table table_from crc_bits crc_bit
crashed-IsMapped = record {
  bytes = omega arith;
  backed = omega arith;
  small_memory = omega arith;
  small_offsets = omega arith;
}

one_record_size : length (encode 5 (word ∷ [])) ≤ 22
unfolding encode record_bytes le_bytes
one_record_size = omega arith

replay_keeps_example :
    (more : List (List ℕ)) × Holds
      (replay (mapped (encode 5 (word ∷ []) ++ torn) 22 false 5 64))
      (word ∷ more)
replay_keeps_example =
    replay_keeps (encode 5 (word ∷ []) ++ torn) 22 5 64 false (word ∷ []) torn crashed-IsMapped refl
      (word-IsPayload, tt) one_record_size (inl (omega arith))

replay-empty_first_example :
    let s = replay (mapped (record_bytes 0 [] ++ encode 1 (word ∷ [])) 34 false 0 64) in
    (s.write_pos ≡ 0) × (s.next_offset ≡ 0) × (s.record_count ≡ 0)
replay-empty_first_example = replay-empty_first (encode 1 (word ∷ [])) 34 64 false
