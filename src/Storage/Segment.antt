-- ===== src/Storage/Segment.antt =====
-- cpp/core/storage/segment.hpp: one memory-mapped segment file. The mapping is shared, so the file
-- and the mapped memory are one list of bytes; system calls are taken to succeed.
pub mod Layout
pub mod Append
pub mod Read
pub mod Recover
pub mod Keep
pub mod Fresh
pub mod Tests
use cascade.Base.{
  ℕ, zero, suc, ◌+◌, ◌≤◌, Bool, true, false, not, ◌&&◌, ◌||◌, List, [], ◌∷◌, ◌++◌, Option, none,
  some, ltb, leb, is_empty, ◌==◌, if◌then◌else◌, length, min, take, drop, replicate,
}
use cascade.Base.Word.{add64, sub64}
use cascade.Storage.Bytes.{le_bytes, load, store, of_le}
use cascade.Storage.Crc32.{crc32}

abbrev pub record_header_size : ℕ
record_header_size = 16

abbrev pub index_interval_bytes : ℕ
index_interval_bytes = 4096

pub record ReadResult : Type 0 where
  pub offset : ℕ
  pub payload : List ℕ

pub record IndexEntry : Type 0 where
  pub offset : ℕ
  pub pos : ℕ

-- `bytes` is what `data_` points at, `mapped_len` bytes of it mapped.
pub record Segment : Type 0 where
  pub base_offset : ℕ
  pub max_bytes : ℕ
  pub bytes : List ℕ
  pub mapped_len : ℕ
  pub write_pos : ℕ
  pub next_offset : ℕ
  pub record_count : ℕ
  pub sealed : Bool
  pub index : List IndexEntry
  pub bytes_since_last_index : ℕ

pub maybe_index : ℕ → ℕ → ℕ → Segment → Segment
maybe_index offset pos record_size s =
    let since = add64 s.bytes_since_last_index record_size in
    let due = is_empty s.index || leb index_interval_bytes since in
    record s {
      index = if due then s.index ++ record { offset = offset; pos = pos } ∷ [] else s.index;
      bytes_since_last_index = if due then 0 else since;
    }

-- The four `memcpy` calls of a record.
pub store_record : ℕ → ℕ → List ℕ → List ℕ → List ℕ
store_record pos offset payload bytes = store (pos + record_header_size) payload (
    store (pos + 12) (le_bytes 4 (crc32 payload))
      (store (pos + 8) (le_bytes 4 (length payload)) (store pos (le_bytes 8 offset) bytes)))

-- A payload is at most 2 ^ 32 - 1 bytes, the range of the source's `len`.
pub append : List ℕ → Segment → Option ℕ × Segment
append payload s =
    let needed = add64 record_header_size (length payload) in
    if s.sealed
    then (none, s)
    else if ltb s.mapped_len (add64 s.write_pos needed)
    then (none, s)
    else (
      some s.next_offset,
      maybe_index s.next_offset s.write_pos needed (record s {
        bytes = store_record s.write_pos s.next_offset payload s.bytes;
        write_pos = add64 s.write_pos needed;
        next_offset = add64 s.next_offset 1;
        record_count = add64 s.record_count 1;
      }),
    )

-- The body of the loop of `replay` at `write_pos`, the scan's position, and `next_offset`, the
-- offset that it expects: `none` is a `break`.
pub replay_step : Segment → Option Segment
replay_step s =
    let rec_offset = load s.write_pos 8 s.bytes in
    let len = load (s.write_pos + 8) 4 s.bytes in
    let crc = load (s.write_pos + 12) 4 s.bytes in
    let size = record_header_size + len in
    let end = add64 (add64 s.write_pos record_header_size) len in
    if (rec_offset == 0) && (len == 0) && (crc == 0)
    then none
    else if not (rec_offset == s.next_offset)
    then none
    else if ltb s.mapped_len end
    then none
    else if not (crc32 (take len (drop (s.write_pos + record_header_size) s.bytes)) == crc)
    then none
    else some (record (maybe_index rec_offset s.write_pos size s) {
      write_pos = add64 s.write_pos size;
      next_offset = add64 s.next_offset 1;
      record_count = add64 s.record_count 1;
    })

pub replay_loop : ℕ → Segment → Segment
replay_loop zero s = s
replay_loop (suc fuel) s =
    if ltb s.mapped_len (add64 s.write_pos record_header_size)
    then s
    else elim (replay_step s) [ none ↦ s | some t ↦ replay_loop fuel t ]

-- A record takes 16 bytes or more, so the mapped length is fuel enough.
pub replay : Segment → Segment
replay s = replay_loop s.mapped_len (record s {
  write_pos = 0;
  next_offset = s.base_offset;
  index = [];
  bytes_since_last_index = 0;
})

-- The loop of `read_from`. It reads the checksum as well, and does not use it.
pub read_loop : ℕ → Segment → ℕ → ℕ → Option ReadResult
read_loop zero s target pos = none
read_loop (suc fuel) s target pos =
    let rec_offset = load pos 8 s.bytes in
    let len = load (pos + 8) 4 s.bytes in
    let end = add64 (add64 pos record_header_size) len in
    let found : ReadResult = record {
      offset = rec_offset;
      payload = take len (drop (pos + record_header_size) s.bytes);
    } in
    let later = read_loop fuel s target (add64 pos (record_header_size + len)) in
    if ltb s.write_pos (add64 pos record_header_size)
    then none
    else if ltb s.write_pos end
    then none
    else if rec_offset == target
    then some found
    else if ltb target rec_offset
    then none
    else later

pub read_from : ℕ → ℕ → Segment → Option ReadResult
read_from target start_hint_pos s = read_loop (suc s.write_pos) s target start_hint_pos

-- `std::upper_bound` over the index, and the entry before it: the last entry ahead of the first
-- whose offset is larger than the target.
pub hint_from : ℕ → ℕ → List IndexEntry → ℕ
hint_from target best [] = best
hint_from target best (e ∷ es) = if ltb target e.offset then best else hint_from target e.pos es

pub position_hint_for : ℕ → Segment → ℕ
position_hint_for target s = hint_from target 0 s.index

-- What `sendfile_range` sends at most: `std::min(length, write_pos_ - start_pos)` on `size_t`.
pub sendfile_len : ℕ → ℕ → Segment → ℕ
sendfile_len start_pos len s = min len (sub64 s.write_pos start_pos)

pub seal : Segment → Segment
seal s = if s.sealed then s else record s {
  bytes = take s.write_pos s.bytes;
  mapped_len = if ltb 0 s.write_pos then s.write_pos else 1;
  sealed = true;
}

-- The members when the mapping is made, before `replay`.
pub mapped : List ℕ → ℕ → Bool → ℕ → ℕ → Segment
mapped bytes map_len is_old base_offset max_bytes = record {
  base_offset = base_offset;
  max_bytes = max_bytes;
  bytes = bytes;
  mapped_len = map_len;
  write_pos = 0;
  next_offset = 0;
  record_count = 0;
  sealed = is_old;
  index = [];
  bytes_since_last_index = 0;
}

-- The constructor on the file that is there, `none` if there is none. A mapping of length 0 is
-- refused by `mmap`, and the constructor throws.
pub open_segment : Option (List ℕ) → ℕ → ℕ → Option Segment
open_segment none base_offset max_bytes =
    if max_bytes == 0
    then none
    else some (replay (mapped (replicate max_bytes 0) max_bytes false base_offset max_bytes))
open_segment (some file) base_offset max_bytes =
    if ltb 0 (length file) && ltb (length file) max_bytes
    then some (replay (mapped file (length file) true base_offset max_bytes))
    else if max_bytes == 0
    then none
    else if length file == 0
    then some (replay (mapped (replicate max_bytes 0) max_bytes false base_offset max_bytes))
    else some (replay (mapped file max_bytes false base_offset max_bytes))
