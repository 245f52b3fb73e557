-- ===== src/Storage/Segment/Keep.antt =====
-- What was wholly written before a crash is there after `replay`.
use cascade.Base.{
  ℕ, zero, suc, ◌+◌, ◌^◌, ◌≤◌, ◌<◌, ◌≡◌, ◌≢◌, refl, ap, sym, ◌∙◌, ◌⊎◌, Bool, false, List, [], ◌∷◌,
  ◌++◌, append_assoc, arith, length, take, drop, length-append, length-take, take-append,
  drop-append, take-append-drop, drop-drop, none, some, ltb, inl, le→ltb,
}
use cascade.Base.Word.{add64}
use cascade.Storage.Bytes.{load, le_bytes, of_le}
use cascade.Storage.Crc32.{crc32, crc_loop}
use cascade.Storage.Segment.{Segment, maybe_index, replay_step, replay_loop, replay}
use cascade.Storage.Segment.Layout.{
  record_bytes, length-record_bytes, encode, IsPayload, ArePayloads, Holds, load_offset, load_len,
  load_crc, load_payload,
}
use cascade.Storage.Segment.{mapped}
use cascade.Storage.Segment.Recover.{
  scanned, IsMapped, IsNext, scanned-Holds, replay_loop-Holds, length-encode_ge,
}

-- A record that is there, whole and not mistaken for untouched memory, is accepted.
step_complete :
    (s : Segment) (p free : List ℕ)
    → IsMapped s
    → IsPayload p
    → s.bytes ≡ take s.write_pos s.bytes ++ (record_bytes s.next_offset p ++ free)
    → s.write_pos + (16 + length p) ≤ s.mapped_len
    → s.next_offset + 1 < 2 ^ 64
    → s.record_count + 1 < 2 ^ 64
    → (s.next_offset ≢ 0) ⊎ (length p ≢ 0)
    → replay_step s ≡ some (scanned s (length p))
unfolding replay_step
step_complete s p free m ok there fits next count real =
    let pre = take s.write_pos s.bytes in
    let at : s.write_pos ≡ length pre = omega (arith, length-take s.write_pos s.bytes, m.backed) in
    let a : add64 (add64 s.write_pos 16) (length p) ≡ s.write_pos + (16 + length p) =
      omega (arith, m.small_memory) in
    let b : add64 s.write_pos (16 + length p) ≡ s.write_pos + (16 + length p) =
      omega (arith, m.small_memory) in
    let c : add64 s.next_offset 1 ≡ s.next_offset + 1 = omega arith in
    let d : add64 s.record_count 1 ≡ s.record_count + 1 = omega arith in
    let o : load s.write_pos 8 s.bytes ≡ s.next_offset =
      ap (load s.write_pos 8) there
      ∙ load_offset s.write_pos s.next_offset pre p free at (omega arith) ok in
    let l : load (s.write_pos + 8) 4 s.bytes ≡ length p =
      ap (load (s.write_pos + 8) 4) there
      ∙ load_len s.write_pos s.next_offset pre p free at (omega arith) ok in
    let k : load (s.write_pos + 12) 4 s.bytes ≡ crc32 p =
      ap (load (s.write_pos + 12) 4) there
      ∙ load_crc s.write_pos s.next_offset pre p free at (omega arith) ok in
    let y : take (length p) (drop (s.write_pos + 16) s.bytes) ≡ p =
      ap (λ xs. take (length p) (drop (s.write_pos + 16) xs)) there
      ∙ load_payload s.write_pos s.next_offset pre p free at (omega arith) ok in
    rw (o, l, k, y, a, b, c, d) (ground arith)

-- The one record that recovery cannot tell from untouched memory: empty, at offset 0.
abbrev pub IsReal : ℕ → List (List ℕ) → Type 0
IsReal o [] = Unit {0}
IsReal o (q ∷ qs) = (o ≢ 0) ⊎ (length q ≢ 0)

IsReal-suc : (o : ℕ) (qs : List (List ℕ)) → IsReal (o + 1) qs
IsReal-suc o [] = tt
IsReal-suc o (q ∷ qs) = inl (omega arith)

length-encode_cons :
    (o : ℕ) (q : List ℕ) (qs : List (List ℕ))
    → length (encode o (q ∷ qs)) ≡ 16 + length q + length (encode (o + 1) qs)
unfolding encode
length-encode_cons o q qs =
    omega (arith, length-append (record_bytes o q) (encode (o + 1) qs), length-record_bytes o q)

encode_first :
    (o : ℕ) (q : List ℕ) (qs : List (List ℕ)) (free : List ℕ)
    → encode o (q ∷ qs) ++ free ≡ record_bytes o q ++ (encode (o + 1) qs ++ free)
unfolding encode
encode_first o q qs free = append_assoc (record_bytes o q) (encode (o + 1) qs) free

loop_step :
    (fuel : ℕ) (s t : Segment)
    → ltb s.mapped_len (add64 s.write_pos 16) ≡ false
    → replay_step s ≡ some t
    → replay_loop (suc fuel) s ≡ replay_loop fuel t
unfolding replay_loop
loop_step fuel s t more e = rw (more, e)

scanned-IsMapped : (s : Segment) (l : ℕ) → IsMapped s → IsMapped (scanned s l)
unfolding maybe_index
scanned-IsMapped s l m = record {
  bytes = m.bytes;
  backed = m.backed;
  small_memory = m.small_memory;
  small_offsets = m.small_offsets;
}

-- The scan goes over all records that stand at its position.
replay_loop_keeps :
    (fuel : ℕ) (s : Segment) (ps qs : List (List ℕ)) (free : List ℕ)
    → IsMapped s
    → Holds s ps
    → drop s.write_pos s.bytes ≡ encode s.next_offset qs ++ free
    → ArePayloads qs
    → s.write_pos + length (encode s.next_offset qs) ≤ s.mapped_len
    → length (encode s.next_offset qs) ≤ fuel
    → IsReal s.next_offset qs
    → (more : List (List ℕ)) × Holds (replay_loop fuel s) (ps ++ (qs ++ more))
unfolding maybe_index
replay_loop_keeps fuel s ps [] free m h there ok fits enough real = replay_loop-Holds fuel s ps m h
replay_loop_keeps zero s ps (q ∷ qs) free m h there ok fits enough real =
    absurd (omega (arith, length-encode_cons s.next_offset q qs))
replay_loop_keeps (suc fuel) s ps (q ∷ qs) free m h there ok fits enough real =
    let l = length-encode_cons s.next_offset q qs in
    let many = length-encode_ge s.base_offset ps in
    let rest = encode (s.next_offset + 1) qs ++ free in
    let first : drop s.write_pos s.bytes ≡ record_bytes s.next_offset q ++ rest =
      there ∙ encode_first s.next_offset q qs free in
    let size = length-record_bytes s.next_offset q in
    let w : add64 s.write_pos 16 ≡ s.write_pos + 16 = omega (arith, m.small_memory) in
    let step =
      step_complete s q rest m ok.0
        (sym (take-append-drop s.write_pos s.bytes) ∙ ap (◌++◌ (take s.write_pos s.bytes)) first)
        (omega arith) (omega (arith, h.ended, h.next)) (omega (arith, h.ended, h.counted)) real in
    let next : IsNext s q = (
      ok.0,
      ap (take (16 + length q)) first
          ∙ take-append (16 + length q) (record_bytes s.next_offset q) rest (sym size),
      omega arith,
    ) in
    let behind : drop (s.write_pos + (16 + length q)) s.bytes ≡ rest =
      sym (drop-drop (16 + length q) s.write_pos s.bytes)
      ∙ ap (drop (16 + length q)) first
      ∙ drop-append (16 + length q) (record_bytes s.next_offset q) rest (sym size) in
    let (more, out) =
      replay_loop_keeps fuel (scanned s (length q)) (ps ++ q ∷ []) qs free
        (scanned-IsMapped s (length q) m) (scanned-Holds s ps q m h next) behind ok.1 (omega arith)
        (omega arith) (IsReal-suc s.next_offset qs) in
    (
      more,
      rw
          (loop_step fuel s (scanned s (length q))
            (rw w (le→ltb s.mapped_len (s.write_pos + 16) (omega arith))) step)
          (rw (append_assoc ps (q ∷ []) (qs ++ more)) at out),
    )

started :
    (file : List ℕ) (map_len base max : ℕ) (old : Bool)
    → IsMapped (mapped file map_len old base max)
    → IsMapped (record (mapped file map_len old base max) { next_offset = base })
      × Holds (record (mapped file map_len old base max) { next_offset = base }) []
unfolding mapped encode
started file map_len base max old m = (
  record {
    bytes = m.bytes;
    backed = m.backed;
    small_memory = m.small_memory;
    small_offsets = m.small_offsets;
  },
  record {
    stored = refl;
    ended = refl;
    room = omega arith;
    fits = omega arith;
    backed = λ e. m.backed;
    next = omega arith;
    counted = refl;
    payloads = tt;
    indexed = tt;
    small_offsets = omega (arith, m.small_offsets);
    small_memory = m.small_memory;
  },
)

-- A file that begins with records `qs` of consecutive offsets, each written in full, and goes on in
-- any way (a record torn by the crash, zeros, garbage) opens as a segment that holds `qs`, in order
-- and first, the one exception being an empty first record at offset 0.
pub replay_keeps :
    (file : List ℕ) (map_len base max : ℕ) (old : Bool) (qs : List (List ℕ)) (free : List ℕ)
    → IsMapped (mapped file map_len old base max)
    → file ≡ encode base qs ++ free
    → ArePayloads qs
    → length (encode base qs) ≤ map_len
    → IsReal base qs
    → (more : List (List ℕ)) × Holds (replay (mapped file map_len old base max)) (qs ++ more)
unfolding replay mapped
replay_keeps file map_len base max old qs free m there ok fits real =
    replay_loop_keeps map_len (record (mapped file map_len old base max) { next_offset = base }) []
      qs free (started file map_len base max old m).0 (started file map_len base max old m).1 there
      ok (omega arith) fits real

pub loop_stop : (fuel : ℕ) (s : Segment) → replay_step s ≡ none → replay_loop fuel s ≡ s
unfolding replay_loop
loop_stop zero s e = refl
loop_stop (suc fuel) s e = rw e (ground arith)

empty_none :
    (rest : List ℕ) (map_len max : ℕ) (old : Bool)
    → replay_step (mapped (record_bytes 0 [] ++ rest) map_len old 0 max) ≡ none
unfolding replay_step mapped record_bytes le_bytes load of_le crc32 crc_loop
empty_none rest map_len max old = refl

-- The exception: behind an empty first record at offset 0 nothing is found, whatever follows it.
pub replay-empty_first :
    (rest : List ℕ) (map_len max : ℕ) (old : Bool)
    → let s = replay (mapped (record_bytes 0 [] ++ rest) map_len old 0 max) in
      (s.write_pos ≡ 0) × (s.next_offset ≡ 0) × (s.record_count ≡ 0)
unfolding replay mapped
replay-empty_first rest map_len max old =
    let s : Segment = mapped (record_bytes 0 [] ++ rest) map_len old 0 max in
    let stop = loop_stop map_len s (empty_none rest map_len max old) in rw stop (refl, refl, refl)
