-- ===== src/Storage/Segment/Append.antt =====
-- `append` against the layout.
use cascade.Base.{
  ℕ, ◌+◌, ◌^◌, ◌≤◌, ◌<◌, ◌≡◌, ap, sym, ◌∙◌, true, false, List, [], ◌∷◌, ◌++◌, append_assoc, arith,
  length, take, drop, length-append, length-take, length-drop, take-append, take-append-drop,
  drop-drop, le→ltb, none, some, ◌↔◌, ◌⊎◌,
}
use cascade.Base.Word.{add64}
use cascade.Storage.Bytes.{le_bytes, length-le_bytes, store-append}
use cascade.Storage.Crc32.{crc32}
use cascade.Storage.Segment.{Segment, store_record, append, maybe_index}
use cascade.Storage.Segment.Layout.{
  record_bytes, length-record_bytes, encode, encode-snoc, IsPayload, ArePayloads-snoc, Holds,
  maybe_index-IsIndex,
}

append_shape :
    (pre a b c p rest : List ℕ)
    → ((((pre ++ a) ++ b) ++ c) ++ p) ++ rest ≡ (pre ++ (a ++ (b ++ (c ++ p)))) ++ rest
append_shape pre a b c p rest = simp append_assoc

-- The four stores write one record behind what is there.
store_record-append :
    (pos o : ℕ) (p pre free : List ℕ)
    → pos ≡ length pre
    → store_record pos o p (pre ++ free) ≡ (pre ++ record_bytes o p) ++ drop (16 + length p) free
unfolding store_record record_bytes
store_record-append pos o p pre free e =
    let a = le_bytes 8 o in
    let b = le_bytes 4 (length p) in
    let c = le_bytes 4 (crc32 p) in
    let la = length-le_bytes 8 o in
    let lb = length-le_bytes 4 (length p) in
    let lc = length-le_bytes 4 (crc32 p) in
    let lpa = length-append pre a in
    let lpb = length-append (pre ++ a) b in
    let lpc = length-append ((pre ++ a) ++ b) c in
    let sum : 8 + (4 + (4 + length p)) ≡ 16 + length p = omega arith in
    rw
      (
        store-append pos pre a free e,
        store-append (pos + 8) (pre ++ a) b (drop (length a) free) (omega arith),
        store-append (pos + 12) ((pre ++ a) ++ b) c (drop (length b) (drop (length a) free))
            (omega arith),
        store-append (pos + 16) (((pre ++ a) ++ b) ++ c) p
            (drop (length c) (drop (length b) (drop (length a) free))) (omega arith),
        la,
        lb,
        lc,
      )
      (append_shape pre a b c p (drop (length p) (drop 4 (drop 4 (drop 8 free))))
        ∙ ap (◌++◌ (pre ++ (a ++ (b ++ (c ++ p))))) (drops ∙ ap (λ n. drop n free) sum))
  where
    drops : drop (length p) (drop 4 (drop 4 (drop 8 free))) ≡ drop (8 + (4 + (4 + length p))) free
    drops = rw (
      drop-drop (length p) 4 (drop 4 (drop 8 free)),
      drop-drop (4 + length p) 4 (drop 8 free),
      drop-drop (4 + (4 + length p)) 8 free,
    )

-- The same on a memory whose first `pos` bytes are `pre`.
store_record-take :
    (pos o : ℕ) (p pre bytes : List ℕ)
    → take pos bytes ≡ pre
    → pos ≤ length bytes
    → store_record pos o p bytes ≡ (pre ++ record_bytes o p) ++ drop (pos + (16 + length p)) bytes
store_record-take pos o p pre bytes e h =
    ap (store_record pos o p) (sym (take-append-drop pos bytes) ∙ ap (λ xs. xs ++ drop pos bytes) e)
    ∙ store_record-append pos o p pre (drop pos bytes)
        (omega (arith, ap length e, length-take pos bytes))
    ∙ ap (◌++◌ (pre ++ record_bytes o p)) (drop-drop (16 + length p) pos bytes)

-- There is room for the record of `p`.
abbrev pub HasRoom : Segment → List ℕ → Type 0
HasRoom s p = s.write_pos + (16 + length p) ≤ s.mapped_len

-- What `append` leaves where it writes, the sums not wrapping.
abbrev written : Segment → List ℕ → Segment
written s p = maybe_index s.next_offset s.write_pos (16 + length p) (record s {
  bytes = store_record s.write_pos s.next_offset p s.bytes;
  write_pos = s.write_pos + (16 + length p);
  next_offset = s.next_offset + 1;
  record_count = s.record_count + 1;
})

written_lem :
    (s : Segment) (p : List ℕ)
    → s.sealed ≡ false
    → HasRoom s p
    → s.next_offset + 1 < 2 ^ 64
    → s.mapped_len < 2 ^ 63
    → s.record_count + 1 < 2 ^ 64
    → append p s ≡ (some s.next_offset, written s p)
unfolding append
written_lem s p active room next memory count =
    let n : add64 16 (length p) ≡ 16 + length p = omega arith in
    let w : add64 s.write_pos (16 + length p) ≡ s.write_pos + (16 + length p) = omega arith in
    let o : add64 s.next_offset 1 ≡ s.next_offset + 1 = omega arith in
    let c : add64 s.record_count 1 ≡ s.record_count + 1 = omega arith in
    rw (n, w, o, c, active, le→ltb s.mapped_len (s.write_pos + (16 + length p)) room)

module _ (s : Segment) (ps : List (List ℕ)) (p : List ℕ) (h : Holds s ps) (ok : IsPayload p)
    (active : s.sealed ≡ false) (room : HasRoom s p)
    (small : s.base_offset + length ps + 1 < 2 ^ 64) where
  new_bytes :
      store_record s.write_pos s.next_offset p s.bytes
      ≡ encode s.base_offset (ps ++ p ∷ []) ++ drop (s.write_pos + (16 + length p)) s.bytes
  new_bytes =
      rw (encode-snoc s.base_offset ps p, ← h.next)
        (store_record-take s.write_pos s.next_offset p (encode s.base_offset ps) s.bytes h.stored
          h.room)

  new_end : s.write_pos + (16 + length p) ≡ length (encode s.base_offset (ps ++ p ∷ []))
  new_end = rw (encode-snoc s.base_offset ps p) (
      omega (
        arith,
        h.ended,
        length-append (encode s.base_offset ps) (record_bytes (s.base_offset + length ps) p),
        length-record_bytes (s.base_offset + length ps) p,
      ))

  new_length : length (store_record s.write_pos s.next_offset p s.bytes) ≡ length s.bytes
  new_length = omega (
    arith,
    ap length new_bytes,
    new_end,
    h.backed active,
    length-append (encode s.base_offset (ps ++ p ∷ []))
        (drop (s.write_pos + (16 + length p)) s.bytes),
    length-drop (s.write_pos + (16 + length p)) s.bytes,
  )

  written-Holds : Holds (written s p) (ps ++ p ∷ [])
  unfolding maybe_index
  written-Holds =
      let more = length-append {0} ps (p ∷ []) in
      record {
        stored = rw new_bytes (take-append _ _ _ new_end);
        ended = new_end;
        room = omega (arith, new_length, h.backed active);
        fits = room;
        backed = λ e. omega (arith, new_length, h.backed active);
        next = omega arith;
        counted = omega arith;
        payloads = ArePayloads-snoc ps p h.payloads ok;
        indexed =
            maybe_index-IsIndex s s.base_offset ps p s.next_offset s.write_pos (16 + length p)
              h.indexed h.next h.ended;
        small_offsets = omega arith;
        small_memory = h.small_memory;
      }

-- `append` to a segment that is not sealed and has room returns the next offset, and the segment
-- then holds the payload behind the others.
pub append-Holds :
    (s : Segment) (ps : List (List ℕ)) (p : List ℕ)
    → Holds s ps
    → IsPayload p
    → s.sealed ≡ false
    → HasRoom s p
    → s.base_offset + length ps + 1 < 2 ^ 64
    → ((append p s).0 ≡ some (s.base_offset + length ps)) × Holds (append p s).1 (ps ++ p ∷ [])
append-Holds s ps p h ok active room small =
    rw (written_lem s p active room (omega arith) h.small_memory (omega arith))
      (ap some h.next, written-Holds s ps p h ok active room small)

-- `append` refuses exactly when the segment is sealed or lacks the room.
pub append-none :
    (s : Segment) (ps : List (List ℕ)) (p : List ℕ)
    → Holds s ps
    → IsPayload p
    → ((append p s).0 ≡ none) ↔ ((s.sealed ≡ true) ⊎ (s.mapped_len < s.write_pos + (16 + length p)))
unfolding append
append-none s ps p h ok = ground arith

-- A refusal leaves the segment as it was.
pub append_unchanged : (s : Segment) (p : List ℕ) → (append p s).0 ≡ none → (append p s).1 ≡ s
unfolding append
append_unchanged s p e = ground arith

-- What `append` never changes.
pub append_keeps :
    (s : Segment) (p : List ℕ)
    → ((append p s).1.base_offset ≡ s.base_offset)
      × ((append p s).1.sealed ≡ s.sealed)
      × ((append p s).1.mapped_len ≡ s.mapped_len)
unfolding append maybe_index
append_keeps s p = ground arith
