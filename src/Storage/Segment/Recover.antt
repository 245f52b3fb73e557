-- ===== src/Storage/Segment/Recover.antt =====
-- `replay`: what a segment holds after it is opened again, whatever the crash left in its file.
use cascade.Base.{
  ℕ, zero, suc, ◌+◌, ◌*◌, ◌^◌, ◌≤◌, ◌<◌, ◌≡◌, ap, ap₂, sym, ◌∙◌, List, [], ◌∷◌, ◌++◌, append_assoc,
  append-nil, arith, length, take, drop, length-append, length-take, length-drop, drop-drop, some,
  ltb, Bool-cases, Option-cases, inl, inr, take-add,
}
use cascade.Base.Word.{add64}
use cascade.Storage.Bytes.{
  AreBytes, AreBytes-take, AreBytes-drop, load, load-lt, le_bytes-load, le_bytes,
}
use cascade.Storage.Crc32.{crc32}
use cascade.Storage.Segment.{Segment, maybe_index, replay_step, replay_loop}
use cascade.Storage.Segment.Layout.{
  record_bytes, length-record_bytes, encode, encode-snoc, IsPayload, ArePayloads-snoc, Holds,
  maybe_index-IsIndex,
}

-- The scan past a record with a payload of `l` bytes, the sums not wrapping.
abbrev pub scanned : Segment → ℕ → Segment
scanned s l = record (maybe_index s.next_offset s.write_pos (16 + l) s) {
  write_pos = s.write_pos + (16 + l);
  next_offset = s.next_offset + 1;
  record_count = s.record_count + 1;
}

-- The file stands behind the mapping, and its numbers stay far from the limits of 64 bits.
pub record IsMapped (s : Segment) : Type 0 where
  pub bytes : AreBytes s.bytes
  pub backed : s.mapped_len ≤ length s.bytes
  pub small_memory : s.mapped_len < 2 ^ 63
  pub small_offsets : s.base_offset + s.mapped_len + 1 < 2 ^ 64

-- The record at the scan's position is the one of `p`.
abbrev pub IsNext : Segment → List ℕ → Type 0
IsNext s p =
    IsPayload p
    × (take (16 + length p) (drop s.write_pos s.bytes) ≡ record_bytes s.next_offset p)
    × (s.write_pos + (16 + length p) ≤ s.mapped_len)

pub length-encode_ge : (o : ℕ) (ps : List (List ℕ)) → 16 * length ps ≤ length (encode o ps)
unfolding encode
length-encode_ge o [] = omega arith
length-encode_ge o (p ∷ ps) = omega (
  arith,
  length-append (record_bytes o p) (encode (o + 1) ps),
  length-record_bytes o p,
  length-encode_ge (o + 1) ps,
)

pub scanned-Holds :
    (s : Segment) (ps : List (List ℕ)) (p : List ℕ)
    → IsMapped s
    → Holds s ps
    → IsNext s p
    → Holds (scanned s (length p)) (ps ++ p ∷ [])
unfolding maybe_index
scanned-Holds s ps p m h (ok, there, fits) =
    let more = length-append {0} ps (p ∷ []) in
    let many = length-encode_ge s.base_offset ps in
    let both = encode-snoc s.base_offset ps p in
    let stored : take (s.write_pos + (16 + length p)) s.bytes
        ≡ encode s.base_offset (ps ++ p ∷ []) =
      take-add s.write_pos (16 + length p) s.bytes
      ∙ ap₂ ◌++◌ h.stored (there ∙ ap (λ o. record_bytes o p) h.next)
      ∙ sym both in
    record {
      stored = stored;
      ended =
          omega (
            arith,
            ap length stored,
            length-take (s.write_pos + (16 + length p)) s.bytes,
            m.backed,
          );
      room = omega (arith, m.backed);
      fits = fits;
      backed = λ e. m.backed;
      next = omega (arith, h.next);
      counted = omega (arith, h.counted);
      payloads = ArePayloads-snoc ps p h.payloads ok;
      indexed =
          maybe_index-IsIndex s s.base_offset ps p s.next_offset s.write_pos (16 + length p)
            h.indexed h.next h.ended;
      small_offsets = omega (arith, h.ended, m.small_offsets);
      small_memory = m.small_memory;
    }

-- Four fields side by side, from what the loads give.
raw_record :
    (w len : ℕ) (bytes : List ℕ)
    → AreBytes bytes
    → w + (16 + len) ≤ length bytes
    → take (16 + len) (drop w bytes)
      ≡ le_bytes 8 (load w 8 bytes)
        ++ (le_bytes 4 (load (w + 8) 4 bytes)
            ++ (le_bytes 4 (load (w + 12) 4 bytes) ++ take len (drop (w + 16) bytes)))
raw_record w len bytes h fits =
    let a : 16 + len ≡ 8 + (4 + (4 + len)) = omega arith in
    let b : w + 8 + 4 ≡ w + 12 = omega arith in
    let c : w + 12 + 4 ≡ w + 16 = omega arith in
    rw (
      a,
      take-add 8 (4 + (4 + len)) (drop w bytes),
      drop-drop 8 w bytes,
      take-add 4 (4 + len) (drop (w + 8) bytes),
      drop-drop 4 (w + 8) bytes,
      b,
      take-add 4 len (drop (w + 12) bytes),
      drop-drop 4 (w + 12) bytes,
      c,
      le_bytes-load w 8 bytes h (omega arith),
      le_bytes-load (w + 8) 4 bytes h (omega arith),
      le_bytes-load (w + 12) 4 bytes h (omega arith),
    )

same_record :
    {o' l' c' : ℕ} (o : ℕ) (p : List ℕ)
    → o' ≡ o
    → l' ≡ length p
    → c' ≡ crc32 p
    → le_bytes 8 o' ++ (le_bytes 4 l' ++ (le_bytes 4 c' ++ p)) ≡ record_bytes o p
unfolding record_bytes
same_record o p e f g = rw (e, f, g)

abbrev len_at : Segment → ℕ
len_at s = load (s.write_pos + 8) 4 s.bytes

abbrev payload_at : Segment → List ℕ
payload_at s = take (len_at s) (drop (s.write_pos + 16) s.bytes)

-- The tests that an accepted record has passed.
record Accepted (s t : Segment) : Type 0 where
  offset : load s.write_pos 8 s.bytes ≡ s.next_offset
  fits : s.write_pos + (16 + len_at s) ≤ s.mapped_len
  crc : crc32 (payload_at s) ≡ load (s.write_pos + 12) 4 s.bytes
  result : t ≡ scanned s (len_at s)

accepted :
    (s t : Segment)
    → IsMapped s
    → s.write_pos ≤ s.mapped_len
    → s.next_offset + 1 < 2 ^ 64
    → s.record_count + 1 < 2 ^ 64
    → replay_step s ≡ some t
    → Accepted s t
unfolding replay_step
accepted s t m h next count e =
    let small = load-lt (s.write_pos + 8) 4 s.bytes m.bytes in
    let a : add64 (add64 s.write_pos 16) (len_at s) ≡ s.write_pos + (16 + len_at s) =
      omega (arith, m.small_memory) in
    let b : add64 s.write_pos (16 + len_at s) ≡ s.write_pos + (16 + len_at s) =
      omega (arith, m.small_memory) in
    let c : add64 s.next_offset 1 ≡ s.next_offset + 1 = omega arith in
    let d : add64 s.record_count 1 ≡ s.record_count + 1 = omega arith in
    let f = rw (a, b, c, d) at e in
    let o : load s.write_pos 8 s.bytes ≡ s.next_offset = ground (arith, f) in
    record {
      offset = o;
      fits = ground (arith, f);
      crc = ground (arith, f);
      result = ground (arith, rw o at f);
    }

-- What the scan accepts is a record of the expected offset.
step_sound :
    (s t : Segment) (ps : List (List ℕ))
    → IsMapped s
    → Holds s ps
    → replay_step s ≡ some t
    → (p : List ℕ) × IsNext s p × (t ≡ scanned s (length p))
step_sound s t ps m h e =
    let many = length-encode_ge s.base_offset ps in
    let acc =
      accepted s t m h.fits (omega (arith, h.ended, h.next)) (omega (arith, h.ended, h.counted))
        e in
    let len = length-take (len_at s) (drop (s.write_pos + 16) s.bytes) in
    let rest = length-drop (s.write_pos + 16) s.bytes in
    let full : length (payload_at s) ≡ len_at s = omega (arith, acc.fits, m.backed) in
    let small = load-lt (s.write_pos + 8) 4 s.bytes m.bytes in
    (
      payload_at s,
      (
        record {
          bytes =
              AreBytes-take (len_at s) (drop (s.write_pos + 16) s.bytes)
                (AreBytes-drop (s.write_pos + 16) s.bytes m.bytes);
          short = omega arith;
        },
        rw full (
            raw_record s.write_pos (len_at s) s.bytes m.bytes (omega (arith, acc.fits, m.backed))
            ∙ same_record s.next_offset (payload_at s) acc.offset (sym full) (sym acc.crc)),
        rw full acc.fits,
      ),
      rw full acc.result,
    )

-- However far the scan gets, what it has passed are records; it only adds to them.
pub replay_loop-Holds :
    (fuel : ℕ) (s : Segment) (ps : List (List ℕ))
    → IsMapped s
    → Holds s ps
    → (qs : List (List ℕ)) × Holds (replay_loop fuel s) (ps ++ qs)
unfolding replay_loop maybe_index
replay_loop-Holds zero s ps m h = ([], rw append-nil h)
replay_loop-Holds (suc fuel) s ps m h =
    elim (Bool-cases (ltb s.mapped_len (add64 s.write_pos 16))) [
      | inl over ↦ ([], rw (over, append-nil) h)
      | inr more ↦ elim (Option-cases (replay_step s)) [
        | inl stop ↦ ([], rw (more, stop, append-nil) h)
        | inr (t, e) ↦
            let (p, next, same) = step_sound s t ps m h e in
            let m' : IsMapped t = rw same (record {
              bytes = m.bytes;
              backed = m.backed;
              small_memory = m.small_memory;
              small_offsets = m.small_offsets;
            }) in
            let h' : Holds t (ps ++ p ∷ []) = rw same (scanned-Holds s ps p m h next) in
            let (qs, out) = replay_loop-Holds fuel t (ps ++ p ∷ []) m' h' in
            (p ∷ qs, rw (more, e) (rw (append_assoc ps (p ∷ []) qs) at out))
      ]
    ]
