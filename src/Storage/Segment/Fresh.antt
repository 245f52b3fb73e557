-- ===== src/Storage/Segment/Fresh.antt =====
-- A segment when it is new, and when it is sealed.
use cascade.Base.{
  ℕ, zero, suc, ◌+◌, ◌-◌, ◌^◌, ◌<◌, ◌≡◌, refl, ap, sym, subst, ◌∙◌, true, false, List, [], arith,
  length, take, drop, replicate, length-take, length-replicate, none, some, Bool-cases, inl, inr,
  take-length, ==_ne,
}
use cascade.Storage.Bytes.{load, of_le}
use cascade.Storage.Segment.{Segment, seal, mapped, replay, replay_step, open_segment}
use cascade.Storage.Segment.Layout.{Holds, encode}
use cascade.Storage.Segment.Keep.{loop_stop}

-- Sealing keeps what the segment holds, and nothing can be appended any more.
pub seal-Holds :
    (s : Segment) (ps : List (List ℕ)) → Holds s ps → Holds (seal s) ps × ((seal s).sealed ≡ true)
unfolding seal
seal-Holds s ps h = elim (Bool-cases s.sealed) [
  | inl e ↦
      let same : seal s ≡ s = ground arith in
      (subst (λ t. Holds t ps) (sym same) h, ap (λ (t : Segment). t.sealed) same ∙ e)
  | inr e ↦ rw e (
    record {
      stored = cut ∙ h.stored;
      ended = h.ended;
      room = omega (arith, length-take s.write_pos s.bytes, h.room);
      fits = ground arith;
      backed = λ x. absurd (cc);
      next = h.next;
      counted = h.counted;
      payloads = h.payloads;
      indexed = h.indexed;
      small_offsets = h.small_offsets;
      small_memory = ground (arith, h.small_memory, h.fits);
    },
    refl,
  )
]
  where
    cut : take s.write_pos (take s.write_pos s.bytes) ≡ take s.write_pos s.bytes
    cut =
        let n : length (take s.write_pos s.bytes) ≡ s.write_pos =
          omega (arith, length-take s.write_pos s.bytes, h.room) in
        ap (λ k. take k (take s.write_pos s.bytes)) (sym n) ∙ take-length (take s.write_pos s.bytes)

pub seal_keeps : (s : Segment) → (seal s).base_offset ≡ s.base_offset
unfolding seal
seal_keeps s = ground arith

drop-zeros : (j n : ℕ) → drop j (replicate n 0) ≡ replicate {A = ℕ} (n - j) 0
drop-zeros zero n = let e : n - 0 ≡ n = omega arith in rw e
drop-zeros (suc j) zero = let e : 0 - suc j ≡ 0 = omega arith in rw e
drop-zeros (suc j) (suc n) = let e : suc n - suc j ≡ n - j = omega arith in rw e (drop-zeros j n)

of_le-zeros : (k n : ℕ) → of_le (take k (replicate n 0)) ≡ 0
unfolding of_le
of_le-zeros zero n = refl
of_le-zeros (suc k) zero = refl
of_le-zeros (suc k) (suc n) = omega (arith, of_le-zeros k n)

load-zeros : (pos k n : ℕ) → load pos k (replicate n 0) ≡ 0
unfolding load
load-zeros pos k n = rw (drop-zeros pos n) (of_le-zeros k (n - pos))

zeros_stop : (s : Segment) (n : ℕ) → s.bytes ≡ replicate n 0 → replay_step s ≡ none
unfolding replay_step
zeros_stop s n e = rw (
  e,
  load-zeros s.write_pos 8 n,
  load-zeros (s.write_pos + 8) 4 n,
  load-zeros (s.write_pos + 12) 4 n,
)

-- The new file of a segment, zeros, holds nothing; its first offset is the base.
pub open_segment-Holds :
    (base max : ℕ)
    → 0 < max
    → max < 2 ^ 63
    → base < 2 ^ 64
    → (s : Segment) × (open_segment none base max ≡ some s)
      × Holds s []
      × (s.sealed ≡ false)
      × (s.mapped_len ≡ max)
      × (s.base_offset ≡ base)
unfolding open_segment replay mapped
open_segment-Holds base max pos small offset = (
  record (mapped (replicate max 0) max false base max) { next_offset = base },
  rw (==_ne max 0 (omega arith)) (ap some (loop_stop max _ (zeros_stop _ max refl))),
  record {
    stored = unfold encode in refl;
    ended = unfold encode in refl;
    room = omega arith;
    fits = omega arith;
    backed = λ e. omega (arith, length-replicate {A = ℕ} max 0);
    next = omega arith;
    counted = refl;
    payloads = tt;
    indexed = tt;
    small_offsets = omega arith;
    small_memory = small;
  },
  refl,
  refl,
  refl,
)
