-- ===== src/Media/BitrateController/Ladder.antt =====
-- The moves on the ladder: down at once, up only after enough good readings.
use cascade.Base.{
  ℕ, ◌+◌, ◌-◌, ◌*◌, ◌≤◌, ◌<◌, ◌≡◌, refl, ap, ap₂, ◌∙◌, ◌⊎◌, inl, inr, true, List, [], ◌∷◌, arith,
  length, Bool-cases,
}
use cascade.Base.Double.{Doubles}
use cascade.Media.BitrateController.{BitrateController, bad_conditions, may_upgrade, judge}
use native.Mathlib.Decide.{dec_lt}
use native.Mathlib.Nat.{mul-le-mul_right, suc-mul}

module _ (D : Doubles) where
  -- Readings of the bandwidth and the loss, one after the other.
  pub judge_all :
      List (D.Double × D.Double) → BitrateController D.Double → BitrateController D.Double
  judge_all [] c = c
  judge_all ((bw, loss) ∷ more) c = judge_all more (judge D bw loss c)

  -- A reading goes a level down, or up after enough good readings in a row, or is counted.
  Moves : BitrateController D.Double → BitrateController D.Double → Type 0
  Moves c d =
      ((d.current_index ≡ c.current_index - 1) × (d.consecutive_good ≡ 0))
      ⊎ (((c.upgrade_confirmations ≤ c.consecutive_good + 1)
            × (c.current_index + 1 < length c.ladder)
            × (d.current_index ≡ c.current_index + 1)
            × (d.consecutive_good ≡ 0))
          ⊎ ((d.current_index ≡ c.current_index) × (d.consecutive_good ≡ c.consecutive_good + 1)))

  Same : BitrateController D.Double → BitrateController D.Double → Type 0
  Same c d = (d.ladder ≡ c.ladder) × (d.upgrade_confirmations ≡ c.upgrade_confirmations)

  judge-Moves :
      (bw loss : D.Double) (c : BitrateController D.Double)
      → Moves c (judge D bw loss c) × Same c (judge D bw loss c)
  unfolding judge may_upgrade Moves Same
  judge-Moves bw loss c =
      let counted = record c { consecutive_good = c.consecutive_good + 1 } in
      elim (Bool-cases (bad_conditions D bw loss c)) [
        | inl bad ↦ rw bad (inl (refl, refl), (refl, refl))
        | inr good ↦ elim (Bool-cases (may_upgrade D bw counted)) [
          | inl up ↦
              let enough : c.upgrade_confirmations ≤ c.consecutive_good + 1 = ground (arith, up) in
              let room : c.current_index + 1 < length c.ladder = ground (arith, up) in
              rw (good, up) (inr (inl (enough, room, refl, refl)), (refl, refl))
          | inr stay ↦ rw (good, stay) (inr (inr (refl, refl)), (refl, refl))
        ]
      ]

  -- What a level is worth in good readings, and those counted towards the next.
  standing : BitrateController D.Double → ℕ
  standing c = c.current_index * c.upgrade_confirmations + c.consecutive_good

  -- One reading is worth at most one good reading.
  standing-judge :
      (bw loss : D.Double) (c : BitrateController D.Double)
      → standing (judge D bw loss c) ≤ standing c + 1
  unfolding standing Moves Same
  standing-judge bw loss c =
      let d = judge D bw loss c in
      let n = c.upgrade_confirmations in
      let (moves, same) = judge-Moves bw loss c in
      elim moves [
        | inl (down, none_good) ↦
            let lower =
              mul-le-mul_right {m = c.current_index - 1} {n = c.current_index} n (omega arith) in
            rw (same.1, down, none_good) (omega (arith, lower))
        | inr (inl (enough, room, up, none_good)) ↦
            rw (same.1, up, none_good) (omega (arith, enough, suc-mul c.current_index n))
        | inr (inr (stay, counted)) ↦ rw (same.1, stay, counted) (omega arith)
      ]

  judge-bad :
      (bw loss : D.Double) (c : BitrateController D.Double)
      → bad_conditions D bw loss c ≡ true
      → ((judge D bw loss c).current_index ≡ c.current_index - 1)
        × ((judge D bw loss c).consecutive_good ≡ 0)
  unfolding judge
  judge-bad bw loss c bad = rw bad (refl, refl)

  judge_all-standing :
      (readings : List (D.Double × D.Double)) (c : BitrateController D.Double)
      → (standing (judge_all readings c) ≤ standing c + length readings)
        × Same c (judge_all readings c)
  unfolding judge_all Same
  judge_all-standing [] c = (omega arith, (refl, refl))
  judge_all-standing ((bw, loss) ∷ more) c =
      let d = judge D bw loss c in
      let (rest, same_rest) = judge_all-standing more d in
      let same = (judge-Moves bw loss c).1 in
      (omega (arith, rest, standing-judge bw loss c), (same_rest.0 ∙ same.0, same_rest.1 ∙ same.1))

  -- The level is always one of the ladder's, if it was so before, after any readings.
  pub judge_all-inside :
      (readings : List (D.Double × D.Double)) (c : BitrateController D.Double)
      → c.current_index < length c.ladder
      → (judge_all readings c).current_index < length (judge_all readings c).ladder
  unfolding judge_all Moves Same
  judge_all-inside [] c h = h
  judge_all-inside ((bw, loss) ∷ more) c h =
      let d = judge D bw loss c in
      let (moves, same) = judge-Moves bw loss c in
      let size : length d.ladder ≡ length c.ladder = ap length same.0 in
      judge_all-inside more d (elim moves [
        | inl (down, none_good) ↦ omega (arith, h, down, size)
        | inr (inl (enough, room, up, none_good)) ↦ omega (arith, room, up, size)
        | inr (inr (stay, counted)) ↦ omega (arith, h, stay, size)
      ])

  -- After a reading of bad conditions the level is one lower, or still the lowest, and fewer readings
  -- than the confirmations that an upgrade takes do not raise it again, whatever they are.
  pub judge_all-calm :
      (bw loss : D.Double) (readings : List (D.Double × D.Double)) (c : BitrateController D.Double)
      → bad_conditions D bw loss c ≡ true
      → length readings < c.upgrade_confirmations
      → ((judge D bw loss c).current_index ≡ c.current_index - 1)
        × ((judge_all readings (judge D bw loss c)).current_index ≤ c.current_index - 1)
  unfolding standing Same
  judge_all-calm bw loss readings c bad few =
      let d = judge D bw loss c in
      let e = judge_all readings d in
      let (down, none_good) = judge-bad bw loss c bad in
      let (moved, same) = judge_all-standing readings d in
      let n = c.upgrade_confirmations in
      let kept : d.upgrade_confirmations ≡ n = (judge-Moves bw loss c).1.1 in
      let kept_later : e.upgrade_confirmations ≡ n = same.1 ∙ kept in
      let from : d.current_index * d.upgrade_confirmations ≡ (c.current_index - 1) * n =
        ap₂ ◌*◌ down kept in
      let to : e.current_index * e.upgrade_confirmations ≡ e.current_index * n =
        ap (λ m. e.current_index * m) kept_later in
      (
        down,
        elim (dec_lt (c.current_index - 1) e.current_index) [
          | no not_above ↦ omega arith
          | yes above ↦
              let more =
                mul-le-mul_right {m = c.current_index - 1 + 1} {n = e.current_index} n
                  (omega arith) in
              absurd (
                omega
                  (arith, more, moved, from, to, none_good, few, suc-mul (c.current_index - 1) n))
        ],
      )
