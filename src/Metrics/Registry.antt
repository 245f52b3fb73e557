-- ===== src/Metrics/Registry.antt =====
-- The counters of the registry: what a counter reads after any increments.
use cascade.Base.{
  ℕ, ◌+◌, ◌%◌, ◌^◌, ◌≡◌, refl, ap, ◌∙◌, ◌≢◌, inl, inr, List, [], ◌∷◌, Option, none, some, arith,
  if◌then◌else◌, Option-cases, Bool-cases,
}
use cascade.Base.Word.{add64}
use cascade.Base.Text.{
  text_eq, text_eq_refl, text_eq_sound, find_text, insert_text, find_text-insert_same,
  find_text-insert_other,
}
use cascade.Metrics.{MetricsRegistry, inc, made_counter, counter, inc_counter}

-- What the increments of one name add up to.
unfoldable pub total_of : List ℕ → List (List ℕ × ℕ) → ℕ
total_of name [] = 0
total_of name ((other, n) ∷ more) = (if text_eq other name then n else 0) + total_of name more

value_or : Option ℕ → ℕ
value_or none = 0
value_or (some v) = v

module _ {D : Type 0} where
  -- Increments by name, in order.
  pub inc_all : List (List ℕ × ℕ) → MetricsRegistry D → MetricsRegistry D
  inc_all [] r = r
  inc_all ((name, n) ∷ more) r = inc_all more (inc_counter name n r)

  value : List ℕ → MetricsRegistry D → ℕ
  value name r = value_or (find_text name r.counters)

  counter-value : (name : List ℕ) (r : MetricsRegistry D) → (counter name r).0 ≡ value name r
  unfolding counter made_counter value value_or
  counter-value name r = elim (Option-cases (find_text name r.counters)) [
    | inl e ↦ rw e refl
    | inr (v, e) ↦ rw e refl
  ]

  value-inc_same :
      (name : List ℕ) (n : ℕ) (r : MetricsRegistry D)
      → value name (inc_counter name n r) ≡ add64 (value name r) n
  unfolding value value_or inc_counter counter made_counter inc
  value-inc_same name n r = elim (Option-cases (find_text name r.counters)) [
    | inl e ↦ rw (e, find_text-insert_same name (add64 0 n) (insert_text name 0 r.counters)) refl
    | inr (v, e) ↦ rw (e, find_text-insert_same name (add64 v n) r.counters) refl
  ]

  value-inc_other :
      (name other : List ℕ) (n : ℕ) (r : MetricsRegistry D)
      → other ≢ name
      → value name (inc_counter other n r) ≡ value name r
  unfolding value value_or inc_counter counter made_counter inc
  value-inc_other name other n r ne = elim (Option-cases (find_text other r.counters)) [
    | inl e ↦
        rw
          (
            e,
            find_text-insert_other other name (add64 0 n) (insert_text other 0 r.counters) ne,
            find_text-insert_other other name 0 r.counters ne,
          )
          refl
    | inr (v, e) ↦ rw (e, find_text-insert_other other name (add64 v n) r.counters ne) refl
  ]

  value-inc_all :
      (name : List ℕ) (incs : List (List ℕ × ℕ)) (r : MetricsRegistry D)
      → value name (inc_all incs r) % 2 ^ 64 ≡ (value name r + total_of name incs) % 2 ^ 64
  unfolding inc_all total_of
  value-inc_all name [] r = omega arith
  value-inc_all name ((other, n) ∷ more) r =
      let rest = value-inc_all name more (inc_counter other n r) in
      elim (Bool-cases (text_eq other name)) [
        | inl same ↦
            let e : value name (inc_counter other n r) ≡ add64 (value name r) n =
              ap (λ x. value name (inc_counter x n r)) (text_eq_sound other name same)
              ∙ value-inc_same name n r in
            rw same (omega (arith, rest, e))
        | inr differs ↦
            let ne : other ≢ name =
              λ e. absurd (cc (differs, ap (λ x. text_eq x name) e, text_eq_refl name)) in
            rw differs (omega (arith, rest, value-inc_other name other n r ne))
      ]

  -- After any increments by name, a name's counter reads what it read before plus the increments of
  -- that name, modulo 2 ^ 64; a name without a counter reads 0 before.
  pub counter-inc_all :
      (name : List ℕ) (incs : List (List ℕ × ℕ)) (r : MetricsRegistry D)
      → (counter name (inc_all incs r)).0 % 2 ^ 64
        ≡ ((counter name r).0 + total_of name incs) % 2 ^ 64
  counter-inc_all name incs r =
      omega (
        arith,
        counter-value name r,
        counter-value name (inc_all incs r),
        value-inc_all name incs r,
      )
