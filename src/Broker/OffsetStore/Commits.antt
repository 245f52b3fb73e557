-- ===== src/Broker/OffsetStore/Commits.antt =====
-- What the offset store answers after its operations.
use cascade.Base.{
  Option-cases, Bool-cases, refl, ap, sym, ◌∙◌, ℕ, ◌-◌, ◌^◌, ◌≤◌, ◌≡◌, ◌≢◌, ◌⊎◌, inl, inr, List, [],
  ◌∷◌, Option, none, some, ◌↔◌, arith, ltb, if◌then◌else◌,
}
use cascade.Base.Text.{
  text_eq, text_eq_refl, text_eq_sound, find_text, insert_text, Lacks, find_text-insert_same,
  find_text-insert_other,
}
use cascade.Broker.OffsetStore.{
  OffsetStore, separator, entry_key, get, commit, register_group, registered, committed, min_over,
  min_committed_offset_for,
}
use cascade.Broker.OffsetStore.Keys.{entry_key-injective}

-- A commit is what the group reads back, and no other partition's or group's offset changes, for
-- topics whose names lack the separator.
pub get-commit :
    (t u : List ℕ) (p q : ℕ) (g h : List ℕ) (n : ℕ) (s : OffsetStore)
    → Lacks separator t
    → Lacks separator u
    → (get t p g (commit t p g n s) ≡ some n)
      × (((t ≢ u) ⊎ ((p ≢ q) ⊎ (g ≢ h))) → get u q h (commit t p g n s) ≡ get u q h s)
unfolding get commit
get-commit t u p q g h n s lt lu = (
  find_text-insert_same (entry_key t p g) n s.entries,
  λ differ. find_text-insert_other (entry_key t p g) (entry_key u q h) n s.entries (λ e.
      let (a, b, c) = entry_key-injective t u p q g h lt lu e in
      elim differ [ inl x ↦ x a | inr (inl x) ↦ x b | inr (inr x) ↦ x c ]),
)

-- Each group of the list has committed `k` or more.
abbrev pub AllReached : List ℕ → ℕ → OffsetStore → ℕ → List (List ℕ) → Type 0
AllReached t p s k [] = Unit
AllReached t p s k (g ∷ gs) = (k ≤ committed t p s g) × AllReached t p s k gs

min_over_lem :
    (t : List ℕ) (p : ℕ) (s : OffsetStore) (m k : ℕ) (gs : List (List ℕ))
    → (k ≤ min_over t p s m gs) ↔ ((k ≤ m) × AllReached t p s k gs)
unfolding min_over
min_over_lem t p s m k [] = ground arith
min_over_lem t p s m k (g ∷ gs) =
    ground
      (arith, min_over_lem t p s (if ltb (committed t p s g) m then committed t p s g else m) k gs)

-- The offset that a partition's lag is counted from is the least that its registered groups have
-- committed: a number is at most that offset just if it is a 64-bit number that all of them have
-- reached.
pub min_committed_offset_for_lem :
    (t : List ℕ) (p : ℕ) (s : OffsetStore) (m k : ℕ)
    → min_committed_offset_for t p s ≡ some m
    → (k ≤ m) ↔ ((k ≤ 2 ^ 64 - 1) × AllReached t p s k (registered t p s))
unfolding min_committed_offset_for
min_committed_offset_for_lem t p s m k e = go (registered t p s) e
  where
    go :
        (gs : List (List ℕ))
        → elim gs as (λ gs. Option ℕ) [
          | [] ↦ none
          | g ∷ rest ↦ some (min_over t p s (2 ^ 64 - 1) (g ∷ rest))
        ]
          ≡ some m
        → (k ≤ m) ↔ ((k ≤ 2 ^ 64 - 1) × AllReached t p s k gs)
    go [] e = absurd (cc)
    go (g ∷ gs) e =
        let same : min_over t p s (2 ^ 64 - 1) (g ∷ gs) ≡ m = cc in
        rw (← same) (min_over_lem t p s (2 ^ 64 - 1) k (g ∷ gs))

-- A group that registers starts at offset 0, or where it stood if it had committed before.
get-register_group :
    (t : List ℕ) (p : ℕ) (g : List ℕ) (s : OffsetStore)
    → get t p g (register_group t p g s) ≡ some (committed t p s g)
unfolding get register_group committed
get-register_group t p g s = ground (arith, find_text-insert_same (entry_key t p g) 0 s.entries)

abbrev or_zero : Option ℕ → ℕ
or_zero none = 0
or_zero (some v) = v

-- A key that is put in with 0 where it was missing changes nothing that counts.
or_zero-insert :
    (k j : List ℕ) (m : List (List ℕ × ℕ))
    → find_text k m ≡ none
    → or_zero (find_text j (insert_text k 0 m)) ≡ or_zero (find_text j m)
or_zero-insert k j m missing = elim (Bool-cases (text_eq k j)) [
  | inl b ↦
      let same = text_eq_sound k j b in
      ap (λ i. or_zero (find_text i (insert_text k 0 m))) (sym same)
      ∙ ap or_zero (find_text-insert_same k 0 m)
      ∙ sym (ap (λ i. or_zero (find_text i m)) (sym same) ∙ ap or_zero missing)
  | inr b ↦ ap or_zero (
      find_text-insert_other k j 0 m
        (λ e. absurd (let r = text_eq_refl k in let c = ap (text_eq k) e in cc)))
]

pub committed-none :
    (t : List ℕ) (p : ℕ) (g : List ℕ) (s : OffsetStore) → get t p g s ≡ none → committed t p s g ≡ 0
unfolding committed
committed-none t p g s e = rw (e, committed) refl

pub committed-some :
    (t : List ℕ) (p v : ℕ) (g : List ℕ) (s : OffsetStore)
    → get t p g s ≡ some v
    → committed t p s g ≡ v
unfolding committed
committed-some t p v g s e = rw (e, committed) refl

committed-or_zero :
    (t : List ℕ) (p : ℕ) (g : List ℕ) (s : OffsetStore) → committed t p s g ≡ or_zero (get t p g s)
committed-or_zero t p g s = elim (Option-cases (get t p g s)) [
  | inl e ↦ committed-none t p g s e ∙ sym (ap or_zero e)
  | inr (v, e) ↦ committed-some t p v g s e ∙ sym (ap or_zero e)
]

get-register_zero :
    (t u : List ℕ) (p q : ℕ) (g h : List ℕ) (s : OffsetStore)
    → or_zero (get u q h (register_group t p g s)) ≡ or_zero (get u q h s)
unfolding get register_group
get-register_zero t u p q g h s = elim (Option-cases (find_text (entry_key t p g) s.entries)) [
  | inr (v, there) ↦ rw (register_group, there) refl
  | inl missing ↦
      rw (register_group, missing)
        (or_zero-insert (entry_key t p g) (entry_key u q h) s.entries missing)
]

-- Registering a group, here or elsewhere, changes no offset that counts for a group.
pub committed-register_group :
    (t u : List ℕ) (p q : ℕ) (g h : List ℕ) (s : OffsetStore)
    → committed u q (register_group t p g s) h ≡ committed u q s h
committed-register_group t u p q g h s =
    committed-or_zero u q h (register_group t p g s)
    ∙ get-register_zero t u p q g h s
    ∙ sym (committed-or_zero u q h s)
