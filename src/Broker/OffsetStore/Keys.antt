-- ===== src/Broker/OffsetStore/Keys.antt =====
-- The keys of the offset store.
use cascade.Base.{ℕ, ◌≡◌, sym, ◌∙◌, List, ◌∷◌, ◌++◌, append_assoc}
use cascade.Base.Text.{Lacks, split_unique, to_string, to_string-injective, to_string-Lacks}
use cascade.Broker.OffsetStore.{separator, partition_key, entry_key}

-- Two entries share a key only if they are of one topic, one partition and one group, where no
-- topic's name has the separator '#' in it. A group's name may have it.
pub entry_key-injective :
    (t u : List ℕ) (p q : ℕ) (g h : List ℕ)
    → Lacks separator t
    → Lacks separator u
    → entry_key t p g ≡ entry_key u q h
    → (t ≡ u) × (p ≡ q) × (g ≡ h)
unfolding entry_key partition_key
entry_key-injective t u p q g h lt lu e =
    let split =
      split_unique separator t u (to_string p ++ separator ∷ g) (to_string q ++ separator ∷ h) lt lu
        (sym (append_assoc t (separator ∷ to_string p) (separator ∷ g))
          ∙ e
          ∙ append_assoc u (separator ∷ to_string q) (separator ∷ h)) in
    let inner =
      split_unique separator (to_string p) (to_string q) g h (to_string-Lacks p) (to_string-Lacks q)
        split.1 in
    (split.0, to_string-injective p q inner.0, inner.1)

-- Without that condition they can: group "b" of topic "a#1" and partition 0, and group "0#b" of
-- topic "a" and partition 1, have one key.
entry_key-collision :
    (a b : List ℕ) (p q : ℕ)
    → entry_key (a ++ separator ∷ to_string p) q b ≡ entry_key a p (to_string q ++ separator ∷ b)
unfolding entry_key partition_key
entry_key-collision a b p q =
    append_assoc (a ++ separator ∷ to_string p) (separator ∷ to_string q) (separator ∷ b)
