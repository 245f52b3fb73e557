-- ===== src/Broker/Topics/Create.antt =====
-- What the creation of a topic leaves.
use cascade.Base.{ℕ, ◌≡◌, refl, ◌≢◌, ◌⊎◌, inl, inr, Bool-cases, List, none, some, Option-cases}
use cascade.Base.Text.{find_text, find_text-insert_same, find_text-insert_other}
use cascade.Broker.Partition.{FlushPolicy}
use cascade.Broker.Topic.{Topic, new_topic}
use cascade.Broker.Topics.{Broker, create_topic, get_topic, is_allowed}

-- A topic is created at most once: either the call throws and the broker is what it was, or there
-- was no topic of that name, the new one is found under it, and every other name finds what it did.
create_topic_lem :
    (disk : List ℕ → List (ℕ × List ℕ)) (name : List ℕ) (n size lag : ℕ) (policy : FlushPolicy)
    (b : Broker)
    → (((create_topic disk name n size lag policy b).0 ≡ none)
        × ((create_topic disk name n size lag policy b).1 ≡ b))
      ⊎ ((t : Topic) × ((create_topic disk name n size lag policy b).0 ≡ some t)
          × (get_topic name b ≡ none)
          × (get_topic name (create_topic disk name n size lag policy b).1 ≡ some t)
          × ((other : List ℕ)
              → name ≢ other
              → get_topic other (create_topic disk name n size lag policy b).1 ≡ get_topic other b))
unfolding get_topic create_topic
create_topic_lem disk name n size lag policy b = elim (Option-cases (find_text name b.topics)) [
  | inr (t, taken) ↦ inl (rw (create_topic, taken) refl, rw (create_topic, taken) refl)
  | inl free ↦ elim (Bool-cases (is_allowed b.control_plane name n)) [
    | inr refused ↦
        inl (rw (create_topic, free, refused) refl, rw (create_topic, free, refused) refl)
    | inl allowed ↦ elim (Option-cases (new_topic disk name b.data_dir size lag policy n)) [
      | inl failed ↦ inl (
        rw (create_topic, free, allowed, failed) refl,
        rw (create_topic, free, allowed, failed) refl,
      )
      | inr (t, made) ↦ inr (
        t,
        rw (create_topic, free, allowed, made) refl,
        free,
        rw (create_topic, free, allowed, made) (find_text-insert_same name t b.topics),
        λ other ne.
            rw (create_topic, free, allowed, made)
              (find_text-insert_other name other t b.topics ne),
      )
    ]
  ]
]
