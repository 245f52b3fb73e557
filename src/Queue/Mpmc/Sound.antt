-- ===== src/Queue/Mpmc/Sound.antt =====
-- The invariant of the queue and its threads, and what a step of one thread leaves of it.
use cascade.Base.{
  ℕ, ◌+◌, ◌%◌, ◌≤◌, ◌<◌, ◌≡◌, refl, ap, subst, sym, ◌∙◌, ◌≢◌, List, Option, none, some, length,
  get_elem?, ==_refl, ==_ne,
}
use cascade.Queue.Mpmc.{Slot, MpmcQueue, slot_at, set_slot, Thread}
use cascade.Queue.Mpmc.Steps.{update}
use cascade.Queue.Mpmc.Slots.{
  Shape, sequence_at, storage_at, set_slot-same, set_slot-other, set_slot-Shape,
}
use cascade.Queue.Mpmc.Facts.{push_place, pop_place, Fact}
use native.Mathlib.Decide.{ℕ_discrete}

module _ {A : Type 0} where
  pub update-same : (threads : ℕ → Thread A) (i : ℕ) (t : Thread A) → update threads i t i ≡ t
  unfolding update
  update-same threads i t = rw (==_refl i) refl

  update-other :
      (threads : ℕ → Thread A) (i j : ℕ) (t : Thread A) → i ≢ j → update threads i t j ≡ threads j
  unfolding update
  update-other threads i j t ne = rw (==_ne i j ne) refl

  -- Of each thread, if it is so of the one that moved and of the others.
  pub update-all :
      (P : Thread A → Type 0) (threads : ℕ → Thread A) (i : ℕ) (t : Thread A)
      → P t
      → ((j : ℕ) → i ≢ j → P (threads j))
      → (j : ℕ) → P (update threads i t j)
  update-all P threads i t here there j = elim (ℕ_discrete i j) [
    | yes e ↦ subst (λ k. P (update threads i t k)) e (subst P (sym (update-same threads i t)) here)
    | no ne ↦ subst P (sym (update-other threads i j t ne)) (there j ne)
  ]

  -- No place is claimed by two threads.
  unfoldable pub Alone : (Thread A → Option ℕ) → (ℕ → Thread A) → Type 0
  Alone place threads =
      (j k p : ℕ) → j ≢ k → place (threads j) ≡ some p → place (threads k) ≢ some p

  pub Alone-update :
      (place : Thread A → Option ℕ) (threads : ℕ → Thread A) (i : ℕ) (t : Thread A)
      → Alone place threads
      → ((k p : ℕ) → i ≢ k → place t ≡ some p → place (threads k) ≢ some p)
      → Alone place (update threads i t)
  unfolding Alone
  Alone-update place threads i t alone new j k p ne p_j p_k =
      let at : (l : ℕ) → i ≡ l → place (update threads i t l) ≡ place t = λ l e.
        ap (λ m. place (update threads i t m)) (sym e) ∙ ap place (update-same threads i t) in
      let off : (l : ℕ) → i ≢ l → place (update threads i t l) ≡ place (threads l) =
        λ l nl. ap place (update-other threads i l t nl) in
      elim (ℕ_discrete i j) [
        | yes e ↦
            let nk : i ≢ k = λ e'. ne (sym e ∙ e') in
            new k p nk (sym (at j e) ∙ p_j) (sym (off k nk) ∙ p_k)
        | no nj ↦ elim (ℕ_discrete i k) [
          | yes e ↦ new j p nj (sym (at k e) ∙ p_k) (sym (off j nj) ∙ p_j)
          | no nk ↦ alone j k p ne (sym (off j nj) ∙ p_j) (sym (off k nk) ∙ p_k)
        ]
      ]

  -- The invariant: `log` has the values of the producers' claims, in order. A slot that is filled was
  -- claimed by a producer, and holds what was claimed until a consumer claims it.
  pub record Sound (q : MpmcQueue A) (threads : ℕ → Thread A) (log : List A) : Type 0 where
    pub shape : Shape q
    pub logged : length log ≡ q.tail
    pub order : q.head ≤ q.tail
    pub published : (p : ℕ) → sequence_at q p ≡ p + 1 → p < q.tail
    pub kept : (p : ℕ) → q.head ≤ p → sequence_at q p ≡ p + 1 → storage_at q p ≡ get_elem? log p
    pub facts : (i : ℕ) → Fact q log (threads i)
    pub pushers : Alone push_place threads
    pub poppers : Alone pop_place threads

  -- A thread that claims no place moves, and the queue stays as it is.
  pub Sound-quiet :
      (q : MpmcQueue A) (threads : ℕ → Thread A) (log : List A) (i : ℕ) (t : Thread A)
      → Sound q threads log
      → Fact q log t
      → push_place t ≡ none
      → pop_place t ≡ none
      → Sound q (update threads i t) log
  Sound-quiet q threads log i t h f no_push no_pop = record {
    shape = h.shape;
    logged = h.logged;
    order = h.order;
    published = h.published;
    kept = h.kept;
    facts = update-all (Fact q log) threads i t f (λ j ne. h.facts j);
    pushers = Alone-update push_place threads i t h.pushers (λ k p ne e. absurd (cc (no_push, e)));
    poppers = Alone-update pop_place threads i t h.poppers (λ k p ne e. absurd (cc (no_pop, e)));
  }

  -- A thread stores to the slot of a place that it has claimed.
  pub Sound-store :
      (q : MpmcQueue A) (threads : ℕ → Thread A) (log : List A) (i p : ℕ) (s : Slot A)
      (t : Thread A)
      → Sound q threads log
      → Fact (set_slot p s q) log t
      → ((j : ℕ) → i ≢ j → Fact (set_slot p s q) log (threads j))
      → ((x : ℕ) → push_place t ≡ some x → push_place (threads i) ≡ some x)
      → ((x : ℕ) → pop_place t ≡ some x → pop_place (threads i) ≡ some x)
      → ((x : ℕ)
          → x % q.capacity ≡ p % q.capacity
          → s.sequence ≡ x + 1
          → (x < q.tail) × (q.head ≤ x → s.storage ≡ get_elem? log x))
      → Sound (set_slot p s q) (update threads i t) log
  unfolding sequence_at storage_at set_slot Alone
  Sound-store q threads log i p s t h here there push_kept pop_kept filled =
      let same : (x : ℕ) → x % q.capacity ≡ p % q.capacity → slot_at (set_slot p s q) x ≡ s =
        λ x e. set_slot-same q h.shape p x s e in
      let other : (x : ℕ)
          → x % q.capacity ≢ p % q.capacity
          → slot_at (set_slot p s q) x ≡ slot_at q x =
        λ x ne. set_slot-other q h.shape p x s ne in
      record {
        shape = set_slot-Shape q h.shape p s;
        logged = h.logged;
        order = h.order;
        published = λ x e. elim (ℕ_discrete (x % q.capacity) (p % q.capacity)) [
          | yes shares ↦ (filled x shares (sym (ap (λ r. r.sequence) (same x shares)) ∙ e)).0
          | no apart ↦ h.published x (sym (ap (λ r. r.sequence) (other x apart)) ∙ e)
        ];
        kept = λ x later e. elim (ℕ_discrete (x % q.capacity) (p % q.capacity)) [
          | yes shares ↦
              ap (λ r. r.storage) (same x shares)
              ∙ (filled x shares (sym (ap (λ r. r.sequence) (same x shares)) ∙ e)).1 later
          | no apart ↦
              ap (λ r. r.storage) (other x apart)
              ∙ h.kept x later (sym (ap (λ r. r.sequence) (other x apart)) ∙ e)
        ];
        facts = update-all (Fact (set_slot p s q) log) threads i t here there;
        pushers =
            Alone-update push_place threads i t h.pushers
              (λ k x ne e. h.pushers i k x ne (push_kept x e));
        poppers =
            Alone-update pop_place threads i t h.poppers
              (λ k x ne e. h.poppers i k x ne (pop_kept x e));
      }
