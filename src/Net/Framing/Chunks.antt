-- ===== src/Net/Framing/Chunks.antt =====
-- How chunks of the stream meet `try_extract`: what it decides on a part it decides on the whole.
use cascade.Base.{
  ℕ, zero, suc, ◌<◌, ◌≡◌, refl, ap, ◌∙◌, sym, inl, inr, false, List, [], ◌∷◌, ◌++◌, append_assoc,
  append-nil, arith, if◌then◌else◌, length, length-append, length-drop, take-append_le,
  drop-append_le, Bool-cases, concat, Option, none, some,
}
use cascade.Net.Framing.{
  Extract, malformed, wait, frame, extract, extract_body, length_prefix, Drained, drain, drain_all,
  after_extract, continue, with_frame, receive,
}

-- What a decision says of a longer buffer: a frame and an error are final.
Final : Extract × List ℕ → Extract × List ℕ → List ℕ → Type 0
Final (malformed, left) later more = later.0 ≡ malformed
Final (wait, left) later more = Unit {0}
Final (frame p, left) later more = later ≡ (frame p, left ++ more)

-- What a decision says of its own buffer: waiting leaves it, a frame shortens it.
Local : Extract × List ℕ → List ℕ → Type 0
Local (malformed, left) buffer = Unit {0}
Local (wait, left) buffer = left ≡ buffer
Local (frame p, left) buffer = length left < length buffer

body-Final :
    (len a b c d : ℕ) (rest more : List ℕ)
    → Final
        (extract_body len (a ∷ b ∷ c ∷ d ∷ rest) rest)
        (extract_body len (a ∷ b ∷ c ∷ d ∷ (rest ++ more)) (rest ++ more))
        more
unfolding Final extract_body
body-Final len a b c d rest more =
    ground
      (arith, length-append rest more, take-append_le len rest more, drop-append_le len rest more)

extract-Final : (buffer more : List ℕ) → Final (extract buffer) (extract (buffer ++ more)) more
unfolding Final extract
extract-Final [] more = tt
extract-Final (a ∷ []) more = tt
extract-Final (a ∷ b ∷ []) more = tt
extract-Final (a ∷ b ∷ c ∷ []) more = tt
extract-Final (a ∷ b ∷ c ∷ d ∷ rest) more = body-Final (length_prefix a b c d) a b c d rest more

body-Local :
    (len a b c d : ℕ) (rest : List ℕ)
    → Local (extract_body len (a ∷ b ∷ c ∷ d ∷ rest) rest) (a ∷ b ∷ c ∷ d ∷ rest)
unfolding Local extract_body
body-Local len a b c d rest = ground (arith, length-drop len rest)

extract-Local : (buffer : List ℕ) → Local (extract buffer) buffer
unfolding Local extract
extract-Local [] = refl
extract-Local (a ∷ []) = refl
extract-Local (a ∷ b ∷ []) = refl
extract-Local (a ∷ b ∷ c ∷ []) = refl
extract-Local (a ∷ b ∷ c ∷ d ∷ rest) = body-Local (length_prefix a b c d) a b c d rest

-- Only what is called on a shorter buffer matters.
after-Local :
    (f g : List ℕ → Drained) (s : Extract × List ℕ) (buffer : List ℕ)
    → Local s buffer
    → ((b : List ℕ) → length b < length buffer → f b ≡ g b)
    → after_extract f s ≡ after_extract g s
unfolding Local after_extract
after-Local f g (malformed, left) buffer l h = refl
after-Local f g (wait, left) buffer l h = refl
after-Local f g (frame p, left) buffer l h = ap (with_frame p) (h left l)

-- With enough fuel the amount does not matter.
drain_fuel :
    (n m : ℕ) (buffer : List ℕ)
    → length buffer < n
    → length buffer < m
    → drain n buffer ≡ drain m buffer
unfolding drain
drain_fuel zero m buffer p q = absurd (omega arith)
drain_fuel (suc n) zero buffer p q = absurd (omega arith)
drain_fuel (suc n) (suc m) buffer p q =
    after-Local (drain n) (drain m) (extract buffer) buffer (extract-Local buffer)
      λ b h. drain_fuel n m b (omega arith) (omega arith)

-- The loop's equation, free of fuel.
pub drain_step : (buffer : List ℕ) → drain_all buffer ≡ after_extract drain_all (extract buffer)
unfolding drain_all drain
drain_step buffer =
    after-Local (drain (length buffer)) drain_all (extract buffer) buffer (extract-Local buffer)
      λ b h. drain_fuel (length buffer) (suc (length b)) b h (omega arith)

-- What the receiver can see: the frames, and the bytes left unless the connection is dropped.
unfoldable pub seen : Drained → List (List ℕ) × Option (List ℕ)
seen r = (r.frames, if r.failed then none else some r.left)

-- The outcome on `buffer ++ more`, from the outcome on `buffer`.
abbrev resume : Drained → List ℕ → Drained
resume r more = continue r (drain_all (r.left ++ more))

resume-with_frame :
    (q : List ℕ) (r : Drained) (more : List ℕ)
    → seen (resume (with_frame q r) more) ≡ (q ∷ (seen (resume r more)).0, (seen (resume r more)).1)
unfolding seen
resume-with_frame q r more = elim (Bool-cases r.failed) [ inl e ↦ rw e | inr e ↦ rw e ]

after_resume :
    (s t : Extract × List ℕ) (buffer more : List ℕ)
    → Local s buffer
    → Final s t more
    → extract (buffer ++ more) ≡ t
    → ((b : List ℕ)
        → length b < length buffer
        → seen (drain_all (b ++ more)) ≡ seen (resume (drain_all b) more))
    → seen (drain_all (buffer ++ more)) ≡ seen (resume (after_extract drain_all s) more)
unfolding Local Final after_extract seen
after_resume (malformed, left) (t, after) buffer more l f e ih =
    rw (drain_step (buffer ++ more), e, f)
after_resume (wait, left) t buffer more l f e ih = rw l
after_resume (frame q, left) t buffer more l f e ih =
    rw (drain_step (buffer ++ more), e, f)
      (ap (λ (s : List (List ℕ) × Option (List ℕ)). (q ∷ s.0, s.1)) (ih left l)
        ∙ sym (resume-with_frame q (drain_all left) more))

drain_resume :
    (n : ℕ) (buffer more : List ℕ)
    → length buffer < n
    → seen (drain_all (buffer ++ more)) ≡ seen (resume (drain_all buffer) more)
drain_resume zero buffer more h = absurd (omega arith)
drain_resume (suc n) buffer more h = rw (drain_step buffer) (
    after_resume (extract buffer) (extract (buffer ++ more)) buffer more (extract-Local buffer)
      (extract-Final buffer more) refl (λ b k. drain_resume n b more (omega arith)))

-- What is left after draining holds no further frame.
abbrev Dry : Drained → Type 0
Dry r = r.failed ≡ false → drain_all r.left ≡ record { frames = []; failed = false; left = r.left }

after-Dry :
    (s : Extract × List ℕ) (buffer : List ℕ)
    → Local s buffer
    → extract buffer ≡ s
    → ((b : List ℕ) → length b < length buffer → Dry (drain_all b))
    → Dry (after_extract drain_all s)
unfolding Local after_extract
after-Dry (malformed, left) buffer l e ih = λ h. cc
after-Dry (wait, left) buffer l e ih = λ h. rw (l, drain_step buffer, e) (rw l)
after-Dry (frame q, left) buffer l e ih = ih left l

drain-Dry : (n : ℕ) (buffer : List ℕ) → length buffer < n → Dry (drain_all buffer)
drain-Dry zero buffer h = absurd (omega arith)
drain-Dry (suc n) buffer h = rw (drain_step buffer) (
    after-Dry (extract buffer) buffer (extract-Local buffer) refl
      (λ b k. drain-Dry n b (omega arith)))

-- Only what is seen of the later part is seen.
seen-continue :
    (r a b : Drained)
    → (r.failed ≡ false → seen a ≡ seen b)
    → seen (continue r a) ≡ seen (continue r b)
unfolding seen
seen-continue r a b h = elim (Bool-cases r.failed) [
  | inl e ↦ rw e
  | inr e ↦ rw e (ap (λ (s : List (List ℕ) × Option (List ℕ)). (r.frames ++ s.0, s.1)) (h e))
]

receive_dry :
    (buffer : List ℕ) (chunks : List (List ℕ))
    → drain_all buffer ≡ record { frames = []; failed = false; left = buffer }
    → seen (receive buffer chunks) ≡ seen (drain_all (buffer ++ concat chunks))
unfolding receive concat
receive_dry buffer [] dry = rw (append-nil, dry)
receive_dry buffer (c ∷ cs) dry =
    let n = suc (length (buffer ++ c)) in
    rw (← append_assoc buffer c (concat cs)) (
      seen-continue (drain_all (buffer ++ c)) _ _ (λ e.
        receive_dry (drain_all (buffer ++ c)).left cs (drain-Dry n (buffer ++ c) (omega arith) e))
      ∙ sym (drain_resume n (buffer ++ c) (concat cs) (omega arith)))

-- The decoder does not depend on how the stream was cut: over any chunks the receiver gets the
-- frames, the error and the bytes left over that one drain of the whole stream gives.
pub receive-eq-drain :
    (chunks : List (List ℕ)) → seen (receive [] chunks) ≡ seen (drain_all (concat chunks))
unfolding drain_all drain
receive-eq-drain chunks = receive_dry [] chunks refl
