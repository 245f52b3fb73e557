-- ===== src/ControlPlane/Endpoint.antt =====
-- The addresses of the control plane client: what one reply does to them.
use cascade.Base.{
  ℕ, zero, suc, ◌+◌, ◌≤◌, ◌<◌, ◌≡◌, refl, ap, sym, ◌∙◌, ◌⊎◌, inl, inr, true, List, [], ◌∷◌, ◌++◌,
  append-nil, append_assoc, Option, none, some, arith, ◌==◌, ==_refl, ==_ne, get_or, length,
  length-append, Bool-cases,
}
use cascade.Base.Text.{text_eq, text_eq_sound}
use cascade.ControlPlane.{
  StatusCode, ok, failed_precondition, unavailable, deadline_exceeded, other, ControlPlaneClient,
  connect_locked, rotate_endpoint, find_endpoint, follow_leader, after_reply, is_retried,
}
use native.Mathlib.Decide.{ℕ_discrete, dec_lt}
use native.Mathlib.Nat.{mod-lt, mod-eq_of_lt, mod_self}

-- The client speaks to the current one of its addresses.
pub record IsConnected (c : ControlPlaneClient) : Type 0 where
  pub known : c.current_idx < length c.endpoints
  pub spoken : c.stub ≡ get_or c.endpoints c.current_idx []

get_or-append :
    (xs ys : List (List ℕ)) (i : ℕ) → i < length xs → get_or (xs ++ ys) i [] ≡ get_or xs i []
get_or-append [] ys i l = absurd (omega arith)
get_or-append (x ∷ xs) ys zero l = refl
get_or-append (x ∷ xs) ys (suc i) l = get_or-append xs ys i (omega arith)

get_or-last : (xs : List (List ℕ)) (a : List ℕ) → get_or (xs ++ a ∷ []) (length xs) [] ≡ a
get_or-last [] a = refl
get_or-last (x ∷ xs) a = get_or-last xs a

find_endpoint_le : (a : List ℕ) (xs : List (List ℕ)) → find_endpoint a xs ≤ length xs
unfolding find_endpoint
find_endpoint_le a [] = omega arith
find_endpoint_le a (x ∷ xs) = ground (arith, find_endpoint_le a xs)

find_endpoint_found :
    (a : List ℕ) (xs : List (List ℕ))
    → find_endpoint a xs < length xs
    → get_or xs (find_endpoint a xs) [] ≡ a
unfolding find_endpoint
find_endpoint_found a [] l = absurd (omega arith)
find_endpoint_found a (x ∷ xs) l = elim (Bool-cases (text_eq x a)) [
  | inl e ↦ rw e (text_eq_sound x a e)
  | inr ne ↦
      let m : find_endpoint a xs < length xs = ground arith in rw ne (find_endpoint_found a xs m)
]

pub rotate_endpoint-IsConnected :
    (c : ControlPlaneClient) → IsConnected c → IsConnected (rotate_endpoint c)
unfolding rotate_endpoint connect_locked
rotate_endpoint-IsConnected c h = record {
  known = mod-lt (c.current_idx + 1) {m = length c.endpoints} (omega (arith, h.known));
  spoken = refl;
}

-- After a hint the client speaks to the leader.
pub follow_leader_lem :
    (a : List ℕ) (c : ControlPlaneClient)
    → IsConnected c
    → IsConnected (follow_leader a c) × ((follow_leader a c).stub ≡ a)
unfolding follow_leader connect_locked
follow_leader_lem a c h =
    let idx = find_endpoint a c.endpoints in
    let n = length c.endpoints in
    let bound = find_endpoint_le a c.endpoints in
    elim (ℕ_discrete idx n) [
      | yes e ↦
          let added = get_or-last c.endpoints a in
          rw (e, ==_refl n, ==_ne n c.current_idx (omega (arith, h.known)))
            (
              record { known = omega (arith, length-append c.endpoints (a ∷ [])); spoken = refl },
              added,
            )
      | no ne ↦
          let found = find_endpoint_found a c.endpoints (omega (arith, bound, ne)) in
          elim (ℕ_discrete idx c.current_idx) [
            | yes same ↦ rw (==_ne idx n ne) (
                rw (same, ==_refl c.current_idx)
                  (h, h.spoken ∙ ap (λ i. get_or c.endpoints i []) (sym same) ∙ found))
            | no other_idx ↦
                rw (==_ne idx n ne, ==_ne idx c.current_idx other_idx)
                  (record { known = omega (arith, bound, ne); spoken = refl }, found)
          ]
    ]

-- The addresses are kept, in their places; a hint may add some.
unfoldable pub Keeps : ControlPlaneClient → ControlPlaneClient → Type 0
Keeps c d = (more : List (List ℕ)) × (d.endpoints ≡ c.endpoints ++ more)

pub Keeps-refl : (c : ControlPlaneClient) → Keeps c c
unfolding Keeps
Keeps-refl c = ([], sym (append-nil c.endpoints))

pub Keeps-trans : (c d e : ControlPlaneClient) → Keeps c d → Keeps d e → Keeps c e
unfolding Keeps
Keeps-trans c d e (xs, p) (ys, q) =
    (xs ++ ys, q ∙ ap (λ zs. zs ++ ys) p ∙ append_assoc c.endpoints xs ys)

follow_leader-Keeps : (a : List ℕ) (c : ControlPlaneClient) → Keeps c (follow_leader a c)
unfolding Keeps follow_leader connect_locked
follow_leader-Keeps a c =
    let idx = find_endpoint a c.endpoints in
    elim (Bool-cases (idx == length c.endpoints)) [
      | inl added ↦ elim (Bool-cases (idx == c.current_idx)) [
        | inl same ↦ rw (added, same) (a ∷ [], refl)
        | inr moved ↦ rw (added, moved) (a ∷ [], refl)
      ]
      | inr found ↦ elim (Bool-cases (idx == c.current_idx)) [
        | inl same ↦ rw (found, same) (Keeps-refl c)
        | inr moved ↦ rw (found, moved) (Keeps-refl c)
      ]
    ]

rotate_endpoint-Keeps : (c : ControlPlaneClient) → Keeps c (rotate_endpoint c)
unfolding rotate_endpoint connect_locked Keeps
rotate_endpoint-Keeps c = Keeps-refl c

pub after_reply_lem :
    (code : StatusCode) (leader : Option (List ℕ)) (c : ControlPlaneClient)
    → IsConnected c
    → IsConnected (after_reply code leader c) × Keeps c (after_reply code leader c)
unfolding after_reply
after_reply_lem ok leader c h = (h, Keeps-refl c)
after_reply_lem (other n) leader c h = (h, Keeps-refl c)
after_reply_lem unavailable leader c h = (rotate_endpoint-IsConnected c h, rotate_endpoint-Keeps c)
after_reply_lem deadline_exceeded leader c h =
    (rotate_endpoint-IsConnected c h, rotate_endpoint-Keeps c)
after_reply_lem failed_precondition none c h =
    (rotate_endpoint-IsConnected c h, rotate_endpoint-Keeps c)
after_reply_lem failed_precondition (some a) c h =
    ((follow_leader_lem a c h).0, follow_leader-Keeps a c)

-- The code of an address that does not answer.
unfoldable pub IsDown : StatusCode → Type 0
IsDown code = (code ≡ unavailable) ⊎ (code ≡ deadline_exceeded)

pub down_again : (code : StatusCode) → IsDown code → is_retried code ≡ true
unfolding IsDown is_retried
down_again code (inl e) = rw e refl
down_again code (inr e) = rw e refl

pub down_rotates :
    (code : StatusCode) (leader : Option (List ℕ)) (c : ControlPlaneClient)
    → IsDown code
    → after_reply code leader c ≡ rotate_endpoint c
unfolding IsDown after_reply
down_rotates code leader c (inl e) = rw e refl
down_rotates code leader c (inr e) = rw e refl

-- `d` turns of the current index lead to `k`.
unfoldable pub Ahead : ControlPlaneClient → ℕ → ℕ → Type 0
Ahead c d k = (c.current_idx + d ≡ k) ⊎ (c.current_idx + d ≡ k + length c.endpoints)

pub rotate_endpoint-Ahead :
    (c : ControlPlaneClient) (d k : ℕ)
    → c.current_idx < length c.endpoints
    → k < length c.endpoints
    → Ahead c (suc d) k
    → Ahead (rotate_endpoint c) d k
unfolding Ahead rotate_endpoint connect_locked
rotate_endpoint-Ahead c d k known inside ahead =
    let n = length c.endpoints in
    elim (dec_lt (c.current_idx + 1) n) [
      | yes l ↦
          rw (mod-eq_of_lt {n = c.current_idx + 1} {m = n} l)
            (elim ahead [ inl e ↦ inl (omega arith) | inr e ↦ inr (omega arith) ])
      | no m ↦
          let whole : c.current_idx + 1 ≡ n = omega arith in
          rw (whole, mod_self n)
            (elim ahead [ inl e ↦ absurd (omega arith) | inr e ↦ inl (omega arith) ])
    ]
