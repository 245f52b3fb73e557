-- ===== src/ControlPlane/Addresses.antt =====
-- The list of addresses as the client reads it.
use cascade.Base.{
  ℕ, zero, suc, ◌≡◌, refl, ap, sym, ◌∙◌, ◌≢◌, false, ◌&&◌, List, [], ◌∷◌, ◌++◌, append-nil,
  append_assoc, ==_ne, is_empty, if◌then◌else◌, replicate,
}
use cascade.ControlPlane.{
  is_space, drop_spaces, drop_last_spaces, push_item, split_items, split_addresses,
}

-- A character of an address: no blank, no tab, and no ','.
unfoldable pub IsPlain : List ℕ → Type 0
IsPlain [] = Unit
IsPlain (c ∷ cs) = (is_space c ≡ false) × (c ≢ 44) × IsPlain cs

drop_last_spaces-plain : (x : List ℕ) → IsPlain x → drop_last_spaces x ≡ x
unfolding IsPlain drop_last_spaces
drop_last_spaces-plain [] h = refl
drop_last_spaces-plain (c ∷ cs) h = rw (drop_last_spaces-plain cs h.2, h.0) (keeps c cs)
  where
    keeps : (c : ℕ) (cs : List ℕ) → (if is_empty cs && false then [] else c ∷ cs) ≡ c ∷ cs
    keeps c [] = refl
    keeps c (x ∷ xs) = refl

drop_spaces-padded :
    (n c : ℕ) (cs : List ℕ) → is_space c ≡ false → drop_spaces (replicate n 32 ++ c ∷ cs) ≡ c ∷ cs
unfolding drop_spaces is_space
drop_spaces-padded zero c cs h = rw h refl
drop_spaces-padded (suc n) c cs h = drop_spaces-padded n c cs h

push_item-padded :
    (n c : ℕ) (cs : List ℕ) (out : List (List ℕ))
    → IsPlain (c ∷ cs)
    → push_item (replicate n 32 ++ c ∷ cs) out ≡ (c ∷ cs) ∷ out
unfolding push_item IsPlain
push_item-padded n c cs out h =
    rw (drop_spaces-padded n c cs h.0, drop_last_spaces-plain (c ∷ cs) h) refl

-- Characters that are no ',' are read into the item.
split_items-plain :
    (item x rest : List ℕ) → IsPlain x → split_items item (x ++ rest) ≡ split_items (item ++ x) rest
unfolding IsPlain split_items
split_items-plain item [] rest h = ap (λ i. split_items i rest) (sym (append-nil item))
split_items-plain item (c ∷ cs) rest h = rw (==_ne c 44 h.1) (
    split_items-plain (item ++ c ∷ []) cs rest h.2
    ∙ ap (λ i. split_items i rest) (append_assoc item (c ∷ []) cs))

split_items-spaces :
    (n : ℕ) (item rest : List ℕ)
    → split_items item (replicate n 32 ++ rest) ≡ split_items (item ++ replicate n 32) rest
unfolding split_items
split_items-spaces zero item rest = ap (λ i. split_items i rest) (sym (append-nil item))
split_items-spaces (suc n) item rest =
    split_items-spaces n (item ++ 32 ∷ []) rest
    ∙ ap (λ i. split_items i rest) (append_assoc item (32 ∷ []) (replicate n 32))

-- The addresses with ',' behind each but the last, and some blanks before each.
unfoldable pub joined : List (ℕ × List ℕ) → List ℕ
joined [] = []
joined ((n, x) ∷ []) = replicate n 32 ++ x
joined ((n, x) ∷ y ∷ ys) = replicate n 32 ++ (x ++ 44 ∷ joined (y ∷ ys))

unfoldable pub addresses : List (ℕ × List ℕ) → List (List ℕ)
addresses [] = []
addresses ((n, x) ∷ xs) = x ∷ addresses xs

unfoldable pub ArePlain : List (ℕ × List ℕ) → Type 0
ArePlain [] = Unit
ArePlain ((n, x) ∷ xs) = (is_empty x ≡ false) × IsPlain x × ArePlain xs

padded_nonempty : (n c : ℕ) (cs : List ℕ) → is_empty (replicate n 32 ++ c ∷ cs) ≡ false
padded_nonempty zero c cs = refl
padded_nonempty (suc n) c cs = refl

last_item : (item : List ℕ) → is_empty item ≡ false → split_items item [] ≡ push_item item []
unfolding split_items
last_item item h = rw h refl

-- The addresses of a list are read back from its text, in their order: where every address has a
-- character and has no blank, tab or ',', and stands behind any number of blanks.
pub split_addresses-joined :
    (xs : List (ℕ × List ℕ)) → ArePlain xs → split_addresses (joined xs) ≡ addresses xs
unfolding split_addresses split_items joined addresses ArePlain
split_addresses-joined [] h = refl
split_addresses-joined ((n, []) ∷ xs) h = absurd (cc (h.0))
split_addresses-joined ((n, c ∷ cs) ∷ []) h =
    let item = replicate n 32 ++ c ∷ cs in
    split_items-spaces n [] (c ∷ cs)
    ∙ ap (split_items (replicate n 32)) (sym (append-nil (c ∷ cs)))
    ∙ split_items-plain (replicate n 32) (c ∷ cs) [] h.1
    ∙ last_item item (padded_nonempty n c cs)
    ∙ push_item-padded n c cs [] h.1
split_addresses-joined ((n, c ∷ cs) ∷ y ∷ ys) h =
    let more = joined (y ∷ ys) in
    let item = replicate n 32 ++ c ∷ cs in
    split_items-spaces n [] (c ∷ cs ++ 44 ∷ more)
    ∙ split_items-plain (replicate n 32) (c ∷ cs) (44 ∷ more) h.1
    ∙ push_item-padded n c cs (split_items [] more) h.1
    ∙ ap (λ out. (c ∷ cs) ∷ out) (split_addresses-joined (y ∷ ys) h.2)
