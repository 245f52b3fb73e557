-- ===== src/Base/Text.antt =====
-- Strings as lists of character codes, the decimal print of std::to_string for a number that is
-- not negative, and maps keyed by strings.
use cascade.Base.Tests.{◌==◌, ltb, if◌then◌else◌, le→ltb, if_either}
use Prim.Native.Nat.{ℕ, zero, suc, ◌+◌, ◌*◌, ◌-◌, ◌<◌, ◌/◌, ◌%◌}
use mathlib.Core.Path.{◌≡◌, refl, ap, ap₂, sym, ◌∙◌}
use mathlib.Core.Logic.{◌≢◌}
use mathlib.Core.Bool.{Bool, true, false, ◌&&◌}
use mathlib.Core.List.{List, [], ◌∷◌, ◌++◌}
use mathlib.Core.Option.{Option, none, some}
use native.Mathlib.Omega.{arith}
use native.Mathlib.Decide.{dec_lt}

abbrev pub text_eq : List ℕ → List ℕ → Bool
text_eq [] [] = true
text_eq [] (b ∷ ys) = false
text_eq (a ∷ xs) [] = false
text_eq (a ∷ xs) (b ∷ ys) = (a == b) && text_eq xs ys

pub text_eq_refl : (a : List ℕ) → text_eq a a ≡ true
text_eq_refl [] = refl
text_eq_refl (a ∷ xs) = rw (text_eq_refl xs) (ground arith)

pub text_eq_sound : (a b : List ℕ) → text_eq a b ≡ true → a ≡ b
text_eq_sound [] [] h = refl
text_eq_sound [] (b ∷ ys) h = absurd (cc)
text_eq_sound (a ∷ xs) [] h = absurd (cc)
text_eq_sound (a ∷ xs) (b ∷ ys) h = ground (arith, text_eq_sound xs ys)

pub text_eq_ne : (a b : List ℕ) → a ≢ b → text_eq a b ≡ false
text_eq_ne a b h = ground (arith, text_eq_sound a b)

-- The digits of `n`, the last one first computed; `fuel` bounds their number.
unfoldable pub digits : ℕ → ℕ → List ℕ
digits zero n = []
digits (suc fuel) n =
    let rest = digits fuel (n / 10) in
    if ltb n 10 then (48 + n) ∷ [] else rest ++ (48 + n % 10) ∷ []

unfoldable pub to_string : ℕ → List ℕ
to_string n = digits (suc n) n

-- Reads digits back, from the first on.
abbrev value_from : ℕ → List ℕ → ℕ
value_from n [] = n
value_from n (c ∷ cs) = value_from (10 * n + (c - 48)) cs

value_from-append :
    (n : ℕ) (xs : List ℕ) (c : ℕ) → value_from n (xs ++ c ∷ []) ≡ 10 * value_from n xs + (c - 48)
value_from-append n [] c = refl
value_from-append n (x ∷ xs) c = value_from-append (10 * n + (x - 48)) xs c

value-digits : (fuel n : ℕ) → n < fuel → value_from 0 (digits fuel n) ≡ n
unfolding digits
value-digits zero n h = absurd (omega arith)
value-digits (suc fuel) n h = elim (dec_lt n 10) [
  | yes small ↦ ground arith
  | no large ↦
      let again = value-digits fuel (n / 10) (omega arith) in
      let last = value_from-append 0 (digits fuel (n / 10)) (48 + n % 10) in
      rw (le→ltb n 10 (omega arith), last, again) (omega arith)
]

-- A decimal print determines the number.
pub to_string-injective : (m n : ℕ) → to_string m ≡ to_string n → m ≡ n
unfolding to_string
to_string-injective m n e =
    sym (value-digits (suc m) m (omega arith))
    ∙ ap (value_from 0) e
    ∙ value-digits (suc n) n (omega arith)

-- No character of the list is `c`.
abbrev pub Lacks : ℕ → List ℕ → Type 0
Lacks c [] = Unit
Lacks c (x ∷ xs) = (x ≢ c) × Lacks c xs

Lacks-append : (c : ℕ) (xs ys : List ℕ) → Lacks c xs → Lacks c ys → Lacks c (xs ++ ys)
Lacks-append c [] ys h k = k
Lacks-append c (x ∷ xs) ys h k = (h.0, Lacks-append c xs ys h.1 k)

digits-Lacks : (fuel n : ℕ) → Lacks 35 (digits fuel n)
unfolding digits
digits-Lacks zero n = tt
digits-Lacks (suc fuel) n =
    if_either (Lacks 35) (ltb n 10) ((λ e. absurd (omega arith)), tt)
      (Lacks-append 35 (digits fuel (n / 10)) ((48 + n % 10) ∷ []) (digits-Lacks fuel (n / 10))
        ((λ e. absurd (omega arith)), tt))

pub to_string-Lacks : (n : ℕ) → Lacks 35 (to_string n)
unfolding to_string
to_string-Lacks n = digits-Lacks (suc n) n

-- What stands before and behind the first separator is determined by the whole.
pub split_unique :
    (c : ℕ) (xs ys us vs : List ℕ)
    → Lacks c xs
    → Lacks c ys
    → xs ++ c ∷ us ≡ ys ++ c ∷ vs
    → (xs ≡ ys) × (us ≡ vs)
split_unique c [] [] us vs h k e = (refl, cc)
split_unique c [] (y ∷ ys) us vs h k e = absurd (k.0 (cc))
split_unique c (x ∷ xs) [] us vs h k e = absurd (h.0 (cc))
split_unique c (x ∷ xs) (y ∷ ys) us vs h k e =
    let tail : xs ++ c ∷ us ≡ ys ++ c ∷ vs = cc in
    let head : x ≡ y = cc in
    let (p, q) = split_unique c xs ys us vs h.1 k.1 tail in (ap₂ ◌∷◌ head p, q)

module _ {ℓ} {V : Type ℓ} where
  unfoldable pub find_text : List ℕ → List (List ℕ × V) → Option V
  find_text k [] = none
  find_text k ((j, v) ∷ m) = if text_eq j k then some v else find_text k m

  unfoldable pub insert_text : List ℕ → V → List (List ℕ × V) → List (List ℕ × V)
  insert_text k v [] = (k, v) ∷ []
  insert_text k v ((j, w) ∷ m) = if text_eq j k then (k, v) ∷ m else (j, w) ∷ insert_text k v m

  pub find_text-insert_same :
      (k : List ℕ) (v : V) (m : List (List ℕ × V)) → find_text k (insert_text k v m) ≡ some v
  unfolding find_text insert_text
  find_text-insert_same k v [] = rw (text_eq_refl k) refl
  find_text-insert_same k v ((i, w) ∷ m) =
      ground (arith, find_text-insert_same k v m, text_eq_refl k)

  pub find_text-insert_other :
      (k j : List ℕ) (v : V) (m : List (List ℕ × V))
      → k ≢ j
      → find_text j (insert_text k v m) ≡ find_text j m
  unfolding find_text insert_text
  find_text-insert_other k j v [] h = rw (text_eq_ne k j h) refl
  find_text-insert_other k j v ((i, w) ∷ m) h =
      ground (arith, find_text-insert_other k j v m h, text_eq_ne k j h, text_eq_sound i k)
