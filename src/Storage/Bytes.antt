-- ===== src/Storage/Bytes.antt =====
-- Memory as a list of bytes: what `memcpy` of a fixed-width field stores and loads (a field is
-- little-endian, as on the x86-64 and AArch64 hosts of the project), and the laws of both.
use native.Mathlib.Nat.{pow-suc}
use cascade.Base.{
  ℕ, zero, suc, ◌+◌, ◌*◌, ◌/◌, ◌%◌, ◌^◌, ◌≤◌, ◌<◌, ◌≡◌, refl, ap, sym, List, [], ◌∷◌, ◌++◌,
  append_assoc, arith, length, take, drop, length-take, length-drop, take-append, drop-append_add,
}

-- The `k` bytes of `v`, lowest first.
unfoldable pub le_bytes : ℕ → ℕ → List ℕ
le_bytes zero v = []
le_bytes (suc k) v = (v % 256) ∷ le_bytes k (v / 256)

unfoldable pub of_le : List ℕ → ℕ
of_le [] = 0
of_le (b ∷ bs) = b + of_le bs * 256

-- `memcpy(&field, data + pos, k)`
unfoldable pub load : ℕ → ℕ → List ℕ → ℕ
load pos k bytes = of_le (take k (drop pos bytes))

-- `memcpy(data + pos, xs, |xs|)`
unfoldable pub store : ℕ → List ℕ → List ℕ → List ℕ
store pos xs bytes = take pos bytes ++ (xs ++ drop (pos + length xs) bytes)

abbrev pub AreBytes : List ℕ → Type 0
AreBytes [] = Unit {0}
AreBytes (b ∷ bs) = (b < 256) × AreBytes bs

pub length-le_bytes : (k v : ℕ) → length (le_bytes k v) ≡ k
unfolding le_bytes
length-le_bytes zero v = refl
length-le_bytes (suc k) v = ap suc (length-le_bytes k (v / 256))

pub of_le-le_bytes : (k v : ℕ) → v < 256 ^ k → of_le (le_bytes k v) ≡ v
unfolding le_bytes of_le
of_le-le_bytes zero v h = omega arith
of_le-le_bytes (suc k) v h =
    omega (arith, of_le-le_bytes k (v / 256) (omega (arith, pow-suc 256 k)))

pub le_bytes-of_le :
    (bs : List ℕ) (k : ℕ) → AreBytes bs → length bs ≡ k → le_bytes k (of_le bs) ≡ bs
unfolding le_bytes of_le
le_bytes-of_le [] zero h e = refl
le_bytes-of_le [] (suc k) h e = absurd (omega arith)
le_bytes-of_le (b ∷ bs) zero h e = absurd (omega arith)
le_bytes-of_le (b ∷ bs) (suc k) h e =
    let low : (b + of_le bs * 256) % 256 ≡ b = omega arith in
    let high : (b + of_le bs * 256) / 256 ≡ of_le bs = omega arith in
    rw (low, high) (ap (◌∷◌ b) (le_bytes-of_le bs k h.1 (omega arith)))

-- A load behind a prefix is a load in the rest.
pub load-append :
    (pos j k : ℕ) (pre rest : List ℕ)
    → pos ≡ length pre + j
    → load pos k (pre ++ rest) ≡ load j k rest
unfolding load
load-append pos j k pre rest e =
    ap (λ xs. of_le (take k xs)) (drop-append_add (length pre) pos j pre rest refl e)

pub load-le_bytes : (k v : ℕ) (rest : List ℕ) → v < 256 ^ k → load 0 k (le_bytes k v ++ rest) ≡ v
unfolding load
load-le_bytes k v rest h =
    rw (take-append k (le_bytes k v) rest (sym (length-le_bytes k v))) (of_le-le_bytes k v h)

-- A store inside the free part, right behind what is there.
pub store-append :
    (pos : ℕ) (pre xs free : List ℕ)
    → pos ≡ length pre
    → store pos xs (pre ++ free) ≡ (pre ++ xs) ++ drop (length xs) free
unfolding store
store-append pos pre xs free e = rw (
  take-append pos pre free e,
  drop-append_add (length pre) (pos + length xs) (length xs) pre free refl (omega arith),
  append_assoc pre xs (drop (length xs) free),
)

pub AreBytes-take : (n : ℕ) (bs : List ℕ) → AreBytes bs → AreBytes (take n bs)
AreBytes-take zero bs h = tt
AreBytes-take (suc n) [] h = tt
AreBytes-take (suc n) (b ∷ bs) h = (h.0, AreBytes-take n bs h.1)

pub AreBytes-drop : (n : ℕ) (bs : List ℕ) → AreBytes bs → AreBytes (drop n bs)
AreBytes-drop zero bs h = h
AreBytes-drop (suc n) [] h = tt
AreBytes-drop (suc n) (b ∷ bs) h = AreBytes-drop n bs h.1

of_le-lt : (k : ℕ) (bs : List ℕ) → AreBytes bs → length bs ≤ k → of_le bs < 256 ^ k
unfolding of_le
of_le-lt zero [] h e = omega arith
of_le-lt (suc k) [] h e = omega (arith, pow-suc 256 k, of_le-lt k [] tt (omega arith))
of_le-lt zero (b ∷ bs) h e = absurd (omega arith)
of_le-lt (suc k) (b ∷ bs) h e = omega (arith, pow-suc 256 k, of_le-lt k bs h.1 (omega arith))

pub load-lt : (pos k : ℕ) (bytes : List ℕ) → AreBytes bytes → load pos k bytes < 256 ^ k
unfolding load
load-lt pos k bytes h =
    of_le-lt k (take k (drop pos bytes))
      (AreBytes-take k (drop pos bytes) (AreBytes-drop pos bytes h))
      (omega (arith, length-take k (drop pos bytes)))

-- Storing what was loaded gives the bytes back.
pub le_bytes-load :
    (pos k : ℕ) (bytes : List ℕ)
    → AreBytes bytes
    → pos + k ≤ length bytes
    → le_bytes k (load pos k bytes) ≡ take k (drop pos bytes)
unfolding load
le_bytes-load pos k bytes h fits =
    le_bytes-of_le (take k (drop pos bytes)) k
      (AreBytes-take k (drop pos bytes) (AreBytes-drop pos bytes h))
      (omega (arith, length-take k (drop pos bytes), length-drop pos bytes))
