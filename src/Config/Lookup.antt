-- ===== src/Config/Lookup.antt =====
-- Which value a key has.
use cascade.Base.{ℕ, ◌≡◌, refl, ◌≢◌, List, Option, none, some, Option-cases, inl, inr}
use cascade.Base.Text.{find_text, insert_text, find_text-insert_same, find_text-insert_other}
use cascade.Config.{get_string, set_value}

module _ (getenv : List ℕ → Option (List ℕ)) (key default : List ℕ) where
  lookup_found :
      (value : List ℕ) (values : List (List ℕ × List ℕ))
      → getenv key ≡ none
      → find_text key values ≡ some value
      → get_string getenv key default values ≡ value
  unfolding get_string
  lookup_found value values free there = rw (get_string, free, there) refl

  lookup_same :
      (values others : List (List ℕ × List ℕ))
      → find_text key values ≡ find_text key others
      → get_string getenv key default values ≡ get_string getenv key default others
  unfolding get_string
  lookup_same values others same = elim (Option-cases (getenv key)) [
    | inl free ↦ rw (get_string, free, same) refl
    | inr (env, set) ↦ rw (get_string, set) refl
  ]

-- A value that is set is read back unless the environment has the key, and no other key changes.
get_string-set_value :
    (getenv : List ℕ → Option (List ℕ)) (key other value default : List ℕ)
    (values : List (List ℕ × List ℕ))
    → getenv key ≡ none
    → key ≢ other
    → (get_string getenv key default (set_value key value values) ≡ value)
      × (get_string getenv other default (set_value key value values)
          ≡ get_string getenv other default values)
unfolding set_value
get_string-set_value getenv key other value default values free ne = (
  lookup_found getenv key default value (insert_text key value values) free
      (find_text-insert_same key value values),
  lookup_same getenv other default (insert_text key value values) values
      (find_text-insert_other key other value values ne),
)
