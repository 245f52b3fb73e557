-- ===== src/Config.antt =====
-- cpp/core/config/config.hpp: configuration from a file, with the environment before it. A file is
-- the list of its lines, `std::getenv` a function. The readings of numbers are left out.
pub mod Lookup
use cascade.Base.{
  ℕ, suc, ◌+◌, Bool, true, false, ◌||◌, ◌&&◌, not, List, [], ◌∷◌, ◌++◌, Option, none, some, leb,
  ◌==◌, is_empty, if◌then◌else◌,
}
use cascade.Base.Text.{text_eq, find_text, insert_text}

-- " \t\r\n"
pub is_blank : ℕ → Bool
is_blank c = (c == 32) || (c == 9) || (c == 13) || (c == 10)

-- `find_first_not_of`, and the rest from there on.
pub drop_blanks : List ℕ → List ℕ
drop_blanks [] = []
drop_blanks (c ∷ cs) = if is_blank c then drop_blanks cs else c ∷ cs

-- `find_last_not_of`, and what stands up to there.
pub drop_last_blanks : List ℕ → List ℕ
drop_last_blanks [] = []
drop_last_blanks (c ∷ cs) =
    let rest = drop_last_blanks cs in if is_empty rest && is_blank c then [] else c ∷ rest

pub trim : List ℕ → List ℕ
trim s = drop_last_blanks (drop_blanks s)

-- What stands before and behind the first '='; none if there is none.
pub split_at_equals : List ℕ → Option (List ℕ × List ℕ)
split_at_equals [] = none
split_at_equals (c ∷ cs) =
    let rest = split_at_equals cs in
    if c == 61
    then some ([], cs)
    else elim rest [ none ↦ none | some (key, value) ↦ some (c ∷ key, value) ]

-- '#' at the front.
pub is_comment : List ℕ → Bool
is_comment [] = true
is_comment (c ∷ cs) = c == 35

-- One turn of the loop of `load_file`.
pub load_line : List ℕ → List (List ℕ × List ℕ) → List (List ℕ × List ℕ)
load_line line values =
    let trimmed = trim line in
    if is_comment trimmed then values else elim (split_at_equals trimmed) [
      | none ↦ values
      | some (key, value) ↦ insert_text (trim key) (trim value) values
    ]

pub load_lines : List (List ℕ) → List (List ℕ × List ℕ) → List (List ℕ × List ℕ)
load_lines [] values = values
load_lines (line ∷ lines) values = load_lines lines (load_line line values)

-- `load_file`: none for a file that cannot be read.
pub load_file : Option (List (List ℕ)) → List (List ℕ × List ℕ) → Bool × List (List ℕ × List ℕ)
load_file none values = (false, values)
load_file (some lines) values = (true, load_lines lines values)

pub set_value : List ℕ → List ℕ → List (List ℕ × List ℕ) → List (List ℕ × List ℕ)
set_value key value values = insert_text key value values

module _ (getenv : List ℕ → Option (List ℕ)) where
  pub get_string : List ℕ → List ℕ → List (List ℕ × List ℕ) → List ℕ
  get_string key default_value values = elim (getenv key) [
    | some env ↦ env
    | none ↦ elim (find_text key values) [ some value ↦ value | none ↦ default_value ]
  ]

  pub has : List ℕ → List (List ℕ × List ℕ) → Bool
  has key values = elim (getenv key) [
    | some env ↦ true
    | none ↦ elim (find_text key values) [ some value ↦ true | none ↦ false ]
  ]

  -- `::tolower` on ASCII letters.
  pub to_lower : List ℕ → List ℕ
  to_lower [] = []
  to_lower (c ∷ cs) = (if leb 65 c && leb c 90 then c + 32 else c) ∷ to_lower cs

  pub get_bool : List ℕ → Bool → List (List ℕ × List ℕ) → Bool
  get_bool key default_value values =
      let raw = to_lower (get_string key [] values) in
      if is_empty raw
      then default_value
      else if text_eq raw (49 ∷ [])
          || text_eq raw (116 ∷ 114 ∷ 117 ∷ 101 ∷ [])
          || text_eq raw (121 ∷ 101 ∷ 115 ∷ [])
          || text_eq raw (111 ∷ 110 ∷ [])
      then true
      else if text_eq raw (48 ∷ [])
          || text_eq raw (102 ∷ 97 ∷ 108 ∷ 115 ∷ 101 ∷ [])
          || text_eq raw (110 ∷ 111 ∷ [])
          || text_eq raw (111 ∷ 102 ∷ 102 ∷ [])
      then false
      else default_value
