-- ===== src/ConfigParser.antt =====
-- lib/ConfigParser.cpp. A string is its bytes; a pointer is a number. The opening of the file and
-- what is printed are left out.
pub mod Lines
pub mod Lookup
pub mod Strip
use usbproxy.Base.{
  fun_ext, ℕ, zero, suc, ◌+◌, ◌-◌, ◌*◌, ◌/◌, ◌%◌, ◌^◌, ◌≤◌, ◌<◌, min, max, ◌≡◌, refl, sym, ap, ap₂,
  subst, ◌∙◌, ◌≢◌, ◌↔◌, ◌⊎◌, inl, inr, Bool, true, false, ◌&&◌, ◌||◌, not, Option, none, some, List,
  [], ◌∷◌, ◌++◌, map, append-nil, append_assoc, arith, ltb, leb, ◌==◌, if◌then◌else◌, ltb→lt,
  lt→ltb, leb→le, le→leb, lt→leb, ==_iff, ==_refl, ==_ne, if-cases, below, below-holds, Bool-cases,
  Option-cases, length, get_elem?, get_or, set, take, drop, replicate, length-append, length-set,
  get_elem?-set_self, get_elem?-set_ne, get_elem?-none, get_elem?-some, get_elem?-append_left,
  get_elem?-append_right, get_elem?-inside, get_elem?-replicate, get_elem?-take, take-append_length,
  drop-append_length, take-append_left, take_all, length-take, length-drop, length-replicate, All,
  All-append, All-get_elem?, All-set, All-replicate, get_elem?-at, set-at, Bytes, u8, u16, has,
}

-- ' ' or '\t', and these or '\n'.
abbrev pub is_blank : ℕ → Bool
is_blank c = c == 32 || c == 9

abbrev pub is_space : ℕ → Bool
is_space c = is_blank c || c == 10

-- The first loop of `StrStrip`: the index of the first character that is not blank.
unfoldable pub first_index : Bytes → Option ℕ
first_index [] = none
first_index (c ∷ s) =
    let rest = first_index s in
    if is_blank c then elim rest [ none ↦ none | some i ↦ some (suc i) ] else some 0

-- The second loop, downwards from `x`: it does not come to index 0.
unfoldable pub last_index : ℕ → Bytes → Option ℕ
last_index zero s = none
last_index (suc zero) s = none
last_index (suc (suc k)) s =
    let rest = last_index (suc k) s in if is_space (get_or s (suc k) 0) then rest else some (suc k)

abbrev pub or_else : Option ℕ → ℕ → ℕ
or_else none d = d
or_else (some n) d = n

-- `substr`.
abbrev pub substr : ℕ → ℕ → Bytes → Bytes
substr start count s = take count (drop start s)

unfoldable pub str_strip : Bytes → Bytes
unfolding first_index last_index
str_strip s =
    if get_or s 0 0 == 10
    then []
    else (let start = or_else (first_index s) 0 in
        let end = or_else (last_index (length s) s) (length s) in substr start (end - start + 1) s)

abbrev pub same : Bytes → Bytes → Bool
same [] [] = true
same [] (b ∷ bs) = false
same (a ∷ xs) [] = false
same (a ∷ xs) (b ∷ ys) = a == b && same xs ys

-- `std::map`, by its entries.
module _ {ℓ} {A : Type ℓ} where
  unfoldable pub find : Bytes → List (Bytes × A) → Option A
  find key [] = none
  find key ((k, a) ∷ entries) = let rest = find key entries in if same key k then some a else rest

  unfoldable pub put : Bytes → A → List (Bytes × A) → List (Bytes × A)
  put key a [] = (key, a) ∷ []
  put key a ((k, b) ∷ entries) =
      let rest = put key a entries in if same key k then (key, a) ∷ entries else (k, b) ∷ rest

-- The empty string, or vector, for a key that is not there.
abbrev pub or_empty {ℓ} : {A : Type ℓ} → Option (List A) → List A
or_empty none = []
or_empty (some xs) = xs

pub record ConfigParser : Type 0 where
  pub strings : List (Bytes × Bytes)
  pub vectors : List (Bytes × List Bytes)
  pub pointers : List (Bytes × ℕ)

unfoldable pub init : ConfigParser
init = record { strings = []; vectors = []; pointers = [] }

unfoldable pub set_string : ConfigParser → Bytes → Bytes → ConfigParser
unfolding put
set_string p key value = record p { strings = put key value p.strings }

unfoldable pub get_string : ConfigParser → Bytes → Bytes
unfolding find
get_string p key = or_empty (find key p.strings)

-- A new vector for a key that is not there, and otherwise one more value in the old one.
abbrev pub extended : Option (List Bytes) → Bytes → List Bytes
extended none value = value ∷ []
extended (some values) value = values ++ (value ∷ [])

unfoldable pub add_to_vector : ConfigParser → Bytes → Bytes → ConfigParser
unfolding find put
add_to_vector p key value = record p {
  vectors = put key (extended (find key p.vectors) value) p.vectors;
}

unfoldable pub get_vector : ConfigParser → Bytes → List Bytes
unfolding find
get_vector p key = or_empty (find key p.vectors)

unfoldable pub add_pointer : ConfigParser → Bytes → ℕ → ConfigParser
unfolding put
add_pointer p key value = record p { pointers = put key value p.pointers }

unfoldable pub get_pointer : ConfigParser → Bytes → Option ℕ
unfolding find
get_pointer p key = find key p.pointers

-- `find("=")`.
unfoldable pub find_equals : Bytes → Option ℕ
find_equals [] = none
find_equals (c ∷ s) =
    let rest = find_equals s in
    if c == 61 then some 0 else elim rest [ none ↦ none | some i ↦ some (suc i) ]

-- The body of the loop of `parse_file`. A line without '=' sets nothing.
unfoldable pub parse_line : ConfigParser → Bytes → ConfigParser
unfolding str_strip find_equals set_string
parse_line p line =
    let s = str_strip line in
    if length s == 0 || get_or s 0 0 == 35 then p else elim (find_equals s) [
      | none ↦ p
      | some eq ↦ set_string p (str_strip (take eq s)) (str_strip (drop (suc eq) s))
    ]

-- The lines of a file.
unfoldable pub parse_lines : ConfigParser → List Bytes → ConfigParser
unfolding parse_line
parse_lines p [] = p
parse_lines p (line ∷ lines) = parse_lines (parse_line p line) lines
