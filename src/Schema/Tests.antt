-- ===== src/Schema/Tests.antt =====
-- A cache of one space and one index, in a small codec whose values begin with a tag.
use bee_c.Base.{ℕ, ◌≡◌, refl, true, List, [], ◌∷◌, ◌==◌, if◌then◌else◌}
use bee_c.Msgpuck.{Msgpuck, MpType}
use bee_c.Msgpuck.Tagged.{tagged, second, skip, type_by_tag}
use bee_c.Schema.{Ival, Schema, schema_new, put_space, stosid, stoiid, add_spaces, add_indexes}
use bee_c.Schema.Spaces.{Entry, found, IsValid, add_spaces-found}
use bee_c.Schema.Indexes.{indexed, same_space}
use bee_c.Schema.Loaded.{add_indexes-found}
use bee_c.Schema.Listed.{Puts, listed, listed-Finds}

-- Strings of one byte, with the tag 4.
abbrev type_of : List ℕ → MpType
type_of [] = MpType.mp_nil
type_of (t ∷ p) = if t == 4 then MpType.mp_str else type_by_tag (t ∷ p)

abbrev text_of : List ℕ → List ℕ × List ℕ
text_of (t ∷ c ∷ p) = (c ∷ [], p)
text_of _ = ([], [])

abbrev lettered : Msgpuck
lettered = record tagged {
  type_of = type_of;
  decode_array = second;
  decode_str = text_of;
  next = skip 9 1;
}

abbrev Cache : Type 0
Cache = Schema (Puts ℕ) (Puts Ival)

abbrev empty : Cache
empty = schema_new (listed ℕ) (listed Ival)

abbrev entry : Entry
entry = (512, 97 ∷ [])

-- The space 512 with the name of one letter.
abbrev space_bytes : List ℕ
space_bytes = 5 ∷ 1 ∷ 5 ∷ 3 ∷ 1 ∷ 512 ∷ 1 ∷ 1 ∷ 4 ∷ 97 ∷ []

abbrev index_bytes : List ℕ
index_bytes = 5 ∷ 1 ∷ 5 ∷ 3 ∷ 1 ∷ 512 ∷ 1 ∷ 0 ∷ 4 ∷ 112 ∷ []

add_spaces-found_example :
    (s : Cache) × (add_spaces (listed ℕ) (listed Ival) lettered (λ k. true) empty space_bytes
      ≡ (true, s))
    × IsValid (listed ℕ) (listed Ival) (listed-Finds ℕ) s
    × ((k : List ℕ)
        → stosid (listed ℕ) (listed Ival) s k
          ≡ found (entry ∷ []) (stosid (listed ℕ) (listed Ival) empty) k)
unfolding schema_new
add_spaces-found_example =
    add_spaces-found (listed ℕ) (listed Ival) (listed-Finds ℕ) lettered (λ k. true) (entry ∷ [])
      empty space_bytes (5 ∷ 3 ∷ 1 ∷ 512 ∷ 1 ∷ 1 ∷ 4 ∷ 97 ∷ []) 1 (λ k. refl) (λ k a e. cc) refl
      refl refl
      (
        [],
        record { array = refl; uint = refl; number = refl; str = refl; name = refl; behind = refl },
        tt,
      )

-- A cache with that space.
abbrev one_space : Cache
one_space = put_space (listed ℕ) (listed Ival) empty 512 (97 ∷ [])

add_indexes-found_example :
    (s : Cache) × (add_indexes (listed ℕ) (listed Ival) lettered (λ k. true) one_space index_bytes
      ≡ (true, s))
    × ((sid : ℕ) (k : List ℕ)
        → stoiid (listed ℕ) (listed Ival) s sid k
          ≡ indexed
              (same_space (listed ℕ) (listed Ival) (listed-Finds Ival) one_space)
              ((512, (0, 112 ∷ [])) ∷ [])
              (stoiid (listed ℕ) (listed Ival) one_space)
              sid
              k)
    × ((k : List ℕ)
        → stosid (listed ℕ) (listed Ival) s k ≡ stosid (listed ℕ) (listed Ival) one_space k)
unfolding schema_new put_space
add_indexes-found_example =
    add_indexes-found (listed ℕ) (listed Ival) (listed-Finds Ival) lettered (λ k. true)
      ((512, (0, 112 ∷ [])) ∷ []) one_space index_bytes (5 ∷ 3 ∷ 1 ∷ 512 ∷ 1 ∷ 0 ∷ 4 ∷ 112 ∷ []) 1
      (λ k. refl) refl refl refl
      (
        [],
        record {
          array = refl;
          space = refl;
          known = (0, record { number = 512; name = 97 ∷ []; index = [] }, refl, refl);
          uint = refl;
          number = refl;
          str = refl;
          name = refl;
          behind = refl;
        },
        tt,
      )
