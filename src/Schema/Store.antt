-- ===== src/Schema/Store.antt =====
-- `struct beer_schema` and the functions of beer/beer_schema.c that fill it and look names up in it.
-- The hash table of beer/beer_assoc.h is an instance of mhash, which is code of third_party: it is a
-- parameter, a map from byte strings to pointers.
use bee_c.Base.{
  ℕ, zero, suc, ◌+◌, ◌-◌, ◌/◌, ◌%◌, ◌^◌, ◌≡◌, Bool, true, false, not, Option, none, some, List, [],
  ◌∷◌, ◌++◌, length, ltb, if◌then◌else◌,
}
use bee_c.Msgpuck.{Msgpuck, MpType, ℤ, pos, negsuc}
use bee_c.Reply.{is_type}
use bee_c.Request.Auth.{same_bytes}

pub record Assoc (M V : Type 0) : Type 0 where
  pub new : M
  pub put : List ℕ → V → M → M
  pub find : List ℕ → M → Option V

-- What the documentation promises of `put` and `find`, where memory is found.
pub record Finds {M V : Type 0} (m : Assoc M V) : Type 0 where
  pub find-new : (k : List ℕ) → m.find k m.new ≡ none
  pub find-put :
      (k k' : List ℕ) (v : V) (t : M)
      → m.find k (m.put k' v t) ≡ (if same_bytes k k' then some v else m.find k t)

-- `struct beer_schema_ival`.
pub record Ival : Type 0 where
  pub number : ℕ
  pub name : List ℕ

-- `struct beer_schema_sval`, with the hash of its indexes.
pub record Sval (IM : Type 0) : Type 0 where
  pub number : ℕ
  pub name : List ℕ
  pub index : IM

-- The hash maps a name and a number to the address of a space, which is its place in `heap`; a space
-- has one address under both keys. `allocs` counts the calls of the allocator.
pub record Schema (SM IM : Type 0) : Type 0 where
  pub space_hash : SM
  pub heap : List (Sval IM)
  pub allocs : ℕ

-- The four bytes of a `uint32_t` in memory.
abbrev pub u32_key : ℕ → List ℕ
u32_key n = n % 256 ∷ (n / 256) % 256 ∷ (n / 65536) % 256 ∷ (n / 16777216) % 256 ∷ []

-- A `uint32_t` that is returned as an `int32_t`.
abbrev pub as_int32 : ℕ → ℤ
as_int32 n = if ltb n (2 ^ 31) then pos n else negsuc (2 ^ 32 - 1 - n)

abbrev pub at_address {ℓ} : {A : Type ℓ} → List A → ℕ → Option A
at_address [] i = none
at_address (x ∷ xs) zero = some x
at_address (x ∷ xs) (suc i) = at_address xs i

-- The object at an address is changed.
abbrev pub replace_at {ℓ} : {A : Type ℓ} → List A → ℕ → A → List A
replace_at [] i y = []
replace_at (x ∷ xs) zero y = y ∷ xs
replace_at (x ∷ xs) (suc i) y = x ∷ replace_at xs i y

module _ {SM IM : Type 0} (sm : Assoc SM ℕ) (im : Assoc IM Ival) where
  unfoldable pub schema_new : Schema SM IM
  schema_new = record { space_hash = sm.new; heap = []; allocs = 0 }

  -- The space under a key.
  abbrev pub space_at : Schema SM IM → Option ℕ → Option (Sval IM)
  space_at s none = none
  space_at s (some a) = at_address s.heap a

  abbrev pub number_of : Option (Sval IM) → ℤ
  number_of none = negsuc 0
  number_of (some space) = as_int32 space.number

  unfoldable pub stosid : Schema SM IM → List ℕ → ℤ
  stosid s name = number_of (space_at s (sm.find name s.space_hash))

  abbrev pub index_number : Option Ival → ℤ
  index_number none = negsuc 0
  index_number (some index) = as_int32 index.number

  abbrev pub index_in : List ℕ → Option (Sval IM) → ℤ
  index_in name none = negsuc 0
  index_in name (some space) = index_number (im.find name space.index)

  unfoldable pub stoiid : Schema SM IM → ℕ → List ℕ → ℤ
  stoiid s sid name = index_in name (space_at s (sm.find (u32_key sid) s.space_hash))

  abbrev pub allocated : Schema SM IM → ℕ → Schema SM IM
  allocated s n = record s { allocs = s.allocs + n }

  -- Both keys of a new space.
  unfoldable pub put_space : Schema SM IM → ℕ → List ℕ → Schema SM IM
  put_space s number name =
      let a = length s.heap in
      record s {
        space_hash = sm.put (u32_key number) a (sm.put name a s.space_hash);
        heap = s.heap ++ record { number = number; name = name; index = im.new } ∷ [];
      }

  -- Both keys of a new index of the space at an address.
  unfoldable pub put_index : Schema SM IM → ℕ → Sval IM → ℕ → List ℕ → Schema SM IM
  put_index s a space number name =
      let ival : Ival = record { number = number; name = name } in
      record s {
        heap =
            replace_at s.heap a (record space {
              index = im.put (u32_key number) ival (im.put name ival space.index);
            });
      }

  -- `grants` is whether each call of the allocator succeeds.
  module _ (mp : Msgpuck) (grants : ℕ → Bool) where
    -- One tuple at a pointer, which moves behind it; true is the result 0.
    unfoldable pub add_space : Schema SM IM → List ℕ → Bool × Schema SM IM × List ℕ
    unfolding put_space
    add_space s data' =
        let tuple = (mp.decode_array data').1 in
        let (number, owner) = mp.decode_uint tuple in
        let text = mp.next owner in
        let name = (mp.decode_str text).0 in
        let rest = mp.next data' in
        let a = s.allocs in
        if not (is_type mp MpType.mp_array data')
        then (false, s, rest)
        else if not (grants a)
        then (false, allocated s 1, rest)
        else if not (is_type mp MpType.mp_uint tuple)
        then (false, allocated s 1, rest)
        else if not (is_type mp MpType.mp_str text)
        then (false, allocated s 1, rest)
        else if not (grants (a + 1))
        then (false, allocated s 2, rest)
        else if not (grants (a + 2))
        then (false, allocated s 3, rest)
        else if not (grants (a + 3))
        then (false, allocated s 4, rest)
        else if not (grants (a + 4))
        then (false, allocated s 5, rest)
        else (true, put_space (allocated s 5) (number % 2 ^ 32) name, rest)

    unfoldable pub spaces_loop : ℕ → Schema SM IM → List ℕ → Bool × Schema SM IM
    unfolding add_space
    spaces_loop zero s p = (true, s)
    spaces_loop (suc n) s p =
        let (added, s', rest) = add_space s p in
        let later = spaces_loop n s' rest in if added then later else (false, s')

    -- The data of a reply; NULL is the empty list.
    unfoldable pub add_spaces : Schema SM IM → List ℕ → Bool × Schema SM IM
    unfolding spaces_loop
    add_spaces s data' =
        let (n, first) = mp.decode_array data' in
        elim (mp.check data') [
          | none ↦ (false, s)
          | some _ ↦ if is_type mp MpType.mp_array data' then spaces_loop n s first else (false, s)
        ]

    -- The index of a tuple, once its space was found at an address.
    unfoldable pub index_of :
        Schema SM IM → ℕ → Sval IM → List ℕ → List ℕ → Bool × Schema SM IM × List ℕ
    unfolding put_index
    index_of s a space id rest =
        let (number, text) = mp.decode_uint id in
        let name = (mp.decode_str text).0 in
        let k = s.allocs in
        if not (grants k)
        then (false, allocated s 1, rest)
        else if not (is_type mp MpType.mp_str text)
        then (false, allocated s 1, rest)
        else if not (grants (k + 1))
        then (false, allocated s 2, rest)
        else if not (grants (k + 2))
        then (false, allocated s 3, rest)
        else if not (grants (k + 3))
        then (false, allocated s 4, rest)
        else (true, put_index (allocated s 4) a space (number % 2 ^ 32) name, rest)

    abbrev pub at_space :
        Schema SM IM → Option ℕ → List ℕ → List ℕ → List ℕ → Bool × Schema SM IM × List ℕ
    at_space s none id data' rest = (false, s, data')
    at_space s (some a) id data' rest = elim (at_address s.heap a) [
      | none ↦ (false, s, data')
      | some space ↦ index_of s a space id rest
    ]

    -- The type of the second element is looked at, and not that of the first; where the space is
    -- not known, the pointer stays.
    unfoldable pub add_index : Schema SM IM → List ℕ → Bool × Schema SM IM × List ℕ
    unfolding index_of
    add_index s data' =
        let tuple = (mp.decode_array data').1 in
        let (number, id) = mp.decode_uint tuple in
        let rest = mp.next data' in
        if not (is_type mp MpType.mp_array data')
        then (false, s, rest)
        else if not (is_type mp MpType.mp_uint id)
        then (false, s, rest)
        else at_space s (sm.find (u32_key (number % 2 ^ 32)) s.space_hash) id data' rest

    unfoldable pub indexes_loop : ℕ → Schema SM IM → List ℕ → Bool × Schema SM IM
    unfolding add_index
    indexes_loop zero s p = (true, s)
    indexes_loop (suc n) s p =
        let (added, s', rest) = add_index s p in
        let later = indexes_loop n s' rest in if added then later else (false, s')

    unfoldable pub add_indexes : Schema SM IM → List ℕ → Bool × Schema SM IM
    unfolding indexes_loop
    add_indexes s data' =
        let (n, first) = mp.decode_array data' in
        elim (mp.check data') [
          | none ↦ (false, s)
          | some _ ↦ if is_type mp MpType.mp_array data' then indexes_loop n s first else (false, s)
        ]
