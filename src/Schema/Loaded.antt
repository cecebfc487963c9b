-- ===== src/Schema/Loaded.antt =====
-- The replies of the server that fill the indexes of beer/beer_schema.c.
use bee_c.Base.{
  ℕ, ◌%◌, ◌^◌, ◌≡◌, refl, sym, ap, ◌∙◌, Bool, true, false, ◌&&◌, none, some, List, [], ◌∷◌, length,
  if◌then◌else◌,
}
use bee_c.Msgpuck.{Msgpuck, MpType, ℤ}
use bee_c.Reply.{is_type}
use bee_c.Schema.{
  Assoc, Finds, Ival, Sval, Schema, u32_key, as_int32, at_address, stosid, stoiid, put_index,
  allocated, index_of, at_space, add_index, indexes_loop, add_indexes,
}
use bee_c.Schema.Spaces.{is_key}
use bee_c.Schema.Indexes.{
  IndexEntry, indexed, indexed-ext, same_address, same_space, index_by_address, number_by_address,
  at_address-kept,
}

module _ {SM IM : Type 0} (sm : Assoc SM ℕ) (im : Assoc IM Ival) (laws : Finds im) where
  module _ (mp : Msgpuck) (grants : ℕ → Bool) where
    -- The bytes of a tuple as the codec reads them: an array of the number of a space that is in
    -- the cache, a number, a name and more, with `rest` behind it.
    pub record IndexTuple (s : Schema SM IM) (p : List ℕ) (e : IndexEntry) (rest : List ℕ)
        : Type 0 where
      pub array : is_type mp MpType.mp_array p ≡ true
      pub space : (mp.decode_uint (mp.decode_array p).1).0 % 2 ^ 32 ≡ e.0
      pub known :
          (a : ℕ) × (sval : Sval IM) × (sm.find (u32_key e.0) s.space_hash ≡ some a)
          × (at_address s.heap a ≡ some sval)
      pub uint : is_type mp MpType.mp_uint (mp.decode_uint (mp.decode_array p).1).1 ≡ true
      pub number : (mp.decode_uint (mp.decode_uint (mp.decode_array p).1).1).0 % 2 ^ 32 ≡ e.1.0
      pub str :
          is_type mp MpType.mp_str (mp.decode_uint (mp.decode_uint (mp.decode_array p).1).1).1
          ≡ true
      pub name :
          (mp.decode_str (mp.decode_uint (mp.decode_uint (mp.decode_array p).1).1).1).0 ≡ e.1.1
      pub behind : mp.next p ≡ rest

    -- A tuple of an index whose space is in the cache is added where memory is found: the name and
    -- the number of the index give its number in that space and in no other, and all else is
    -- found as before.
    pub add_index-found :
        (s : Schema SM IM) (p rest : List ℕ) (e : IndexEntry)
        → ((k : ℕ) → grants k ≡ true)
        → IndexTuple s p e rest
        → (s' : Schema SM IM) × (add_index sm im mp grants s p ≡ (true, s', rest))
          × ((sid : ℕ) (k : List ℕ)
              → stoiid sm im s' sid k ≡ (
                  if same_space sm im laws s sid e.0 && is_key e.1 k
                  then as_int32 e.1.0
                  else stoiid sm im s sid k))
          × ((k : List ℕ) → stosid sm im s' k ≡ stosid sm im s k)
          × (s'.space_hash ≡ s.space_hash)
          × ((b : ℕ) (x : Sval IM)
              → at_address s.heap b ≡ some x
              → (y : Sval IM) × (at_address s'.heap b ≡ some y))
    unfolding add_index index_of put_index stoiid stosid
    add_index-found s p rest e w t =
        let (a, sval, f, at') = t.known in
        let s1 = allocated sm im s 4 in
        let s' = put_index sm im s1 a sval e.1.0 e.1.1 in
        let id = (mp.decode_uint (mp.decode_array p).1).1 in
        let known : at_space sm im mp grants s (some a) id p (mp.next p)
            ≡ index_of sm im mp grants s a sval id (mp.next p) =
          ap
            (λ o. elim o [
              | none ↦ (false, s, p)
              | some space ↦ index_of sm im mp grants s a space id (mp.next p)
            ])
            at' in
        let put : index_of sm im mp grants s a sval id (mp.next p) ≡ (true, s', rest) =
          simp (index_of, w, t.str, t.number, t.name, t.behind) refl in
        (
          s',
          simp (add_index, t.array, t.uint, t.space, f) (known ∙ put),
          λ sid k.
              index_by_address sm im laws s1 a sval e.1.0 e.1.1 k
                (sm.find (u32_key sid) s.space_hash) at'
              ∙ ap
                  (λ o.
                    if same_address (sm.find (u32_key sid) s.space_hash) o && is_key e.1 k
                    then as_int32 e.1.0
                    else stoiid sm im s sid k)
                  (sym f),
          λ k. number_by_address sm im laws s1 a sval e.1.0 e.1.1 (sm.find k s.space_hash) at',
          refl,
          λ b x h. at_address-kept s.heap a b sval _ x at' h,
        )

    -- Such tuples one behind the other.
    abbrev pub IndexTuples : Schema SM IM → List ℕ → List IndexEntry → Type 0
    IndexTuples s p [] = Unit {0}
    IndexTuples s p (e ∷ es) = (rest : List ℕ) × IndexTuple s p e rest × IndexTuples s rest es

    known_still :
        (s s' : Schema SM IM) (p rest : List ℕ) (e : IndexEntry)
        → s'.space_hash ≡ s.space_hash
        → ((b : ℕ) (x : Sval IM)
            → at_address s.heap b ≡ some x
            → (y : Sval IM) × (at_address s'.heap b ≡ some y))
        → IndexTuple s p e rest
        → IndexTuple s' p e rest
    known_still s s' p rest e same kept t =
        let (a, sval, f, at') = t.known in
        let (sval', at'') = kept a sval at' in
        record {
          array = t.array;
          space = t.space;
          known = (a, sval', ap (sm.find (u32_key e.0)) same ∙ f, at'');
          uint = t.uint;
          number = t.number;
          str = t.str;
          name = t.name;
          behind = t.behind;
        }

    all_known :
        (s s' : Schema SM IM) (p : List ℕ) (es : List IndexEntry)
        → s'.space_hash ≡ s.space_hash
        → ((b : ℕ) (x : Sval IM)
            → at_address s.heap b ≡ some x
            → (y : Sval IM) × (at_address s'.heap b ≡ some y))
        → IndexTuples s p es
        → IndexTuples s' p es
    all_known s s' p [] same kept t = tt
    all_known s s' p (e ∷ es) same kept (rest, t, ts) =
        (rest, known_still s s' p rest e same kept t, all_known s s' rest es same kept ts)

    indexes_loop-found :
        (es : List IndexEntry) (s : Schema SM IM) (p : List ℕ)
        → ((k : ℕ) → grants k ≡ true)
        → IndexTuples s p es
        → (s' : Schema SM IM) × (indexes_loop sm im mp grants (length es) s p ≡ (true, s'))
          × ((sid : ℕ) (k : List ℕ)
              → stoiid sm im s' sid k ≡ indexed (same_space sm im laws s) es (stoiid sm im s) sid k)
          × ((k : List ℕ) → stosid sm im s' k ≡ stosid sm im s k)
    unfolding indexes_loop
    indexes_loop-found [] s p w t = (s, refl, λ sid k. refl, λ k. refl)
    indexes_loop-found (e ∷ es) s p w (rest, t, ts) =
        let (s1, step, here, spaces, same, kept) = add_index-found s p rest e w t in
        let (s', loop, finds, spaces') =
          indexes_loop-found es s1 rest w (all_known s s1 rest es same kept ts) in
        let f : ℕ → List ℕ → ℤ = λ sid' k'.
          if same_space sm im laws s sid' e.0 && is_key e.1 k'
          then as_int32 e.1.0
          else stoiid sm im s sid' k' in
        (
          s',
          ap
                (λ (x : Bool × Schema SM IM × List ℕ).
                  if x.0 then indexes_loop sm im mp grants (length es) x.1 x.2 else (false, x.1))
                step
              ∙ loop,
          λ sid k.
              finds sid k
              ∙ ap
                  (λ h.
                    indexed (λ a b. same_address (sm.find (u32_key a) h) (sm.find (u32_key b) h)) es
                      (stoiid sm im s1) sid k)
                  same
              ∙ indexed-ext (same_space sm im laws s) es (stoiid sm im s1) f sid k here,
          λ k. spaces' k ∙ spaces k,
        )

    -- Where memory is found, the reply to the select of indexes, whose spaces are in the cache,
    -- is taken over whole: the name and the number of each index give its number in its space,
    -- where the last of several indexes with a key counts, and all other lookups find what they
    -- found.
    pub add_indexes-found :
        (es : List IndexEntry) (s : Schema SM IM) (data' first : List ℕ) (j : ℕ)
        → ((k : ℕ) → grants k ≡ true)
        → mp.check data' ≡ some j
        → is_type mp MpType.mp_array data' ≡ true
        → mp.decode_array data' ≡ (length es, first)
        → IndexTuples s first es
        → (s' : Schema SM IM) × (add_indexes sm im mp grants s data' ≡ (true, s'))
          × ((sid : ℕ) (k : List ℕ)
              → stoiid sm im s' sid k ≡ indexed (same_space sm im laws s) es (stoiid sm im s) sid k)
          × ((k : List ℕ) → stosid sm im s' k ≡ stosid sm im s k)
    unfolding add_indexes
    add_indexes-found es s data' first j w c t d ts =
        let (s', loop, finds, spaces) = indexes_loop-found es s first w ts in
        (s', simp (add_indexes, c, t, d) loop, finds, spaces)
