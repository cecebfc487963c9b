-- ===== src/Iter/Pairs.antt =====
-- The walks of the iterator over a map (beer/beer_iter.c).
use bee_c.Base.{
  ℕ, zero, suc, ◌+◌, ◌%◌, ◌^◌, ◌<◌, ◌≡◌, refl, ap, ap₂, ◌∙◌, subst, Bool, Bool-cases, inl, inr,
  true, false, some,
}
use bee_c.Base.{List, [], ◌∷◌, ◌++◌, length, ltb, ◌==◌, if◌then◌else◌, arith}
use bee_c.Msgpuck.{Msgpuck, MpType, pos, negsuc}
use bee_c.Reply.{is_type}
use bee_c.Iter.{MapIter, map_next, map_rewind, iter_map, after, as_uint32, is_zero, between}
use bee_c.Iter.Visits.{Whole, between-append, under_way}

abbrev pub Pair : Type 0
Pair = List ℕ × List ℕ

abbrev pub joined : List Pair → List ℕ
joined [] = []
joined (p ∷ ps) = p.0 ++ (p.1 ++ joined ps)

abbrev upcoming : MapIter → List ℕ
upcoming i = if is_zero (after i.cur_index) then i.first_key else i.value_end

abbrev current : MapIter → Pair
current i = (between i.key i.key_end, between i.value i.value_end)

module _ (mp : Msgpuck) where
  -- The pairs that n calls of `next` visit, up to one that ends.
  unfoldable pub visited_pairs : ℕ → MapIter → List Pair
  unfolding map_next
  visited_pairs zero i = []
  visited_pairs (suc n) i =
      let (more, j) = map_next mp i in
      let rest = visited_pairs n j in if more then current j ∷ rest else []

  abbrev pub map_calls : ℕ → MapIter → MapIter
  map_calls zero i = i
  map_calls (suc n) i = map_calls n (map_next mp i).1

  abbrev pub PairsWhole : List Pair → Type 0
  PairsWhole [] = Unit {0}
  PairsWhole (p ∷ ps) = Whole mp p.0 × (Whole mp p.1 × PairsWhole ps)

  map_next-step :
      (k v rest : List ℕ) (i : MapIter) (n : ℕ)
      → after i.cur_index ≡ pos n
      → n < i.pair_count
      → i.pair_count < 2 ^ 31
      → upcoming i ≡ k ++ (v ++ rest)
      → Whole mp k
      → Whole mp v
      → map_next mp i ≡ (
        true,
        record i {
          cur_index = pos n;
          key = k ++ (v ++ rest);
          key_end = v ++ rest;
          value = v ++ rest;
          value_end = rest;
        },
      )
  unfolding map_next
  map_next-step k v rest i n e less few u w x =
      let more : ltb (n % 2 ^ 32) i.pair_count ≡ true = ground (arith, less) in
      let u' : (if is_zero (pos n) then i.first_key else i.value_end) ≡ k ++ (v ++ rest) =
        subst (λ z. (if is_zero z then i.first_key else i.value_end) ≡ k ++ (v ++ rest)) e u in
      rw (e, more, u', w (v ++ rest), x rest) refl

  visited_pairs-suc :
      (n : ℕ) (i j : MapIter)
      → map_next mp i ≡ (true, j)
      → visited_pairs (suc n) i ≡ current j ∷ visited_pairs n j
  unfolding visited_pairs
  visited_pairs-suc n i j e =
      ap (λ (x : Bool × MapIter). if x.0 then current x.1 ∷ visited_pairs n x.1 else []) e

  pairs_from :
      (ps : List Pair) (i : MapIter) (n : ℕ)
      → after i.cur_index ≡ pos n
      → n + length ps ≡ i.pair_count
      → i.pair_count < 2 ^ 31
      → upcoming i ≡ joined ps
      → PairsWhole ps
      → visited_pairs (suc (length ps)) i ≡ ps
  unfolding visited_pairs map_next
  pairs_from [] i n e c few u w =
      let done : ltb (n % 2 ^ 32) i.pair_count ≡ false = ground (arith, c) in
      simp (visited_pairs, e, done) refl
  pairs_from (p ∷ ps) i n e c few u (w, (x, ws)) =
      let j : MapIter = record i {
        cur_index = pos n;
        key = p.0 ++ (p.1 ++ joined ps);
        key_end = p.1 ++ joined ps;
        value = p.1 ++ joined ps;
        value_end = joined ps;
      } in
      visited_pairs-suc (suc (length ps)) i j
        (map_next-step p.0 p.1 (joined ps) i n e (omega arith) few u w x)
      ∙ ap₂ (λ q qs. q ∷ qs)
          (ap₂ (λ a b. (a, b)) (between-append p.0 (p.1 ++ joined ps))
            (between-append p.1 (joined ps)))
          (pairs_from ps j (n + 1) refl (omega arith) few
            (under_way mp (pos (n + 1)) n i.first_key (joined ps) refl) ws)

  rewind-next : (i : MapIter) → map_rewind mp (map_next mp i).1 ≡ map_rewind mp i
  unfolding map_rewind map_next
  rewind-next i = elim (Bool-cases (ltb (as_uint32 (after i.cur_index)) i.pair_count)) [
    | inl y ↦ rw y refl
    | inr n ↦ rw n refl
  ]

  rewind-calls : (n : ℕ) (i : MapIter) → map_rewind mp (map_calls n i) ≡ map_rewind mp i
  rewind-calls zero i = refl
  rewind-calls (suc n) i = rewind-calls n (map_next mp i).1 ∙ rewind-next i

  -- An iterator over a map of fewer than 2 ^ 31 pairs, which the codec accepts, decodes and steps
  -- over one by one, exists where memory is found; its calls of next visit exactly the pairs of
  -- keys and values, in order and once each, and then end, and after any number of calls a rewind
  -- makes them visit all pairs again.
  pub iter_map-visits :
      (ps : List Pair) (j n : ℕ)
      → let data' = mp.encode_map (length ps) ++ joined ps in
        length ps < 2 ^ 31
        → mp.check data' ≡ some j
        → (length data' == 0) ≡ false
        → is_type mp MpType.mp_map data' ≡ true
        → mp.decode_map data' ≡ (length ps, joined ps)
        → PairsWhole ps
        → (i : MapIter) × (iter_map mp true data' ≡ some i)
          × (visited_pairs (suc (length ps)) i ≡ ps)
          × (visited_pairs (suc (length ps)) (map_rewind mp (map_calls n i)) ≡ ps)
  unfolding iter_map map_rewind map_next
  iter_map-visits ps j n few c l t d w =
      let data' = mp.encode_map (length ps) ++ joined ps in
      let i : MapIter = record {
        status = true;
        data' = data';
        first_key = joined ps;
        key = [];
        key_end = [];
        value = [];
        value_end = [];
        pair_count = length ps;
        cur_index = negsuc 0;
      } in
      (
        i,
        simp (iter_map, c, l, t, d) refl,
        pairs_from ps i 0 refl (omega arith) few refl w,
        ap (visited_pairs (suc (length ps))) (rewind-calls n i)
            ∙ pairs_from ps i 0 refl (omega arith) few refl w,
      )
