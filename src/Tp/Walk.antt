-- ===== src/Tp/Walk.antt =====
-- The loops over the tuples of a response of include/tp.h and over the fields of each.
use bee_c.Base.{
  ℕ, zero, suc, ◌+◌, ◌-◌, ◌%◌, ◌^◌, ◌<◌, ◌≡◌, refl, sym, ap, ap₂, ◌∙◌, subst, Bool, Bool-cases, inl,
  inr, true, false, some,
}
use bee_c.Base.{
  List, [], ◌∷◌, ◌++◌, append_assoc, length, length-append, take, take-append, concat, ltb, ◌==◌,
  if◌then◌else◌, arith,
}
use bee_c.Msgpuck.{Msgpuck, MpType, pos}
use bee_c.Reply.{is_type}
use bee_c.Reply.RoundTrip.{Decodes, payload, data_body}
use bee_c.Iter.{after, as_uint32, is_zero}
use bee_c.Iter.Visits.{Whole, AllWhole, under_way}
use bee_c.Tp.Iterators.{TpArrayItr, tp_array_itr_init, tp_array_itr_next}
use bee_c.Tp.Response.{
  TpResponse, has_more, tuple_read, tp_reply, tp_next, tp_nextfield, tp_getfield, tp_hasnext,
  tp_hasnextfield, tp_tuplecount, tp_getfieldsize,
}
use bee_c.Tp.Answer.{Readable, answered, at_start}
use bee_c.Tp.Received.{Begins, tp_reply-Answered}

module _ (mp : Msgpuck) where
  -- `while (tp_nextfield(r))`, with the bytes of each field, for at most n calls.
  unfoldable pub read_fields : ℕ → TpResponse → List (List ℕ)
  unfolding tp_nextfield tp_getfield tp_getfieldsize
  read_fields zero r = []
  read_fields (suc n) r =
      let (more, r') = tp_nextfield mp r in
      let rest = read_fields n r' in
      if more then take (tp_getfieldsize r') (tp_getfield r') ∷ rest else []

  -- `while (tp_next(r))` around it, for at most n tuples.
  unfoldable pub read_rows : ℕ → ℕ → TpResponse → List (List (List ℕ))
  unfolding tp_next read_fields
  read_rows zero m r = []
  read_rows (suc n) m r =
      let (more, r') = tp_next mp r in
      let rest = read_rows n m r' in if more then read_fields m r' ∷ rest else []

  -- The place where the next element begins.
  abbrev upcoming : TpArrayItr → List ℕ
  upcoming i = if is_zero (after i.cur_index) then i.first_elem else i.elem_end

  abbrev stepped : TpArrayItr → ℕ → List ℕ → List ℕ → TpArrayItr
  stepped i k v rest = record i { cur_index = pos k; elem = v ++ rest; elem_end = rest }

  next-step :
      (v rest : List ℕ) (i : TpArrayItr) (k : ℕ)
      → after i.cur_index ≡ pos k
      → k < i.elem_count
      → i.elem_count < 2 ^ 31
      → upcoming i ≡ v ++ rest
      → Whole mp v
      → tp_array_itr_next mp i ≡ (true, stepped i k v rest)
  unfolding tp_array_itr_next
  next-step v rest i k e n few u w =
      let more : ltb (k % 2 ^ 32) i.elem_count ≡ true = ground (arith, n) in
      let u' : (if is_zero (pos k) then i.first_elem else i.elem_end) ≡ v ++ rest =
        subst (λ z. (if is_zero z then i.first_elem else i.elem_end) ≡ v ++ rest) e u in
      rw (e, more, u', w rest) refl

  next-end :
      (i : TpArrayItr) (k : ℕ)
      → after i.cur_index ≡ pos k
      → k ≡ i.elem_count
      → i.elem_count < 2 ^ 31
      → (tp_array_itr_next mp i).0 ≡ false
  unfolding tp_array_itr_next
  next-end i k e n few =
      let done : ltb (k % 2 ^ 32) i.elem_count ≡ false = ground (arith, n) in rw (e, done) refl

  -- From field k of the current tuple on, the fields are fewer than 2 ^ 32 bytes long.
  fields_from :
      (vs : List (List ℕ)) (tail : List ℕ) (r : TpResponse) (k n : ℕ)
      → after r.field_itr.cur_index ≡ pos k
      → k + length vs ≡ r.field_itr.elem_count
      → r.field_itr.elem_count < 2 ^ 31
      → upcoming r.field_itr ≡ concat vs ++ tail
      → AllWhole mp vs
      → length (concat vs) < 2 ^ 32
      → length vs < n
      → read_fields n r ≡ vs
  unfolding read_fields tp_nextfield tp_getfield tp_getfieldsize
  fields_from vs tail r k zero e c few u w short h = absurd (omega arith)
  fields_from [] tail r k (suc n) e c few u w short h =
      let stop = next-end r.field_itr k e (omega arith) few in
      simp (read_fields, tp_nextfield, stop) refl
  fields_from (v ∷ vs) tail r k (suc n) e c few u (w, ws) short h =
      let rest = concat vs ++ tail in
      let j = stepped r.field_itr k v rest in
      let step : tp_array_itr_next mp r.field_itr ≡ (true, j) =
        next-step v rest r.field_itr k e (omega arith) few (u ∙ append_assoc v (concat vs) tail)
          w in
      let small : length v + length (concat vs) < 2 ^ 32 =
        omega (arith, length-append v (concat vs)) in
      let size : (length (v ++ rest) - length rest) % 2 ^ 32 ≡ length v =
        omega (arith, length-append v rest) in
      let r' : TpResponse = record r { field_itr = j } in
      let later : read_fields n r' ≡ vs =
        fields_from vs tail r' (k + 1) n refl (omega arith) few
          (under_way mp (pos (k + 1)) k r.field_itr.first_elem rest refl) ws (omega arith)
          (omega arith) in
      simp
        (
          read_fields,
          tp_nextfield,
          step,
          tp_getfieldsize,
          tp_getfield,
          size,
          take-append v rest (length v) refl,
          later,
        )
        refl

  -- A tuple as the codec reads it: the bytes v are one value, an array of the fields fs.
  pub record Tuple (v : List ℕ) (fs : List (List ℕ)) : Type 0 where
    pub whole : Whole mp v
    pub fields : AllWhole mp fs
    pub few : length fs < 2 ^ 31
    pub short : length (concat fs) < 2 ^ 32
    pub checks : (j : ℕ) × (mp.check v ≡ some j)
    pub nonempty : (length v == 0) ≡ false
    pub array : (rest : List ℕ) → is_type mp MpType.mp_array (v ++ rest) ≡ true
    pub elements : (rest : List ℕ) → mp.decode_array (v ++ rest) ≡ (length fs, concat fs ++ rest)

  -- Tuples with their fields, of fewer than m fields each.
  abbrev pub Table : ℕ → List (List ℕ × List (List ℕ)) → Type 0
  Table m [] = Unit {0}
  Table m ((v, fs) ∷ rows) = Tuple v fs × (length fs < m) × Table m rows

  abbrev pub tuples_of : List (List ℕ × List (List ℕ)) → List (List ℕ)
  tuples_of [] = []
  tuples_of ((v, fs) ∷ rows) = v ∷ tuples_of rows

  abbrev pub fields_of : List (List ℕ × List (List ℕ)) → List (List (List ℕ))
  fields_of [] = []
  fields_of ((v, fs) ∷ rows) = fs ∷ fields_of rows

  -- The fields of the tuple that a step gives.
  Tuple-fields :
      (v rest : List ℕ) (fs : List (List ℕ)) (r : TpResponse) (j : TpArrayItr) (m : ℕ)
      → Tuple v fs
      → length fs < m
      → let i = (tp_array_itr_init mp (v ++ rest) (length (v ++ rest) - length rest)).1 in
        read_fields m (record r { tuple_itr = j; field_itr = i }) ≡ fs
  unfolding tp_array_itr_init
  Tuple-fields v rest fs r j m t h =
      let size : length (v ++ rest) - length rest ≡ length v =
        omega (arith, length-append v rest) in
      let inside : take (length v) (v ++ rest) ≡ v = take-append v rest (length v) refl in
      let i : TpArrayItr = at_start mp (length fs) (v ++ rest) (concat fs ++ rest) in
      let init : tp_array_itr_init mp (v ++ rest) (length (v ++ rest) - length rest) ≡ (true, i) =
        simp
          (tp_array_itr_init, size, inside, t.checks.1, t.nonempty, t.array rest, t.elements rest)
          refl in
      ap (λ (x : Bool × TpArrayItr). read_fields m (record r { tuple_itr = j; field_itr = x.1 }))
        init
      ∙ fields_from fs rest (record r { tuple_itr = j; field_itr = i }) 0 m refl (omega arith) t.few
          refl t.fields t.short h

  tuple_read-end :
      (r : TpResponse) (x : Bool × TpArrayItr) → x.0 ≡ false → (tuple_read mp r x).0 ≡ false
  tuple_read-end r (true, i) e = e
  tuple_read-end r (false, i) e = refl

  rows_from :
      (rows : List (List ℕ × List (List ℕ))) (tail : List ℕ) (r : TpResponse) (k n m : ℕ)
      → after r.tuple_itr.cur_index ≡ pos k
      → k + length rows ≡ r.tuple_itr.elem_count
      → r.tuple_itr.elem_count < 2 ^ 31
      → upcoming r.tuple_itr ≡ concat (tuples_of rows) ++ tail
      → Table m rows
      → length rows < n
      → read_rows n m r ≡ fields_of rows
  unfolding read_rows tp_next
  rows_from rows tail r k zero m e c few u t h = absurd (omega arith)
  rows_from [] tail r k (suc n) m e c few u t h =
      let stop : (tp_next mp r).0 ≡ false =
        tuple_read-end r (tp_array_itr_next mp r.tuple_itr)
          (next-end r.tuple_itr k e (omega arith) few) in
      rw stop refl
  rows_from ((v, fs) ∷ rows) tail r k (suc n) m e c few u (t, l, ts) h =
      let rest = concat (tuples_of rows) ++ tail in
      let j = stepped r.tuple_itr k v rest in
      let step : tp_array_itr_next mp r.tuple_itr ≡ (true, j) =
        next-step v rest r.tuple_itr k e (omega arith) few
          (u ∙ append_assoc v (concat (tuples_of rows)) tail) t.whole in
      let (more, r') = tuple_read mp r (true, j) in
      let next : tp_next mp r ≡ (true, r') = ap (tuple_read mp r) step in
      let row : read_fields m r' ≡ fs = Tuple-fields v rest fs r j m t l in
      let later : read_rows n m r' ≡ fields_of rows =
        rows_from rows tail r' (k + 1) n m refl (omega arith) few
          (under_way mp (pos (k + 1)) k r.tuple_itr.first_elem rest refl) ts (omega arith) in
      ap (λ (x : Bool × TpResponse). if x.0 then read_fields m x.1 ∷ read_rows n m x.1 else []) next
      ∙ ap₂ ◌∷◌ row later

  -- A whole reply of fewer than 2 ^ 31 tuples, read by the loops over its tuples and over the
  -- fields of each: where the codec decodes what it encodes and takes the parts as whole values,
  -- the parser accepts it and returns its size, counts its tuples, and the loops give the bytes
  -- of all fields, in order and once each, and then end, whatever stands behind the reply.
  pub tp_reply-Table :
      (laws : Decodes mp) (prefix tail : List ℕ) (rows : List (List ℕ × List (List ℕ)))
      (code sync schema m : ℕ)
      → let data' = mp.encode_array (length rows) ++ concat (tuples_of rows) in
        let buf = payload mp code sync schema (data_body mp data') in
        Readable mp code sync schema (length rows) data' (concat (tuples_of rows) ++ tail) tail
        → Begins mp prefix (length buf) (buf ++ tail)
        → length rows < 2 ^ 31
        → Table m rows
        → (r : TpResponse) × (tp_reply mp (prefix ++ (buf ++ tail)) ≡ (some (5 + length buf), r))
          × (tp_tuplecount r ≡ length rows)
          × (read_rows (suc (length rows)) m r ≡ fields_of rows)
  unfolding tp_tuplecount
  tp_reply-Table laws prefix tail rows code sync schema m x b few t =
      let data' = mp.encode_array (length rows) ++ concat (tuples_of rows) in
      let first = concat (tuples_of rows) ++ tail in
      let r = answered mp code sync (length rows) data' first tail in
      (
        r,
        tp_reply-Answered mp laws prefix data' first tail code sync schema (length rows) x b,
        refl,
        rows_from rows tail r 0 (suc (length rows)) m refl (omega arith) few refl t (omega arith),
      )

  has_more-next : (i : TpArrayItr) → has_more i ≡ (tp_array_itr_next mp i).0
  unfolding tp_array_itr_next
  has_more-next i = elim (Bool-cases (ltb (as_uint32 (after i.cur_index)) i.elem_count)) [
    | inl y ↦ rw y refl
    | inr n ↦ rw n refl
  ]

  tuple_read-result : (r : TpResponse) (x : Bool × TpArrayItr) → (tuple_read mp r x).0 ≡ x.0
  tuple_read-result r (true, i) = refl
  tuple_read-result r (false, i) = refl

  -- At any point of a walk, the checks for one more tuple and for one more field say exactly what
  -- the next step gives.
  pub tp_hasnext-Agrees :
      (r : TpResponse)
      → (tp_hasnext r ≡ (tp_next mp r).0) × (tp_hasnextfield r ≡ (tp_nextfield mp r).0)
  unfolding tp_hasnext tp_hasnextfield tp_next tp_nextfield
  tp_hasnext-Agrees r = (
    has_more-next r.tuple_itr ∙ sym (tuple_read-result r (tp_array_itr_next mp r.tuple_itr)),
    has_more-next r.field_itr,
  )
