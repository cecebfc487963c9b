-- ===== src/Tp/Whole.antt =====
-- Complete requests of include/tp.h, against the layout of a request in the protocol.
use bee_c.Base.{
  ℕ, ◌+◌, ◌≡◌, refl, sym, ap, ◌∙◌, subst, Option, none, some, List, [], ◌∷◌, ◌++◌, append_assoc,
  append-nil, length, length-append, take,
}
use bee_c.Msgpuck.{Msgpuck, Measured}
use bee_c.Request.Key
use bee_c.Request.{code_of, Op}
use bee_c.Request.Packet.{Field, pairs, body, number}
use bee_c.Tp.{Tp, Reserve, tp_init, five, header_start}
use bee_c.Tp.Draft.{Draft, Honest, Represents, packed}
use bee_c.Tp.Commands.{
  Beginning, Addition, Command, begins, adds, sets_id, op_of, body_of, bytes_of, after, opening,
  text,
}
use bee_c.Tp.Runs.{Willing, run, after_all, AllFit, run-init-Represents}

abbrev pub all_adds : List Addition → Command → List Command
all_adds [] last = last ∷ []
all_adds (a ∷ as') last = adds a ∷ all_adds as' last

module _ (mp : Msgpuck) where
  abbrev pub bytes_of_all : List Addition → List ℕ
  bytes_of_all [] = []
  bytes_of_all (a ∷ as') = bytes_of mp a ++ bytes_of_all as'

  -- The fields of a request that are complete at its beginning, and the key of the last one.
  abbrev pub fields_of : Beginning → Option (List Field × ℕ)
  fields_of Beginning.ping = none
  fields_of (Beginning.select space index offset iterator limit) = some (
    number mp Key.space space
        ∷ number mp Key.index index
        ∷ number mp Key.offset offset
        ∷ number mp Key.limit limit
        ∷ number mp Key.iterator iterator
        ∷ [],
    Key.key,
  )
  fields_of (Beginning.insert space) = some (number mp Key.space space ∷ [], Key.tuple)
  fields_of (Beginning.replace space) = some (number mp Key.space space ∷ [], Key.tuple)
  fields_of (Beginning.update space) = none
  fields_of (Beginning.call function) = some ((Key.function, text mp function) ∷ [], Key.tuple)
  fields_of (Beginning.eval expr) = some ((Key.expression, text mp expr) ∷ [], Key.tuple)

  -- A request with its length, its header and the map of its fields.
  abbrev pub whole : Op → ℕ → List Field → List ℕ
  whole op id fs = packed mp (header_start mp (code_of op) ++ (five mp id ++ body mp fs))

  pairs-append : (fs gs : List Field) → pairs mp (fs ++ gs) ≡ pairs mp fs ++ pairs mp gs
  pairs-append [] gs = refl
  pairs-append (f ∷ fs) gs = rw (pairs-append fs gs) (simp append_assoc refl)

  opening-body :
      (fs : List Field) (last : ℕ) (v : List ℕ)
      → opening mp (length fs + 1) fs last ++ v ≡ body mp (fs ++ (last, v) ∷ [])
  opening-body fs last v =
      let n : length (fs ++ (last, v) ∷ []) ≡ length fs + 1 = length-append fs ((last, v) ∷ []) in
      rw (n, pairs-append fs ((last, v) ∷ [])) (simp (append_assoc, append-nil) refl)

  -- The body is complete once the value of its last field was added.
  abbrev Closes : Beginning → List ℕ → Option (List Field × ℕ) → Type 0
  Closes b v none = Unit {0}
  Closes b v (some (fs, last)) = body_of mp b ++ v ≡ body mp (fs ++ (last, v) ∷ [])

  body_of-Closes : (b : Beginning) (v : List ℕ) → Closes b v (fields_of b)
  body_of-Closes Beginning.ping v = tt
  body_of-Closes (Beginning.select space index offset iterator limit) v =
      opening-body
        (number mp Key.space space
          ∷ number mp Key.index index
          ∷ number mp Key.offset offset
          ∷ number mp Key.limit limit
          ∷ number mp Key.iterator iterator
          ∷ [])
        Key.key v
  body_of-Closes (Beginning.insert space) v =
      opening-body (number mp Key.space space ∷ []) Key.tuple v
  body_of-Closes (Beginning.replace space) v =
      opening-body (number mp Key.space space ∷ []) Key.tuple v
  body_of-Closes (Beginning.update space) v = tt
  body_of-Closes (Beginning.call function) v =
      opening-body ((Key.function, text mp function) ∷ []) Key.tuple v
  body_of-Closes (Beginning.eval expr) v =
      opening-body ((Key.expression, text mp expr) ∷ []) Key.tuple v

  bytes_of_all-append :
      (as' bs : List Addition) → bytes_of_all (as' ++ bs) ≡ bytes_of_all as' ++ bytes_of_all bs
  bytes_of_all-append [] bs = refl
  bytes_of_all-append (a ∷ as') bs =
      ap (λ l. bytes_of mp a ++ l) (bytes_of_all-append as' bs)
      ∙ sym (append_assoc (bytes_of mp a) (bytes_of_all as') (bytes_of_all bs))

  -- The calls of an update behind its beginning: the parts of the key and the operations.
  abbrev pub update_calls : ℕ → List Addition → ℕ → List Addition → List Addition
  update_calls m parts k ops' = Addition.key m ∷ (parts ++ Addition.updatebegin k ∷ ops')

  -- The fields of an update.
  abbrev pub update_fields : ℕ → ℕ → List Addition → ℕ → List Addition → List Field
  update_fields space m parts k ops' =
      number mp Key.space space
      ∷ (Key.key, mp.encode_array m ++ bytes_of_all parts)
      ∷ (Key.tuple, mp.encode_array k ++ bytes_of_all ops')
      ∷ []

  update-body :
      (space m k : ℕ) (parts ops' : List Addition)
      → body_of mp (Beginning.update space) ++ bytes_of_all (update_calls m parts k ops')
        ≡ body mp (update_fields space m parts k ops')
  update-body space m k parts ops' =
      rw (bytes_of_all-append parts (Addition.updatebegin k ∷ ops'))
        (simp (append_assoc, append-nil) refl)

  after_all-adds :
      (d : Draft) (as' : List Addition) (n : ℕ)
      → after_all mp d (all_adds as' (sets_id n))
        ≡ record d { id = n; body = d.body ++ bytes_of_all as' }
  after_all-adds d [] n = ap (λ l. record d { id = n; body = l }) (sym (append-nil d.body))
  after_all-adds d (a ∷ as') n =
      after_all-adds (after mp d (adds a)) as' n
      ∙ ap (λ l. record d { id = n; body = l })
          (append_assoc d.body (bytes_of mp a) (bytes_of_all as'))

module _ (mp : Msgpuck) (ms : Measured mp) where
  -- A select, insert, replace, call or eval, the values that are added to it, and its id, over
  -- any buffer whose reserve function keeps what was written and always finds the room wanted,
  -- leave exactly the request of the protocol: the length, the header with the id, and the map of
  -- its fields, where the value of the last field is what was added; each call stays below 2 ^ 31
  -- bytes, a splice has numbers of the size of its field number, and the sizes of the codec are
  -- those of what it writes.
  pub run-Whole :
      (buf : List ℕ) (f : Reserve) (b : Beginning) (fs : List Field) (last : ℕ)
      (as' : List Addition) (n : ℕ)
      → fields_of mp b ≡ some (fs, last)
      → Honest (some f)
      → Willing (some f)
      → AllFit mp (begins b ∷ all_adds as' (sets_id n))
      → (q : Tp) × (run mp (tp_init buf (some f)) (begins b ∷ all_adds as' (sets_id n)) ≡ some q)
        × (take q.pos q.buf ≡ whole mp (op_of mp b) n (fs ++ (last, bytes_of_all mp as') ∷ []))
  run-Whole buf f b fs last as' n e h w fits =
      let (q, r, v) = run-init-Represents mp ms buf f b (all_adds as' (sets_id n)) h w fits in
      let d : Draft = record {
        before = [];
        code = code_of (op_of mp b);
        id = 0;
        body = body_of mp b;
      } in
      let v' = subst (Represents mp q) (after_all-adds mp d as' n) v in
      let closed : body_of mp b ++ bytes_of_all mp as'
          ≡ body mp (fs ++ (last, bytes_of_all mp as') ∷ []) =
        subst (Closes mp b (bytes_of_all mp as')) e (body_of-Closes mp b (bytes_of_all mp as')) in
      (
        q,
        r,
        v'.contents
            ∙ ap (λ l. packed mp (header_start mp (code_of (op_of mp b)) ++ (five mp n ++ l)))
                closed,
      )

  -- So do an update, the parts of its key, and the operations that are added to it: the request has
  -- the space, the key of the parts, and the array of the operations.
  pub run-Whole_update :
      (buf : List ℕ) (f : Reserve) (space m k : ℕ) (parts ops' : List Addition) (n : ℕ)
      → let cs = all_adds (update_calls mp m parts k ops') (sets_id n) in
        Honest (some f)
        → Willing (some f)
        → AllFit mp (begins (Beginning.update space) ∷ cs)
        → (q : Tp) × (run mp (tp_init buf (some f)) (begins (Beginning.update space) ∷ cs) ≡ some q)
          × (take q.pos q.buf ≡ whole mp Op.update n (update_fields mp space m parts k ops'))
  run-Whole_update buf f space m k parts ops' n h w fits =
      let calls = update_calls mp m parts k ops' in
      let b = Beginning.update space in
      let (q, r, v) = run-init-Represents mp ms buf f b (all_adds calls (sets_id n)) h w fits in
      let d : Draft = record {
        before = [];
        code = code_of Op.update;
        id = 0;
        body = body_of mp b;
      } in
      let v' = subst (Represents mp q) (after_all-adds mp d calls n) v in
      (
        q,
        r,
        v'.contents
            ∙ ap (λ l. packed mp (header_start mp (code_of Op.update) ++ (five mp n ++ l)))
                (update-body mp space m k parts ops'),
      )
