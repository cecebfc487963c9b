-- ===== src/Request/Writeout.antt =====
-- `beer_request_writeout` (beer/beer_request.c) against the packet of the fields.
use bee_c.Base.{
  ℕ, ◌≡◌, refl, sym, ap, ap₂, ◌∙◌, subst, Bool, true, Bool-cases, inl, inr, false, Option, none,
  some,
}
use bee_c.Base.{
  List, [], ◌∷◌, ◌++◌, append-nil, append_assoc, length, concat, ltb, arith, concat-append,
  if◌then◌else◌,
}
use bee_c.Msgpuck.{Msgpuck}
use bee_c.Request.Key
use bee_c.Request.{
  Op, Wire, next, select, insert, replace, update, delete, call_16, auth, eval, upsert, call, ping,
  code_of, encode_header, packaged,
}
use bee_c.Request.{
  Request, Draft, scalar_fields, key_tag, all_parts, behind, add_tuple, add_base, key_or_fail,
  draft,
}
use bee_c.Request.{restarted, answered, send_draft, request_writeout}
use bee_c.Request.Packet.{Field, pairs, body, packet, framed, concat-packaged, encode_header-header}
use bee_c.Request.Held.{
  Holds, scalars, key_field, key_fields, tuple_field, base_field, fields_from, has_space, fields_of,
  scalar_fields-Holds, with_part-Holds, add_field, field_if-field_of,
}

abbrev pub is_upsert : Op → Bool
is_upsert upsert = true
is_upsert _ = false

module _ (mp : Msgpuck) where
  -- A draft that holds the fields, or none where the key has no place.
  abbrev Drafted : Option (List Field) → Option Draft → Type 0
  Drafted none none = Unit {0}
  Drafted none (some d) = ⊥
  Drafted (some fs) none = ⊥
  Drafted (some fs) (some d) = Holds mp fs d

  add_tuple-Holds :
      (fs : List Field) (t : Option (List ℕ)) (d : Draft)
      → Holds mp fs d
      → Holds mp (fs ++ tuple_field mp t) (add_tuple mp t d)
  unfolding add_tuple
  add_tuple-Holds fs none d h = record {
    bytes = h.bytes ∙ ap (pairs mp) (sym (append-nil fs));
    count = h.count ∙ ap length (sym (append-nil fs));
  }
  add_tuple-Holds fs (some t) d h =
      with_part-Holds mp fs d Key.tuple (mp.encode_uint Key.tuple) t t h refl

  add_base-Holds :
      (fs : List Field) (tp : Op) (r : Request) (d : Draft)
      → Holds mp fs d
      → Holds mp (fs ++ base_field mp tp r) (add_base mp tp r d)
  unfolding add_base
  add_base-Holds fs tp r d h =
      let (a, b) = field_if-field_of mp _ Key.index_base r.index_base in
      add_field mp fs (base_field mp tp r) d _ h a b

  -- The key's tag and bytes are its field.
  key_or_fail-Drafted :
      (fs : List Field) (tp : Op) (key : List ℕ) (d : Draft)
      → Holds mp fs d
      → Drafted
          (elim (key_field mp tp key) [ none ↦ none | some f ↦ some (fs ++ (f ∷ [])) ])
          (key_or_fail mp tp (some key) d)
  unfolding key_or_fail key_tag
  key_or_fail-Drafted fs eval key d h =
      with_part-Holds mp fs d Key.expression _ _ key h
        (append_assoc (mp.encode_uint Key.expression) (mp.encode_strl (length key)) key)
  key_or_fail-Drafted fs call_16 key d h =
      with_part-Holds mp fs d Key.function _ _ key h
        (append_assoc (mp.encode_uint Key.function) (mp.encode_strl (length key)) key)
  key_or_fail-Drafted fs call key d h =
      with_part-Holds mp fs d Key.function _ _ key h
        (append_assoc (mp.encode_uint Key.function) (mp.encode_strl (length key)) key)
  key_or_fail-Drafted fs select key d h = with_part-Holds mp fs d Key.key _ key key h refl
  key_or_fail-Drafted fs update key d h = with_part-Holds mp fs d Key.key _ key key h refl
  key_or_fail-Drafted fs delete key d h = with_part-Holds mp fs d Key.key _ key key h refl
  key_or_fail-Drafted fs upsert key d h = with_part-Holds mp fs d Key.ops _ key key h refl
  key_or_fail-Drafted fs insert key d h = tt
  key_or_fail-Drafted fs replace key d h = tt
  key_or_fail-Drafted fs auth key d h = tt
  key_or_fail-Drafted fs ping key d h = tt

  concat-all_parts : (d : Draft) → concat (all_parts d) ≡ concat d.parts ++ d.open'
  concat-all_parts d = elim (Bool-cases (ltb 0 (length d.open'))) [
    | inl y ↦
        rw y (
          concat-append d.parts (d.open' ∷ []) ∙ ap (λ x. concat d.parts ++ x) (append-nil d.open'))
    | inr n ↦ rw n (
        sym (
          ap (λ x. concat d.parts ++ x) (nothing d.open' (ground (arith, n)))
          ∙ append-nil (concat d.parts)))
  ]
    where
      nothing : (xs : List ℕ) → length xs ≡ 0 → xs ≡ []
      nothing [] e = refl
      nothing (x ∷ xs) e = absurd (omega (arith, e))

  concat-behind :
      (head : List ℕ) (parts : List (List ℕ)) → concat (behind head parts) ≡ head ++ concat parts
  concat-behind head [] = refl
  concat-behind head (v ∷ vs) = append_assoc head v (concat vs)

  draft-Drafted : (r : Request) → Drafted (fields_from mp (ltb (code_of r.type) 6) r) (draft mp r)
  unfolding draft key_or_fail
  draft-Drafted r = by_key r.key
    where
      start : Draft
      start = record {
        parts = [];
        open' = (scalar_fields mp r.type r).0;
        fields = (scalar_fields mp r.type r).1;
      }

      -- The tuple and the index base follow.
      finished :
          (fs : List Field) (d : Draft)
          → Holds mp fs d
          → Holds mp
              ((fs ++ tuple_field mp r.tuple) ++ base_field mp r.type r)
              (add_base mp r.type r (add_tuple mp r.tuple d))
      finished fs d h = add_base-Holds _ r.type r _ (add_tuple-Holds fs r.tuple d h)

      with_key :
          (f : Option Field) (d : Option Draft)
          → Drafted
              (elim f [
                | none ↦ none
                | some f ↦ some (scalars mp (ltb (code_of r.type) 6) r.type r ++ (f ∷ []))
              ])
              d
          → Drafted
              (elim (elim f as (λ _. Option (List Field)) [
                | none ↦ none
                | some f ↦ some (f ∷ [])
              ]) [
                | none ↦ none
                | some k ↦ some (
                    ((scalars mp (ltb (code_of r.type) 6) r.type r ++ k) ++ tuple_field mp r.tuple)
                    ++ base_field mp r.type r)
              ])
              (elim d [
                | none ↦ none
                | some d ↦ some (add_base mp r.type r (add_tuple mp r.tuple d))
              ])
      with_key none none h = tt
      with_key none (some d) h = h
      with_key (some f) none h = h
      with_key (some f) (some d) h = finished _ d h

      by_key :
          (k : Option (List ℕ))
          → Drafted
              (elim (key_fields mp r.type k) [
                | none ↦ none
                | some k ↦ some (
                    ((scalars mp (ltb (code_of r.type) 6) r.type r ++ k) ++ tuple_field mp r.tuple)
                    ++ base_field mp r.type r)
              ])
              (elim (key_or_fail mp r.type k start) [
                | none ↦ none
                | some d ↦ some (add_base mp r.type r (add_tuple mp r.tuple d))
              ])
      by_key none = finished _ start (record {
        bytes =
            (scalar_fields-Holds mp r.type r).bytes
            ∙ ap (pairs mp) (sym (append-nil (scalars mp (ltb (code_of r.type) 6) r.type r)));
        count =
            (scalar_fields-Holds mp r.type r).count
            ∙ ap length (sym (append-nil (scalars mp (ltb (code_of r.type) 6) r.type r)));
      })
      by_key (some key) = with_key (key_field mp r.type key) _ (
          key_or_fail-Drafted (scalars mp (ltb (code_of r.type) 6) r.type r) r.type key start
            (scalar_fields-Holds mp r.type r))

module _ (mp : Msgpuck) {S : Type 0} (w : Wire S) where
  -- What `beer_request_writeout` does with a stream at id n.
  abbrev pub Written :
      S → Request → Option ℕ → Option (List Field) → Bool × Option ℕ × Request × S → Type 0
  Written s r sync none x = x ≡ (false, sync, record r { sync = w.reqid s }, next w s)
  Written s r sync (some fs) x =
      (iov : List (List ℕ)) × (concat iov ≡ packet mp r.type (w.reqid s) fs)
      × (x ≡ (
          let (a, b, t) = answered mp w (w.reqid s) sync (w.writev (next w s) iov) in
          (a, b, record r { sync = w.reqid s }, t)))

  Written-draft :
      (s : S) (r : Request) (sync : Option ℕ) (f : Option (List Field)) (d : Option Draft)
      → Drafted mp f d
      → Written s r sync f (
          let (a, b, t) = send_draft mp w (w.reqid s) r.type sync (next w s) d in
          (a, b, record r { sync = w.reqid s }, t))
  unfolding send_draft
  Written-draft s r sync none none h = refl
  Written-draft s r sync none (some d) h = absurd h
  Written-draft s r sync (some fs) none h = absurd h
  Written-draft s r sync (some fs) (some d) h =
      let head = encode_header mp (code_of r.type) (w.reqid s) in
      (
        packaged mp (behind (head ++ mp.encode_map d.fields) (all_parts d)),
        concat-packaged mp (behind (head ++ mp.encode_map d.fields) (all_parts d))
            ∙ ap (framed mp) (
                concat-behind mp (head ++ mp.encode_map d.fields) (all_parts d)
                ∙ append_assoc head (mp.encode_map d.fields) (concat (all_parts d))
                ∙ ap₂ (λ n x. head ++ (mp.encode_map n ++ x)) h.count
                    (concat-all_parts mp d ∙ h.bytes)
                ∙ ap (λ b. b ++ body mp fs) (encode_header-header mp r.type (w.reqid s))),
        refl,
      )

  drafted-Written :
      (s : S) (r : Request) (sync : Option ℕ)
      → Written
          (restarted mp w s sync)
          r
          sync
          (fields_from mp (ltb (code_of r.type) 6) r)
          (request_writeout mp w s r sync)
  unfolding request_writeout
  drafted-Written s r sync =
      Written-draft (restarted mp w s sync) r sync (fields_from mp (ltb (code_of r.type) 6) r)
        (draft mp r) (draft-Drafted mp r)

  -- The code of a type tells whether it has a space, but for that of an upsert.
  space_by_code : (tp : Op) → is_upsert tp ≡ false → ltb (code_of tp) 6 ≡ has_space mp tp
  space_by_code select e = refl
  space_by_code insert e = refl
  space_by_code replace e = refl
  space_by_code update e = refl
  space_by_code delete e = refl
  space_by_code call_16 e = refl
  space_by_code auth e = refl
  space_by_code eval e = refl
  space_by_code upsert e = absurd (cc e)
  space_by_code call e = refl
  space_by_code ping e = refl

  -- What is written of a request object: its fields, but for an upsert without the space.
  abbrev pub written_fields : Request → Option (List Field)
  written_fields r = if is_upsert r.type then fields_from mp false r else fields_of mp r

  upsert_by_code : (tp : Op) → is_upsert tp ≡ true → ltb (code_of tp) 6 ≡ false
  upsert_by_code upsert e = refl
  upsert_by_code select e = absurd (cc e)
  upsert_by_code insert e = absurd (cc e)
  upsert_by_code replace e = absurd (cc e)
  upsert_by_code update e = absurd (cc e)
  upsert_by_code delete e = absurd (cc e)
  upsert_by_code call_16 e = absurd (cc e)
  upsert_by_code auth e = absurd (cc e)
  upsert_by_code eval e = absurd (cc e)
  upsert_by_code call e = absurd (cc e)
  upsert_by_code ping e = absurd (cc e)

  pub request_writeout-Written :
      (s : S) (r : Request) (sync : Option ℕ)
      → Written (restarted mp w s sync) r sync (written_fields r) (request_writeout mp w s r sync)
  request_writeout-Written s r sync =
      let goal = λ (fs : Option (List Field)).
        Written (restarted mp w s sync) r sync fs (request_writeout mp w s r sync) in
      elim (Bool-cases (is_upsert r.type)) [
        | inl y ↦ rw y (
            subst (λ b. goal (fields_from mp b r)) (upsert_by_code r.type y)
              (drafted-Written s r sync))
        | inr n ↦ rw n (
            subst (λ b. goal (fields_from mp b r)) (space_by_code r.type n)
              (drafted-Written s r sync))
      ]
