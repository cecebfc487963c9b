-- ===== src/Request/Held.antt =====
-- The fields that a request object stands for, and the draft of beer/beer_request.c.
use bee_c.Base.{ℕ, ◌+◌, ◌≡◌, refl, sym, ap, ap₂, ◌∙◌, Bool, true, false, ◌&&◌, Option, none, some}
use bee_c.Base.{
  List, [], ◌∷◌, ◌++◌, append-nil, append_assoc, length, length-append, concat, ltb, if◌then◌else◌,
  arith, concat-append,
}
use bee_c.Msgpuck.{Msgpuck}
use bee_c.Request.Key
use bee_c.Request.{
  Op, select, insert, replace, update, delete, call_16, auth, eval, upsert, call, ping, code_of,
}
use bee_c.Request.{
  Request, Fields, Draft, field_if, scalar_fields, with_part, has_index, has_base, is_select,
}
use bee_c.Request.Packet.{Field, pairs}

module _ (mp : Msgpuck) where
  -- A field with a number, where it applies.
  abbrev pub field_of : Bool → ℕ → ℕ → List Field
  field_of b key value = if b then (key, mp.encode_uint value) ∷ [] else []

  -- The fields with a number, with the space or without it.
  abbrev pub scalars : Bool → Op → Request → List Field
  scalars with_space tp r =
      field_of with_space Key.space r.space_id
      ++ field_of (ltb 0 r.index_id && has_index tp) Key.index r.index_id
      ++ field_of (is_select tp) Key.limit r.limit
      ++ field_of (ltb 0 r.offset && is_select tp) Key.offset r.offset
      ++ field_of (ltb 0 r.iterator && is_select tp) Key.iterator r.iterator

  -- The field of the key; a type that has none takes no key.
  abbrev pub key_field : Op → List ℕ → Option Field
  key_field eval key = some (Key.expression, mp.encode_strl (length key) ++ key)
  key_field call_16 key = some (Key.function, mp.encode_strl (length key) ++ key)
  key_field call key = some (Key.function, mp.encode_strl (length key) ++ key)
  key_field select key = some (Key.key, key)
  key_field update key = some (Key.key, key)
  key_field delete key = some (Key.key, key)
  key_field upsert key = some (Key.ops, key)
  key_field insert key = none
  key_field replace key = none
  key_field auth key = none
  key_field ping key = none

  abbrev pub tuple_field : Option (List ℕ) → List Field
  tuple_field none = []
  tuple_field (some tuple) = (Key.tuple, tuple) ∷ []

  abbrev pub base_field : Op → Request → List Field
  base_field tp r = field_of (ltb 0 r.index_base && has_base tp) Key.index_base r.index_base

  abbrev pub key_fields : Op → Option (List ℕ) → Option (List Field)
  key_fields tp none = some []
  key_fields tp (some key) = elim (key_field tp key) [ none ↦ none | some f ↦ some (f ∷ []) ]

  -- All fields, in the order of the bytes.
  abbrev pub fields_from : Bool → Request → Option (List Field)
  fields_from with_space r = elim (key_fields r.type r.key) [
    | none ↦ none
    | some k ↦
        some (((scalars with_space r.type r ++ k) ++ tuple_field r.tuple) ++ base_field r.type r)
  ]

  -- The requests to a space, as include/bee/beer_request.h names them.
  abbrev pub has_space : Op → Bool
  has_space select = true
  has_space insert = true
  has_space replace = true
  has_space update = true
  has_space delete = true
  has_space upsert = true
  has_space call_16 = false
  has_space auth = false
  has_space eval = false
  has_space call = false
  has_space ping = false

  -- The fields that a request object stands for.
  abbrev pub fields_of : Request → Option (List Field)
  fields_of r = fields_from (has_space r.type) r

  -- A draft that holds these fields.
  pub record Holds (fs : List Field) (d : Draft) : Type 0 where
    pub bytes : concat d.parts ++ d.open' ≡ pairs mp fs
    pub count : d.fields ≡ length fs

  pairs-append : (fs gs : List Field) → pairs mp (fs ++ gs) ≡ pairs mp fs ++ pairs mp gs
  pairs-append [] gs = refl
  pairs-append (f ∷ fs) gs = simp (append_assoc, pairs-append fs gs) refl

  pub field_if-field_of :
      (b : Bool) (key value : ℕ)
      → ((field_if mp b key value).0 ≡ pairs mp (field_of b key value))
        × ((field_if mp b key value).1 ≡ length (field_of b key value))
  field_if-field_of true key value = (ap (λ x. mp.encode_uint key ++ x) (sym (append-nil _)), refl)
  field_if-field_of false key value = (refl, refl)

  pub add_field :
      (fs gs : List Field) (d : Draft) (f : Fields)
      → Holds fs d
      → f.0 ≡ pairs mp gs
      → f.1 ≡ length gs
      → Holds (fs ++ gs) (record d { open' = d.open' ++ f.0; fields = d.fields + f.1 })
  add_field fs gs d f h a b = record {
    bytes =
        sym (append_assoc (concat d.parts) d.open' f.0)
        ∙ ap₂ ◌++◌ h.bytes a
        ∙ sym (pairs-append fs gs);
    count = omega (arith, h.count, length-append fs gs);
  }

  pub scalar_fields-Holds :
      (tp : Op) (r : Request)
      → Holds (scalars (ltb (code_of tp) 6) tp r) (record {
        parts = [];
        open' = (scalar_fields mp tp r).0;
        fields = (scalar_fields mp tp r).1;
      })
  unfolding scalar_fields
  scalar_fields-Holds tp r =
      let (a, a') = field_if-field_of (ltb (code_of tp) 6) Key.space r.space_id in
      let (b, b') = field_if-field_of (ltb 0 r.index_id && has_index tp) Key.index r.index_id in
      let (c, c') = field_if-field_of (is_select tp) Key.limit r.limit in
      let (d, d') = field_if-field_of (ltb 0 r.offset && is_select tp) Key.offset r.offset in
      let (e, e') = field_if-field_of (ltb 0 r.iterator && is_select tp) Key.iterator r.iterator in
      record {
        bytes = simp (a, b, c, d, e, pairs-append) refl;
        count = simp (a', b', c', d', e', length-append) (omega arith);
      }

  pub with_part-Holds :
      (fs : List Field) (d : Draft) (key : ℕ) (tag value part : List ℕ)
      → Holds fs d
      → tag ++ part ≡ mp.encode_uint key ++ value
      → Holds (fs ++ ((key, value) ∷ [])) (with_part d tag part)
  with_part-Holds fs d key tag value part h e = record {
    bytes = simp (concat-append, append_assoc, append-nil, e, pairs-append, sym h.bytes) refl;
    count = omega (arith, h.count, length-append fs ((key, value) ∷ []));
  }
