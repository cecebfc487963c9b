-- ===== src/Request/Upsert.antt =====
-- The two ways of an upsert: beer/beer_update.c and the request object of beer/beer_request.c.
use bee_c.Base.{
  ℕ, ◌≡◌, refl, sym, ap, ◌∙◌, subst, Bool-cases, inl, inr, true, false, ◌&&◌, Bool, Option, none,
  some,
}
use bee_c.Base.{List, [], ◌∷◌, ◌++◌, append-nil, append_assoc, concat}
use bee_c.Msgpuck.{Msgpuck}
use bee_c.Request.Key
use bee_c.Request.{
  Wire, next, upsert, code_of, encode_header, packaged, is_array, beer_upsert, Request, set_space,
}
use bee_c.Request.{Draft, draft, scalar_fields, key_or_fail, add_tuple, add_base}
use bee_c.Request.Packet.{Field, pairs, framed, concat-packaged}

module _ (mp : Msgpuck) {S : Type 0} (w : Wire S) where
  abbrev upsert_fields : ℕ → List ℕ → List ℕ → List Field
  upsert_fields space tuple ops =
      (Key.space, mp.encode_uint space) ∷ (Key.tuple, tuple) ∷ (Key.ops, ops) ∷ []

  -- One write of a packet whose map announces four pairs and has three.
  abbrev pub Overcounted : Bool → ℕ → List ℕ → List ℕ → S → Option ℕ × S → Type 0
  Overcounted false space tuple ops s x = x ≡ (none, s)
  Overcounted true space tuple ops s x =
      (iov : List (List ℕ)) × (concat iov
        ≡ framed mp (
            encode_header mp (code_of upsert) (w.reqid s)
            ++ (mp.encode_map 4 ++ pairs mp (upsert_fields space tuple ops))))
      × (x ≡ w.writev (next w s) iov)

  overcounted :
      (space : ℕ) (tuple ops : List ℕ) (s : S) (parts : List (List ℕ))
      → concat parts ≡ mp.encode_map 4 ++ pairs mp (upsert_fields space tuple ops)
      → Overcounted true space tuple ops s (
          w.writev (next w s) (packaged mp (encode_header mp (code_of upsert) (w.reqid s) ∷ parts)))
  overcounted space tuple ops s parts e = (
    packaged mp (encode_header mp (code_of upsert) (w.reqid s) ∷ parts),
    concat-packaged mp (encode_header mp (code_of upsert) (w.reqid s) ∷ parts)
        ∙ ap (λ b. framed mp (encode_header mp (code_of upsert) (w.reqid s) ++ b)) e,
    refl,
  )

  -- An upsert whose tuple and operations are one whole array each makes one vector write of a
  -- length, a header and a map that announces four pairs and has three, the space, the tuple and
  -- the operations; otherwise the result is -1 and the stream is unchanged.
  pub upsert-Overcounted :
      (s : S) (space : ℕ) (tuple ops : List ℕ)
      → Overcounted
          (is_array mp w tuple && is_array mp w ops)
          space
          tuple
          ops
          s
          (beer_upsert mp w s space tuple ops)
  unfolding beer_upsert
  upsert-Overcounted s space tuple ops = elim (Bool-cases (is_array mp w tuple)) [
    | inl y ↦ rw y (elim (Bool-cases (is_array mp w ops)) [
      | inl z ↦ rw z (
          overcounted space tuple ops s
            ((mp.encode_map 4
                ++ mp.encode_uint Key.space
                ++ mp.encode_uint space
                ++ mp.encode_uint Key.tuple)
              ∷ tuple
              ∷ mp.encode_uint Key.ops
              ∷ ops
              ∷ [])
            (simp (append_assoc, append-nil) refl))
      | inr m ↦ rw m refl
    ])
    | inr n ↦ rw n refl
  ]

-- For a request object of type upsert, the draft that is written does not depend on the space.
pub upsert_without_space :
    (mp : Msgpuck) (r : Request) (space : ℕ)
    → r.type ≡ upsert
    → draft mp (set_space r space) ≡ draft mp r
unfolding draft set_space scalar_fields key_or_fail add_base
upsert_without_space mp r space e =
    ap
      (λ f.
        elim (key_or_fail mp r.type r.key (record { parts = []; open' = f.0; fields = f.1 }))
          as (λ _. Option Draft) [
            | none ↦ none
            | some d ↦ some (add_base mp r.type r (add_tuple mp r.tuple d))
          ])
      same_fields
  where
    same_fields : scalar_fields mp r.type (set_space r space) ≡ scalar_fields mp r.type r
    same_fields =
        subst (λ t. scalar_fields mp t (set_space r space) ≡ scalar_fields mp t r) (sym e) refl
