-- ===== src/Request/Routes.antt =====
-- The two ways to a request: a function of its own, and the request object.
use bee_c.Base.{
  arith, ltb, ℕ, suc, ◌≡◌, refl, sym, ap, ◌∙◌, subst, true, Option, none, some, List, [], ◌∷◌,
  concat,
}
use bee_c.Msgpuck.{Msgpuck}
use bee_c.Request.Key
use bee_c.Request.{
  Op, Wire, next, insert, replace, select, delete, call, eval, update, is_array, Request,
  request_of, set_space, set_index, set_offset, set_limit, set_iterator, set_key, set_tuple,
}
use bee_c.Request.{store_base, beer_select, beer_delete, request_writeout, answered}
use bee_c.Request.Packet.{number, Field, Sends, packet}
use bee_c.Request.Sent.{store_base-Sends, select-Sends}
use bee_c.Request.Writeout.{Written, written_fields, request_writeout-Written}

positive : (n : ℕ) → ltb 0 (suc n) ≡ true
positive n = ground arith

module _ (mp : Msgpuck) {S : Type 0} (w : Wire S) where
  -- Two calls that make one write each, of the same bytes, to the stream in the same state.
  abbrev pub Agree : S → Option ℕ × S → Request → Type 0
  Agree s x r =
      (a : List (List ℕ)) × (b : List (List ℕ)) × (concat a ≡ concat b)
      × (x ≡ w.writev (next w s) a)
      × (request_writeout mp w s r none ≡ (
          let (done, sync, t) = answered mp w (w.reqid s) none (w.writev (next w s) b) in
          (done, sync, record r { sync = w.reqid s }, t)))

  agree :
      (s : S) (x : Option ℕ × S) (r : Request) (op : Op) (fs : List Field)
      → r.type ≡ op
      → written_fields mp w r ≡ some fs
      → Sends mp w op fs s x
      → Agree s x r
  agree s x r op fs t f (a, ea, xa) =
      let (b, eb, xb) =
        subst (λ g. Written mp w s r none g (request_writeout mp w s r none)) f
          (request_writeout-Written mp w s r none) in
      (a, b, ea ∙ ap (λ o. packet mp o (w.reqid s) fs) (sym t) ∙ sym eb, xa, xb)

  -- For a tuple that is one whole array, a direct insert, and a request object of type insert
  -- with the same space and tuple that is written out without a place for its id, make one vector
  -- write each, of the same bytes, to the stream in the same state.
  pub insert-Agree :
      (s : S) (space : ℕ) (tuple : List ℕ)
      → is_array mp w tuple ≡ true
      → Agree s
          (store_base mp w s space tuple insert)
          (set_tuple (set_space (request_of insert) space) tuple)
  unfolding request_of set_space set_tuple
  insert-Agree s space tuple e =
      agree s _ (set_tuple (set_space (request_of insert) space) tuple) insert
        (number mp Key.space space ∷ (Key.tuple, tuple) ∷ []) refl refl
        (store_case e (store_base-Sends mp w s space tuple insert))
    where
      store_case :
          is_array mp w tuple ≡ true
          → bee_c.Request.Packet.Guarded mp w
              (is_array mp w tuple)
              insert
              (number mp Key.space space ∷ (Key.tuple, tuple) ∷ [])
              s
              (store_base mp w s space tuple insert)
          → Sends mp w insert
              (number mp Key.space space ∷ (Key.tuple, tuple) ∷ [])
              s
              (store_base mp w s space tuple insert)
      store_case y g =
          subst
            (λ b.
              bee_c.Request.Packet.Guarded mp w b insert
                (number mp Key.space space ∷ (Key.tuple, tuple) ∷ []) s
                (store_base mp w s space tuple insert))
            y g

  -- For a key that is one whole array, and an index, an offset and an iterator that are not 0, a
  -- direct select, and a request object of type select with the same fields that is written out
  -- without a place for its id, make one vector write each, of the same bytes, to the stream in
  -- the same state.
  pub select-Agree :
      (s : S) (space index limit offset iterator : ℕ) (key : List ℕ)
      → is_array mp w key ≡ true
      → Agree s (beer_select mp w s space (suc index) limit (suc offset) (suc iterator) key) (
          set_key
            (set_iterator
              (set_limit
                (set_offset
                  (set_index (set_space (request_of select) space) (suc index))
                  (suc offset))
                limit)
              (suc iterator))
            key)
  unfolding request_of set_space set_index set_offset set_limit set_iterator set_key
  select-Agree s space index limit offset iterator key e =
      agree s _
        (set_key
          (set_iterator
            (set_limit
              (set_offset (set_index (set_space (request_of select) space) (suc index))
                (suc offset))
              limit)
            (suc iterator))
          key)
        select
        (number mp Key.space space
          ∷ number mp Key.index (suc index)
          ∷ number mp Key.limit limit
          ∷ number mp Key.offset (suc offset)
          ∷ number mp Key.iterator (suc iterator)
          ∷ (Key.key, key)
          ∷ [])
        refl (simp positive refl)
        (subst
          (λ b.
            bee_c.Request.Packet.Guarded mp w b select
              (number mp Key.space space
                ∷ number mp Key.index (suc index)
                ∷ number mp Key.limit limit
                ∷ number mp Key.offset (suc offset)
                ∷ number mp Key.iterator (suc iterator)
                ∷ (Key.key, key)
                ∷ [])
              s (beer_select mp w s space (suc index) limit (suc offset) (suc iterator) key))
          e (select-Sends mp w s space (suc index) limit (suc offset) (suc iterator) key))
