-- ===== src/Request/Sent.antt =====
-- The functions that write one request each, against the packet of their request.
use bee_c.Base.{ℕ, refl, Bool-cases, inl, inr, ◌&&◌, not, some}
use bee_c.Base.{List, [], ◌∷◌, ◌++◌, append-nil, append_assoc, length, ◌==◌, if◌then◌else◌}
use bee_c.Msgpuck.{Msgpuck}
use bee_c.Request.Key
use bee_c.Request.{Op, Wire, select, update, delete, ping, is_call, is_array}
use bee_c.Request.{beer_ping, beer_select, store_base, beer_delete, beer_update, rpc_base}
use bee_c.Request.Packet.{number, Sends, Guarded, send_parts-Sends}

module _ (mp : Msgpuck) {S : Type 0} (w : Wire S) where
  -- A ping makes one vector write of the packet without fields.
  pub ping-Sends : (s : S) → Sends mp w ping [] s (beer_ping mp w s)
  unfolding beer_ping
  ping-Sends s = send_parts-Sends mp w ping [] s (mp.encode_map 0 ∷ []) refl

  -- A select whose key is one whole array makes one vector write, whose parts together are the
  -- packet with the space, the index, the limit, the offset, the iterator and the key, and the id
  -- of the stream goes one up; with any other key the result is -1 and the stream is unchanged.
  pub select-Sends :
      (s : S) (space index limit offset iterator : ℕ) (key : List ℕ)
      → Guarded mp w
          (is_array mp w key)
          select
          (number mp Key.space space
            ∷ number mp Key.index index
            ∷ number mp Key.limit limit
            ∷ number mp Key.offset offset
            ∷ number mp Key.iterator iterator
            ∷ (Key.key, key)
            ∷ [])
          s
          (beer_select mp w s space index limit offset iterator key)
  unfolding beer_select
  select-Sends s space index limit offset iterator key = elim (Bool-cases (is_array mp w key)) [
    | inl y ↦ rw y (
        send_parts-Sends mp w select
          (number mp Key.space space
            ∷ number mp Key.index index
            ∷ number mp Key.limit limit
            ∷ number mp Key.offset offset
            ∷ number mp Key.iterator iterator
            ∷ (Key.key, key)
            ∷ [])
          s
          ((mp.encode_map 6
              ++ mp.encode_uint Key.space
              ++ mp.encode_uint space
              ++ mp.encode_uint Key.index
              ++ mp.encode_uint index
              ++ mp.encode_uint Key.limit
              ++ mp.encode_uint limit
              ++ mp.encode_uint Key.offset
              ++ mp.encode_uint offset
              ++ mp.encode_uint Key.iterator
              ++ mp.encode_uint iterator
              ++ mp.encode_uint Key.key)
            ∷ key
            ∷ [])
          (simp (append_assoc, append-nil) refl))
    | inr n ↦ rw n refl
  ]

  -- An insert or a replace whose tuple is one whole array makes one vector write of the packet
  -- with the space and the tuple; with any other tuple the result is -1 and the stream is
  -- unchanged.
  pub store_base-Sends :
      (s : S) (space : ℕ) (tuple : List ℕ) (op : Op)
      → Guarded mp w
          (is_array mp w tuple)
          op
          (number mp Key.space space ∷ (Key.tuple, tuple) ∷ [])
          s
          (store_base mp w s space tuple op)
  unfolding store_base
  store_base-Sends s space tuple op = elim (Bool-cases (is_array mp w tuple)) [
    | inl y ↦ rw y (
        send_parts-Sends mp w op (number mp Key.space space ∷ (Key.tuple, tuple) ∷ []) s
          ((mp.encode_map 2
              ++ mp.encode_uint Key.space
              ++ mp.encode_uint space
              ++ mp.encode_uint Key.tuple)
            ∷ tuple
            ∷ [])
          (simp (append_assoc, append-nil) refl))
    | inr n ↦ rw n refl
  ]

  -- A delete whose key is one whole array makes one vector write of the packet with the space,
  -- the index and the key; with any other key the result is -1 and the stream is unchanged.
  pub delete-Sends :
      (s : S) (space index : ℕ) (key : List ℕ)
      → Guarded mp w
          (is_array mp w key)
          delete
          (number mp Key.space space ∷ number mp Key.index index ∷ (Key.key, key) ∷ [])
          s
          (beer_delete mp w s space index key)
  unfolding beer_delete
  delete-Sends s space index key = elim (Bool-cases (is_array mp w key)) [
    | inl y ↦ rw y (
        send_parts-Sends mp w delete
          (number mp Key.space space ∷ number mp Key.index index ∷ (Key.key, key) ∷ []) s
          ((mp.encode_map 3
              ++ mp.encode_uint Key.space
              ++ mp.encode_uint space
              ++ mp.encode_uint Key.index
              ++ mp.encode_uint index
              ++ mp.encode_uint Key.key)
            ∷ key
            ∷ [])
          (simp (append_assoc, append-nil) refl))
    | inr n ↦ rw n refl
  ]

  -- An update whose key and operations are one whole array each makes one vector write of the
  -- packet with the space, the index, the key and the operations as its tuple; otherwise the
  -- result is -1 and the stream is unchanged.
  pub update-Sends :
      (s : S) (space index : ℕ) (key ops : List ℕ)
      → Guarded mp w
          (is_array mp w key && is_array mp w ops)
          update
          (number mp Key.space space
            ∷ number mp Key.index index
            ∷ (Key.key, key)
            ∷ (Key.tuple, ops)
            ∷ [])
          s
          (beer_update mp w s space index key ops)
  unfolding beer_update
  update-Sends s space index key ops = elim (Bool-cases (is_array mp w key)) [
    | inl y ↦ rw y (elim (Bool-cases (is_array mp w ops)) [
      | inl z ↦ rw z (
          send_parts-Sends mp w update
            (number mp Key.space space
              ∷ number mp Key.index index
              ∷ (Key.key, key)
              ∷ (Key.tuple, ops)
              ∷ [])
            s
            ((mp.encode_map 4
                ++ mp.encode_uint Key.space
                ++ mp.encode_uint space
                ++ mp.encode_uint Key.index
                ++ mp.encode_uint index
                ++ mp.encode_uint Key.key)
              ∷ key
              ∷ mp.encode_uint Key.tuple
              ∷ ops
              ∷ [])
            (simp (append_assoc, append-nil) refl))
      | inr m ↦ rw m refl
    ])
    | inr n ↦ rw n refl
  ]

  -- A call or an evaluation with a name that is not NULL makes one vector write of the packet
  -- with the name, under the function key for a call and under the expression key otherwise, and
  -- the arguments, when the name is not empty and the arguments are one whole array; otherwise
  -- the result is -1 and the stream is unchanged.
  pub rpc_base-Sends :
      (s : S) (proc args : List ℕ) (op : Op)
      → Guarded mp w
          (not (length proc == 0) && is_array mp w args)
          op
          ((
            if is_call op then Key.function else Key.expression,
            mp.encode_strl (length proc) ++ proc,
          )
            ∷ (Key.tuple, args)
            ∷ [])
          s
          (rpc_base mp w s (some proc) args op)
  unfolding rpc_base
  rpc_base-Sends s proc args op = elim (Bool-cases (length proc == 0)) [
    | inl y ↦ rw y refl
    | inr n ↦ rw n (elim (Bool-cases (is_array mp w args)) [
      | inl z ↦ rw z (
          send_parts-Sends mp w op
            ((
              if is_call op then Key.function else Key.expression,
              mp.encode_strl (length proc) ++ proc,
            )
              ∷ (Key.tuple, args)
              ∷ [])
            s
            ((mp.encode_map 2
                ++ mp.encode_uint (if is_call op then Key.function else Key.expression)
                ++ mp.encode_strl (length proc))
              ∷ proc
              ∷ mp.encode_uint Key.tuple
              ∷ args
              ∷ [])
            (simp (append_assoc, append-nil) refl))
      | inr m ↦ rw m refl
    ])
  ]
