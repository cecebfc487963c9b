-- ===== src/Request/Direct.antt =====
-- The functions that write one request each. The bytes of a key, a tuple or a list of operations are
-- those of its memory stream; a name that may be NULL is an option.
use bee_c.Base.{ℕ, Bool, Option, none, some, List, [], ◌∷◌, ◌++◌, length, ◌==◌, if◌then◌else◌}
use bee_c.Msgpuck.{Msgpuck, mp_array}
use bee_c.Request.Key
use bee_c.Request.Common.{
  Op, select, insert, replace, update, delete, call_16, eval, upsert, call, ping,
}
use bee_c.Request.Common.{code_of, is_call, Wire, next, object_verify, encode_header, packaged}

module _ (mp : Msgpuck) {S : Type 0} (w : Wire S) where
  -- The header of request `op` and the parts of its body, with the length before them.
  abbrev pub send_parts : Op → S → List (List ℕ) → Option ℕ × S
  send_parts op s parts =
      w.writev (next w s) (packaged mp (encode_header mp (code_of op) (w.reqid s) ∷ parts))

  abbrev pub is_array : List ℕ → Bool
  is_array data' = object_verify mp data' (some mp_array)

  unfoldable pub beer_ping : S → Option ℕ × S
  unfolding encode_header packaged
  beer_ping s = send_parts ping s (mp.encode_map 0 ∷ [])

  unfoldable pub beer_select : S → ℕ → ℕ → ℕ → ℕ → ℕ → List ℕ → Option ℕ × S
  unfolding object_verify encode_header packaged
  beer_select s space index limit offset iterator key =
      if is_array key
      then send_parts select s (
          (mp.encode_map 6
            ++ mp.encode_uint Key.space
            ++ mp.encode_uint space
            ++ mp.encode_uint Key.index
            ++ mp.encode_uint index
            ++ mp.encode_uint Key.limit
            ++ mp.encode_uint limit
            ++ mp.encode_uint Key.offset
            ++ mp.encode_uint offset
            ++ mp.encode_uint Key.iterator
            ++ mp.encode_uint iterator
            ++ mp.encode_uint Key.key)
          ∷ key
          ∷ [])
      else (none, s)

  unfoldable pub store_base : S → ℕ → List ℕ → Op → Option ℕ × S
  unfolding object_verify encode_header packaged
  store_base s space tuple op =
      if is_array tuple
      then send_parts op s (
          (mp.encode_map 2
            ++ mp.encode_uint Key.space
            ++ mp.encode_uint space
            ++ mp.encode_uint Key.tuple)
          ∷ tuple
          ∷ [])
      else (none, s)

  unfoldable pub beer_insert : S → ℕ → List ℕ → Option ℕ × S
  unfolding store_base
  beer_insert s space tuple = store_base s space tuple insert

  unfoldable pub beer_replace : S → ℕ → List ℕ → Option ℕ × S
  unfolding store_base
  beer_replace s space tuple = store_base s space tuple replace

  unfoldable pub beer_delete : S → ℕ → ℕ → List ℕ → Option ℕ × S
  unfolding object_verify encode_header packaged
  beer_delete s space index key =
      if is_array key
      then send_parts delete s (
          (mp.encode_map 3
            ++ mp.encode_uint Key.space
            ++ mp.encode_uint space
            ++ mp.encode_uint Key.index
            ++ mp.encode_uint index
            ++ mp.encode_uint Key.key)
          ∷ key
          ∷ [])
      else (none, s)

  unfoldable pub beer_update : S → ℕ → ℕ → List ℕ → List ℕ → Option ℕ × S
  unfolding object_verify encode_header packaged
  beer_update s space index key ops =
      if is_array key
      then (if is_array ops
          then send_parts update s (
              (mp.encode_map 4
                ++ mp.encode_uint Key.space
                ++ mp.encode_uint space
                ++ mp.encode_uint Key.index
                ++ mp.encode_uint index
                ++ mp.encode_uint Key.key)
              ∷ key
              ∷ mp.encode_uint Key.tuple
              ∷ ops
              ∷ [])
          else (none, s))
      else (none, s)

  -- The map announces four pairs.
  unfoldable pub beer_upsert : S → ℕ → List ℕ → List ℕ → Option ℕ × S
  unfolding object_verify encode_header packaged
  beer_upsert s space tuple ops =
      if is_array tuple
      then (if is_array ops
          then send_parts upsert s (
              (mp.encode_map 4
                ++ mp.encode_uint Key.space
                ++ mp.encode_uint space
                ++ mp.encode_uint Key.tuple)
              ∷ tuple
              ∷ mp.encode_uint Key.ops
              ∷ ops
              ∷ [])
          else (none, s))
      else (none, s)

  -- `beer_rpc_base`, by whether the name is NULL.
  unfoldable pub rpc_base : S → Option (List ℕ) → List ℕ → Op → Option ℕ × S
  unfolding object_verify encode_header packaged
  rpc_base s none args op = (none, s)
  rpc_base s (some proc) args op =
      if length proc == 0
      then (none, s)
      else if is_array args
      then send_parts op s (
          (mp.encode_map 2
            ++ mp.encode_uint (if is_call op then Key.function else Key.expression)
            ++ mp.encode_strl (length proc))
          ∷ proc
          ∷ mp.encode_uint Key.tuple
          ∷ args
          ∷ [])
      else (none, s)

  unfoldable pub beer_call : S → Option (List ℕ) → List ℕ → Option ℕ × S
  unfolding rpc_base
  beer_call s proc args = rpc_base s proc args call

  unfoldable pub beer_call_16 : S → Option (List ℕ) → List ℕ → Option ℕ × S
  unfolding rpc_base
  beer_call_16 s proc args = rpc_base s proc args call_16

  unfoldable pub beer_eval : S → Option (List ℕ) → List ℕ → Option ℕ × S
  unfolding rpc_base
  beer_eval s expr args = rpc_base s expr args eval
