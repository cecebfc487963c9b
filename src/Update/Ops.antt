-- ===== src/Update/Ops.antt =====
-- The container of the operations, and the functions that add one operation each.
use bee_c.Base.{ℕ, ◌+◌, ◌-◌, ◌%◌, ◌^◌, Bool, ◌||◌, not, none, List, [], ◌∷◌, ◌++◌, length}
use bee_c.Base.{get_or, set, ◌==◌, if◌then◌else◌}
use bee_c.Msgpuck.{Msgpuck, ℤ, pos, negsuc, mp_array}
use bee_c.Buf.{Heap, Ret, ok, failure}
use bee_c.Object.{
  Obj, sparse, no_frame, object_reset, object_type, add_container, container_close, write_parts,
}
use bee_c.Request.{object_verify}

-- `+`, `-`, `&`, `^`, `|`, `#`, `!`, `=` and `:`
abbrev pub plus : ℕ
plus = 43

abbrev pub minus : ℕ
minus = 45

abbrev pub amp : ℕ
amp = 38

abbrev pub caret : ℕ
caret = 94

abbrev pub bar : ℕ
bar = 124

abbrev pub hash : ℕ
hash = 35

abbrev pub bang : ℕ
bang = 33

abbrev pub equals : ℕ
equals = 61

abbrev pub colon : ℕ
colon = 58

abbrev pub is_arith : ℕ → Bool
is_arith op = op == plus || op == minus

abbrev pub is_bit : ℕ → Bool
is_bit op = op == amp || op == caret || op == bar

-- `beer_update_op_len`, as the `uint32_t` that it is passed on as: -1 for another character.
unfoldable pub update_op_len : ℕ → ℕ
update_op_len op =
    if is_arith op || is_bit op || op == hash || op == bang || op == equals
    then 3
    else if op == colon
    then 5
    else 0xffffffff

abbrev pub encode_number : Msgpuck → ℤ → List ℕ
encode_number mp (pos n) = mp.encode_uint n
encode_number mp (negsuc n) = mp.encode_int (negsuc n)

abbrev pub splice_data : Msgpuck → ℕ → ℕ → List ℕ → List ℕ
splice_data mp position offset buffer =
    mp.encode_uint position ++ (mp.encode_uint offset ++ (mp.encode_strl (length buffer) ++ buffer))

-- One more call of the allocator.
abbrev pub allocated : Obj → Obj
allocated ops = record ops { stream = record (ops.stream) { allocs = ops.stream.allocs + 1 } }

module _ (mp : Msgpuck) (h : Heap) where
  -- What `beer_update_container_reset` does, and `beer_update_container` with a new object.
  unfoldable pub update_container_reset : Obj → Ret × Obj
  unfolding object_reset object_type add_container
  update_container_reset ops =
      add_container mp h mp_array (object_type (object_reset ops) sparse).1 0

  -- The frame of the array counts the writes but its own; `uint32_t`. The result of closing is not
  -- looked at.
  unfoldable pub update_container_close : Obj → Ret × Obj
  unfolding container_close
  update_container_close ops =
      let f = get_or ops.stack 0 no_frame in
      let n = (ops.stream.wrcnt + (2 ^ 32 - 1)) % 2 ^ 32 in
      (
        ok 0,
        (container_close mp h (record ops { stack = set ops.stack 0 (record f { size = n }) })).1,
      )

  unfoldable pub update_op : Obj → ℕ → ℕ → List ℕ → Ret × Obj
  unfolding update_op_len write_parts
  update_op ops op fieldno opdata = write_parts h ops (
      (mp.encode_array (update_op_len op)
        ++ (mp.encode_strl 1 ++ (op ∷ []))
        ++ mp.encode_uint fieldno)
      ∷ opdata
      ∷ [])

  unfoldable pub update_bit : Obj → ℕ → ℕ → ℕ → Ret × Obj
  unfolding update_op
  update_bit ops fieldno op value =
      if not (is_bit op) then (failure, ops) else update_op ops op fieldno (mp.encode_uint value)

  unfoldable pub update_arith_int : Obj → ℕ → ℕ → ℤ → Ret × Obj
  unfolding update_op
  update_arith_int ops fieldno op value =
      if not (is_arith op)
      then (failure, ops)
      else update_op ops op fieldno (encode_number mp value)

  unfoldable pub update_arith_float : Obj → ℕ → ℕ → ℕ → Ret × Obj
  unfolding update_op
  update_arith_float ops fieldno op value =
      if not (is_arith op) then (failure, ops) else update_op ops op fieldno (mp.encode_float value)

  unfoldable pub update_arith_double : Obj → ℕ → ℕ → ℕ → Ret × Obj
  unfolding update_op
  update_arith_double ops fieldno op value =
      if not (is_arith op)
      then (failure, ops)
      else update_op ops op fieldno (mp.encode_double value)

  unfoldable pub update_delete : Obj → ℕ → ℕ → Ret × Obj
  unfolding update_op
  update_delete ops fieldno fieldcount = update_op ops hash fieldno (mp.encode_uint fieldcount)

  unfoldable pub update_insert : Obj → ℕ → List ℕ → Ret × Obj
  unfolding update_op object_verify
  update_insert ops fieldno val =
      if not (object_verify mp val none) then (failure, ops) else update_op ops bang fieldno val

  unfoldable pub update_assign : Obj → ℕ → List ℕ → Ret × Obj
  unfolding update_op object_verify
  update_assign ops fieldno val =
      if not (object_verify mp val none) then (failure, ops) else update_op ops equals fieldno val

  -- The value is put together in memory of its own, which is freed at the end.
  unfoldable pub update_splice : Obj → ℕ → ℕ → ℕ → List ℕ → Ret × Obj
  unfolding update_op
  update_splice ops fieldno position offset buffer =
      let size = mp.sizeof_uint position + mp.sizeof_uint offset + mp.sizeof_str (length buffer) in
      let o = allocated ops in
      if not (h.grants ops.stream.allocs size)
      then (failure, o)
      else update_op o colon fieldno (splice_data mp position offset buffer)
