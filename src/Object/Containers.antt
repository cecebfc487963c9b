-- ===== src/Object/Containers.antt =====
-- The containers of beer/beer_object.c: opening one, and closing it.
use bee_c.Base.{
  ℕ, ◌+◌, ◌-◌, ◌*◌, ◌/◌, ◌%◌, ◌^◌, Bool, true, false, List, [], ◌++◌, take, drop, get_or,
}
use bee_c.Base.{ltb, ◌==◌, if◌then◌else◌, ◌&&◌}
use bee_c.Msgpuck.{Msgpuck, MpType, mp_array, mp_map}
use bee_c.Buf.{Heap, Ret, ok, failure, bytes_of, resize_with}
use bee_c.Object.State.{Obj, Frame, SboType, simple, sparse, packed, is_map, no_frame, count_value}
use bee_c.Object.State.{fresh_frames, push_frame, patch}
use bee_c.Object.Scalars.{write_bytes}

module _ (mp : Msgpuck) where
  unfoldable pub encode_array32 : ℕ → List ℕ
  encode_array32 size = mp.store_u8 0xdd ++ mp.store_u32 size

  unfoldable pub encode_map32 : ℕ → List ℕ
  encode_map32 size = mp.store_u8 0xdf ++ mp.store_u32 size

  -- The bytes that `beer_object_add_array` and `beer_object_add_map` write for a new container.
  unfoldable pub open_header : SboType → MpType → ℕ → List ℕ
  unfolding encode_array32 encode_map32
  open_header simple type size = if is_map type then mp.encode_map size else mp.encode_array size
  open_header sparse type size = if is_map type then encode_map32 0 else encode_array32 0
  open_header packed type size = if is_map type then mp.encode_map 0 else mp.encode_array 0

  -- The header of a closed container of `size` values.
  unfoldable pub close_header : SboType → MpType → ℕ → List ℕ
  unfolding encode_array32 encode_map32
  close_header simple type size = []
  close_header sparse type size =
      if is_map type then encode_map32 (size / 2) else encode_array32 size
  close_header packed type size =
      if is_map type then mp.encode_map (size / 2) else mp.encode_array size

  abbrev pub packed_size : MpType → ℕ → ℕ
  packed_size type size = if is_map type then mp.sizeof_map (size / 2) else mp.sizeof_array size

module _ (mp : Msgpuck) (h : Heap) where
  -- A new stack of twice the size (`uint8_t`); the frames of the old one are not copied.
  unfoldable pub grow_stack : Obj → Bool × Obj
  unfolding fresh_frames
  grow_stack o =
      let n = (2 * o.stack_alloc) % 2 ^ 8 in
      let s = record (o.stream) { allocs = o.stream.allocs + 1 } in
      if o.stack_alloc == 128
      then (false, o)
      else if h.grants o.stream.allocs (n * h.sizeof_frame)
      then (
        true,
        record o {
          stream = s;
          stack = fresh_frames (h.fresh o.stream.allocs) 0 n;
          stack_alloc = n;
        },
      )
      else (false, record o { stream = s })

  -- `beer_object_add_array` at `mp_array`, `beer_object_add_map` at `mp_map`.
  unfoldable pub add_container : MpType → Obj → ℕ → Ret × Obj
  unfolding push_frame open_header grow_stack write_bytes count_value
  add_container type o size =
      let o1 = count_value o in
      let (granted, o2) = if o1.stack_size == o1.stack_alloc then grow_stack o1 else (true, o1) in
      if granted
      then write_bytes h (push_frame o2 type) (open_header mp o.type type size)
      else (failure, o2)

  abbrev pub add_array : Obj → ℕ → Ret × Obj
  add_array = add_container mp_array

  abbrev pub add_map : Obj → ℕ → Ret × Obj
  add_map = add_container mp_map

  -- The packed case: the body moves up by `sz - 1` bytes, and the header is written before it.
  unfoldable pub close_packed : Obj → Frame → Ret × Obj
  unfolding close_header
  close_packed o f =
      let s = o.stream in
      let sz = packed_size mp f.type f.size in
      let header = close_header mp packed f.type f.size in
      let (granted, t) = if ltb 1 sz then resize_with h s.resize s (sz - 1) else (true, s) in
      let body = take (t.size - f.offset - 1) (drop (f.offset + 1) (bytes_of t.data')) in
      let moved = if ltb 1 sz then patch t (f.offset + sz) body else t in
      if granted
      then (
        ok 0,
        record o { stream = record (patch moved f.offset header) { size = s.size + (sz - 1) } },
      )
      else (failure, record o { stream = t })

  -- The cases of `beer_object_container_close` on the type of packing.
  unfoldable pub close_by : SboType → Obj → Frame → Ret × Obj
  unfolding close_packed
  close_by simple o f = (ok 0, o)
  close_by sparse o f =
      (ok 0, record o { stream = patch o.stream f.offset (close_header mp sparse f.type f.size) })
  close_by packed o f = close_packed o f

  unfoldable pub container_close : Obj → Ret × Obj
  unfolding close_by
  container_close o =
      let f = get_or o.stack (o.stack_size - 1) no_frame in
      if o.stack_size == 0
      then (failure, o)
      else if is_map f.type && f.size % 2 == 1
      then (failure, o)
      else close_by o.type (record o { stack_size = o.stack_size - 1 }) f
