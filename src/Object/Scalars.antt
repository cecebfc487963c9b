-- ===== src/Object/Scalars.antt =====
-- The functions of beer/beer_object.c that add a value which is no container.
use bee_c.Base.{ℕ, Bool, List, [], ◌∷◌, length}
use bee_c.Msgpuck.{Msgpuck, ℤ, pos, negsuc}
use bee_c.Buf.{Heap, Ret, buf_write, buf_writev}
use bee_c.Object.State.{Obj, count_value}

module _ (h : Heap) where
  -- `s->write` and `s->writev` of an object.
  unfoldable pub write_bytes : Obj → List ℕ → Ret × Obj
  write_bytes o bytes = let (r, s) = buf_write h o.stream bytes in (r, record o { stream = s })

  unfoldable pub write_parts : Obj → List (List ℕ) → Ret × Obj
  write_parts o iov = let (r, s) = buf_writev h o.stream iov in (r, record o { stream = s })

module _ (mp : Msgpuck) (h : Heap) where
  unfoldable pub add_nil : Obj → Ret × Obj
  unfolding write_bytes count_value
  add_nil o = write_bytes h (count_value o) mp.encode_nil

  unfoldable pub add_uint : Obj → ℕ → Ret × Obj
  unfolding write_bytes count_value
  add_uint o value = write_bytes h (count_value o) (mp.encode_uint value)

  -- A negative value goes through `mp_encode_int`.
  unfoldable pub add_int : Obj → ℤ → Ret × Obj
  unfolding write_bytes count_value
  add_int o (pos n) = write_bytes h (count_value o) (mp.encode_uint n)
  add_int o (negsuc n) = write_bytes h (count_value o) (mp.encode_int (negsuc n))

  unfoldable pub add_str : Obj → List ℕ → Ret × Obj
  unfolding write_parts count_value
  add_str o str = write_parts h (count_value o) (mp.encode_strl (length str) ∷ str ∷ [])

  unfoldable pub add_bin : Obj → List ℕ → Ret × Obj
  unfolding write_parts count_value
  add_bin o bin = write_parts h (count_value o) (mp.encode_binl (length bin) ∷ bin ∷ [])

  unfoldable pub add_bool : Obj → Bool → Ret × Obj
  unfolding write_bytes count_value
  add_bool o value = write_bytes h (count_value o) (mp.encode_bool value)

  unfoldable pub add_float : Obj → ℕ → Ret × Obj
  unfolding write_bytes count_value
  add_float o value = write_bytes h (count_value o) (mp.encode_float value)

  unfoldable pub add_double : Obj → ℕ → Ret × Obj
  unfolding write_bytes count_value
  add_double o value = write_bytes h (count_value o) (mp.encode_double value)
