-- ===== src/Tp/Requests.antt =====
-- The functions of include/tp.h that begin a request and that add to one.
use bee_c.Base.{ℕ, ◌+◌, Bool, List, [], ◌∷◌, ◌++◌, length, take}
use bee_c.Base.{◌==◌, if◌then◌else◌}
use bee_c.Msgpuck.{Msgpuck, ℤ}
use bee_c.Request.Key
use bee_c.Request.{code_of, Op}
use bee_c.Request.Auth.{scramble_prepare, scramble_size, guest_name, chap_sha1}
use bee_c.Tp.State.{Tp, Out, begin_request, extend}

-- The bytes of a string of C before its NUL.
abbrev pub c_string : List ℕ → List ℕ
c_string [] = []
c_string (b ∷ bs) = let rest = c_string bs in if b == 0 then [] else b ∷ rest

module _ (mp : Msgpuck) where
  unfoldable pub tp_ping : Tp → Out
  unfolding begin_request
  tp_ping p = begin_request mp p (code_of Op.ping) (mp.sizeof_map 0) (mp.encode_map 0)

  unfoldable pub tp_select : Tp → ℕ → ℕ → ℕ → ℕ → ℕ → Out
  unfolding begin_request
  tp_select p space index offset iterator limit =
      begin_request mp p (code_of Op.select)
        (mp.sizeof_map 6
          + mp.sizeof_uint Key.space
          + mp.sizeof_uint space
          + mp.sizeof_uint Key.index
          + mp.sizeof_uint index
          + mp.sizeof_uint Key.offset
          + mp.sizeof_uint offset
          + mp.sizeof_uint Key.limit
          + mp.sizeof_uint limit
          + mp.sizeof_uint Key.iterator
          + mp.sizeof_uint iterator
          + mp.sizeof_uint Key.key)
        (mp.encode_map 6
          ++ mp.encode_uint Key.space
          ++ mp.encode_uint space
          ++ mp.encode_uint Key.index
          ++ mp.encode_uint index
          ++ mp.encode_uint Key.offset
          ++ mp.encode_uint offset
          ++ mp.encode_uint Key.limit
          ++ mp.encode_uint limit
          ++ mp.encode_uint Key.iterator
          ++ mp.encode_uint iterator
          ++ mp.encode_uint Key.key)

  unfoldable pub tpi_encode_store : Tp → Op → ℕ → Out
  unfolding begin_request
  tpi_encode_store p type space =
      begin_request mp p (code_of type)
        (mp.sizeof_map 2
          + mp.sizeof_uint Key.space
          + mp.sizeof_uint space
          + mp.sizeof_uint Key.tuple)
        (mp.encode_map 2
          ++ mp.encode_uint Key.space
          ++ mp.encode_uint space
          ++ mp.encode_uint Key.tuple)

  unfoldable pub tp_insert : Tp → ℕ → Out
  unfolding tpi_encode_store
  tp_insert p space = tpi_encode_store p Op.insert space

  unfoldable pub tp_replace : Tp → ℕ → Out
  unfolding tpi_encode_store
  tp_replace p space = tpi_encode_store p Op.replace space

  -- The map of the body is counted, but not written.
  unfoldable pub tp_delete : Tp → ℕ → Out
  unfolding begin_request
  tp_delete p space =
      begin_request mp p (code_of Op.delete)
        (mp.sizeof_map 2 + mp.sizeof_uint Key.space + mp.sizeof_uint space + mp.sizeof_uint Key.key)
        (mp.encode_uint Key.space ++ mp.encode_uint space ++ mp.encode_uint Key.key)

  unfoldable pub tp_call : Tp → List ℕ → Out
  unfolding begin_request
  tp_call p function =
      begin_request mp p (code_of Op.call_16)
        (mp.sizeof_map 2
          + mp.sizeof_uint Key.function
          + mp.sizeof_str (length function)
          + mp.sizeof_uint Key.tuple)
        (mp.encode_map 2
          ++ mp.encode_uint Key.function
          ++ (mp.encode_strl (length function) ++ function)
          ++ mp.encode_uint Key.tuple)

  -- The size is that of the key of a function.
  unfoldable pub tp_eval : Tp → List ℕ → Out
  unfolding begin_request
  tp_eval p expr =
      begin_request mp p (code_of Op.eval)
        (mp.sizeof_map 2
          + mp.sizeof_uint Key.function
          + mp.sizeof_str (length expr)
          + mp.sizeof_uint Key.tuple)
        (mp.encode_map 2
          ++ mp.encode_uint Key.expression
          ++ (mp.encode_strl (length expr) ++ expr)
          ++ mp.encode_uint Key.tuple)

  unfoldable pub tp_update : Tp → ℕ → Out
  unfolding begin_request
  tp_update p space =
      begin_request mp p (code_of Op.update)
        (mp.sizeof_map 3 + mp.sizeof_uint Key.space + mp.sizeof_uint space + mp.sizeof_uint Key.key)
        (mp.encode_map 3
          ++ mp.encode_uint Key.space
          ++ mp.encode_uint space
          ++ mp.encode_uint Key.key)

  -- The key and the name of the user are not counted.
  unfoldable pub tp_auth :
      (List ℕ → List ℕ) → (List ℕ → List ℕ) → Tp → List ℕ → List ℕ → List ℕ → Out
  unfolding begin_request scramble_prepare
  tp_auth sha1 base64_decode p salt_base64 user pass =
      begin_request mp p (code_of Op.auth)
        (mp.sizeof_array 2 + mp.sizeof_str 0 + mp.sizeof_str scramble_size)
        (mp.encode_map 2
          ++ mp.encode_uint Key.username
          ++ (mp.encode_strl (length user) ++ user)
          ++ mp.encode_uint Key.tuple
          ++ mp.encode_array 2
          ++ (mp.encode_strl 9 ++ chap_sha1)
          ++ (mp.encode_strl scramble_size
              ++ scramble_prepare sha1 (base64_decode (take 44 salt_base64)) pass))

  unfoldable pub tp_deauth : Tp → Out
  unfolding begin_request
  tp_deauth p = begin_request mp p (code_of Op.auth) (mp.sizeof_array 0) (
      mp.encode_map 2
      ++ mp.encode_uint Key.username
      ++ (mp.encode_strl 5 ++ guest_name)
      ++ mp.encode_uint Key.tuple
      ++ mp.encode_array 0)

  unfoldable pub tp_updatebegin : Tp → ℕ → Out
  unfolding extend
  tp_updatebegin p op_count =
      extend mp p (mp.sizeof_uint Key.tuple + mp.sizeof_array op_count)
        (mp.encode_uint Key.tuple ++ mp.encode_array op_count)

  unfoldable pub tp_op : Tp → ℕ → ℕ → Out
  unfolding extend
  tp_op p op field_no =
      extend mp p (mp.sizeof_array 3 + mp.sizeof_str 1 + mp.sizeof_uint field_no)
        (mp.encode_array 3 ++ (mp.encode_strl 1 ++ op ∷ []) ++ mp.encode_uint field_no)

  -- The size takes the number of the field in place of the offset and of the limit.
  unfoldable pub tp_op_splice : Tp → ℕ → ℕ → ℕ → List ℕ → Out
  unfolding extend
  tp_op_splice p field_no offset cut_limit paste =
      extend mp p
        (mp.sizeof_array 5
          + mp.sizeof_str 1
          + mp.sizeof_uint field_no
          + mp.sizeof_uint field_no
          + mp.sizeof_uint field_no
          + mp.sizeof_str (length paste))
        (mp.encode_array 5
          ++ (mp.encode_strl 1 ++ 58 ∷ [])
          ++ mp.encode_uint field_no
          ++ mp.encode_uint offset
          ++ mp.encode_uint cut_limit
          ++ (mp.encode_strl (length paste) ++ paste))

  unfoldable pub tp_encode_nil : Tp → Out
  unfolding extend
  tp_encode_nil p = extend mp p mp.sizeof_nil mp.encode_nil

  unfoldable pub tp_encode_uint : Tp → ℕ → Out
  unfolding extend
  tp_encode_uint p num = extend mp p (mp.sizeof_uint num) (mp.encode_uint num)

  unfoldable pub tp_encode_int : Tp → ℤ → Out
  unfolding extend
  tp_encode_int p num = extend mp p (mp.sizeof_int num) (mp.encode_int num)

  unfoldable pub tp_encode_str : Tp → List ℕ → Out
  unfolding extend
  tp_encode_str p str =
      extend mp p (mp.sizeof_str (length str)) (mp.encode_strl (length str) ++ str)

  unfoldable pub tp_encode_sz : Tp → List ℕ → Out
  unfolding tp_encode_str
  tp_encode_sz p str = tp_encode_str p (c_string str)

  unfoldable pub tp_encode_bin : Tp → List ℕ → Out
  unfolding extend
  tp_encode_bin p str =
      extend mp p (mp.sizeof_bin (length str)) (mp.encode_binl (length str) ++ str)

  unfoldable pub tp_encode_array : Tp → ℕ → Out
  unfolding extend
  tp_encode_array p size = extend mp p (mp.sizeof_array size) (mp.encode_array size)

  unfoldable pub tp_encode_map : Tp → ℕ → Out
  unfolding extend
  tp_encode_map p size = extend mp p (mp.sizeof_map size) (mp.encode_map size)

  unfoldable pub tp_encode_bool : Tp → Bool → Out
  unfolding extend
  tp_encode_bool p val = extend mp p (mp.sizeof_bool val) (mp.encode_bool val)

  unfoldable pub tp_encode_float : Tp → ℕ → Out
  unfolding extend
  tp_encode_float p num = extend mp p (mp.sizeof_float num) (mp.encode_float num)

  unfoldable pub tp_encode_double : Tp → ℕ → Out
  unfolding extend
  tp_encode_double p num = extend mp p (mp.sizeof_double num) (mp.encode_double num)

  unfoldable pub tp_tuple : Tp → ℕ → Out
  unfolding tp_encode_array
  tp_tuple p field_count = tp_encode_array p field_count

  unfoldable pub tp_key : Tp → ℕ → Out
  unfolding tp_encode_array
  tp_key p part_count = tp_encode_array p part_count
