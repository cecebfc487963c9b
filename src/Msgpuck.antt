-- ===== src/Msgpuck.antt =====
-- The MsgPack codec that the library calls, msgpuck: its sources are a submodule, so its functions
-- are a parameter of the model, with what its documentation promises of them as laws.
-- A C call that writes at a pointer and returns the pointer behind what it wrote is the list of
-- the bytes that it writes.
pub mod Sample
pub mod Tagged
use bee_c.Base.{ℕ, ◌+◌, ◌^◌, ◌<◌, ◌≡◌, Bool, Option, List, length}

-- Signed integers; `negsuc n` is -(n + 1).
pub data ℤ : Type 0 where
  pos : ℕ → ℤ
  negsuc : ℕ → ℤ

-- `enum tp_type` of include/tp.h, which names msgpuck's `enum mp_type`.
pub data MpType : Type 0 where
  mp_nil mp_uint mp_int mp_str mp_bin mp_array mp_map mp_bool mp_float mp_double mp_ext : MpType

-- A float or a double is given by its bit pattern. `type_of` is `mp_typeof` of the byte at a pointer,
-- and `check` is `mp_check` from a pointer to an end: `none` is its failure, and `some k` the k bytes
-- that it steps over. A decoder gives the value and the bytes behind it, and `next` those behind
-- a value.
pub record Msgpuck : Type 0 where
  pub encode_nil : List ℕ
  pub encode_uint : ℕ → List ℕ
  pub encode_int : ℤ → List ℕ
  pub encode_strl : ℕ → List ℕ
  pub encode_binl : ℕ → List ℕ
  pub encode_bool : Bool → List ℕ
  pub encode_float : ℕ → List ℕ
  pub encode_double : ℕ → List ℕ
  pub encode_array : ℕ → List ℕ
  pub encode_map : ℕ → List ℕ
  pub store_u8 : ℕ → List ℕ
  pub store_u32 : ℕ → List ℕ
  pub store_u64 : ℕ → List ℕ
  pub sizeof_array : ℕ → ℕ
  pub sizeof_map : ℕ → ℕ
  pub sizeof_nil : ℕ
  pub sizeof_uint : ℕ → ℕ
  pub sizeof_int : ℤ → ℕ
  pub sizeof_str : ℕ → ℕ
  pub sizeof_bin : ℕ → ℕ
  pub sizeof_bool : Bool → ℕ
  pub sizeof_float : ℕ → ℕ
  pub sizeof_double : ℕ → ℕ
  pub type_of : List ℕ → MpType
  pub check : List ℕ → Option ℕ
  pub decode_uint : List ℕ → ℕ × List ℕ
  pub decode_map : List ℕ → ℕ × List ℕ
  pub decode_array : List ℕ → ℕ × List ℕ
  pub decode_str : List ℕ → List ℕ × List ℕ
  pub next : List ℕ → List ℕ

-- The sizes that the documentation gives for what the container builder writes.
pub record Sizes (mp : Msgpuck) : Type 0 where
  pub length-store_u8 : (b : ℕ) → length (mp.store_u8 b) ≡ 1
  pub length-store_u32 : (n : ℕ) → length (mp.store_u32 n) ≡ 4
  pub length-encode_array : (n : ℕ) → n < 2 ^ 32 → length (mp.encode_array n) ≡ mp.sizeof_array n
  pub length-encode_map : (n : ℕ) → n < 2 ^ 32 → length (mp.encode_map n) ≡ mp.sizeof_map n
  pub sizeof_array_pos : (n : ℕ) → 0 < mp.sizeof_array n
  pub sizeof_map_pos : (n : ℕ) → 0 < mp.sizeof_map n
  pub sizeof_array_zero : mp.sizeof_array 0 ≡ 1
  pub sizeof_map_zero : mp.sizeof_map 0 ≡ 1

-- `mp_sizeof_*` of a value is the number of bytes that `mp_encode_*` writes of it. An argument is a
-- machine number in C; the laws take the codec as extended to all numbers.
pub record Measured (mp : Msgpuck) : Type 0 where
  pub length-nil : length mp.encode_nil ≡ mp.sizeof_nil
  pub length-uint : (n : ℕ) → length (mp.encode_uint n) ≡ mp.sizeof_uint n
  pub length-int : (z : ℤ) → length (mp.encode_int z) ≡ mp.sizeof_int z
  pub length-strl : (n : ℕ) → length (mp.encode_strl n) + n ≡ mp.sizeof_str n
  pub length-binl : (n : ℕ) → length (mp.encode_binl n) + n ≡ mp.sizeof_bin n
  pub length-bool : (b : Bool) → length (mp.encode_bool b) ≡ mp.sizeof_bool b
  pub length-float : (x : ℕ) → length (mp.encode_float x) ≡ mp.sizeof_float x
  pub length-double : (x : ℕ) → length (mp.encode_double x) ≡ mp.sizeof_double x
  pub length-array : (n : ℕ) → length (mp.encode_array n) ≡ mp.sizeof_array n
  pub length-map : (n : ℕ) → length (mp.encode_map n) ≡ mp.sizeof_map n
  pub length-u32 : (n : ℕ) → length (mp.store_u32 n) ≡ 4
  pub one_byte : (n : ℕ) → n < 128 → mp.sizeof_uint n ≡ 1
