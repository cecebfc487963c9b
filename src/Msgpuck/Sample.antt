-- ===== src/Msgpuck/Sample.antt =====
-- A codec for examples, which keeps the documented sizes. Its decoders know small values only.
use bee_c.Base.{ℕ, zero, suc, ◌+◌, ◌-◌, ◌/◌, ◌%◌, ◌^◌, ◌<◌, ◌≡◌, refl, Bool-cases, inl, inr}
use bee_c.Base.{List, [], ◌∷◌, ◌++◌, length, ltb, if◌then◌else◌, arith}
use bee_c.Base.{Bool, true, false, some}
use bee_c.Msgpuck.{MpType, mp_array, Msgpuck, Sizes, Measured, ℤ, pos, negsuc}

-- The last k bytes of n, the most significant one first.
abbrev pub big_endian : ℕ → ℕ → List ℕ
big_endian zero n = []
big_endian (suc k) n = big_endian k (n / 256) ++ (n % 256 ∷ [])

abbrev by_size : ℕ → ℕ → ℕ → ℕ → ℕ → List ℕ
by_size limit fix short long n =
    if ltb n limit
    then (fix + n) ∷ []
    else if ltb n 65536
    then short ∷ big_endian 2 n
    else long ∷ big_endian 4 n

abbrev size_of : ℕ → ℕ
size_of n = if ltb n 16 then 1 else if ltb n 65536 then 3 else 5

abbrev encode_unsigned : ℕ → List ℕ
encode_unsigned n =
    if ltb n 128
    then n ∷ []
    else if ltb n 256
    then 0xcc ∷ n ∷ []
    else if ltb n 65536
    then 0xcd ∷ big_endian 2 n
    else if ltb n 4294967296
    then 0xce ∷ big_endian 4 n
    else 0xcf ∷ big_endian 8 n

abbrev encode_negative : ℤ → List ℕ
encode_negative (pos n) = 0xd3 ∷ big_endian 8 n
encode_negative (negsuc n) =
    if ltb n 32 then (255 - n) ∷ [] else 0xd3 ∷ big_endian 8 (2 ^ 64 - suc n)

-- The type by the first byte, told apart as far as arrays go.
abbrev type_of_first : List ℕ → MpType
type_of_first [] = MpType.mp_nil
type_of_first (b ∷ bs) =
    if ltb b 0x90 then MpType.mp_nil else if ltb b 0xa0 then mp_array else MpType.mp_nil

-- The value of a first byte below 16 bits of tag.
abbrev decode_small : List ℕ → ℕ × List ℕ
decode_small [] = (0, [])
decode_small (b ∷ bs) = (if ltb b 128 then b else b % 16, bs)

-- `check` and the decoders take all bytes for one value.
abbrev pub sample : Msgpuck
sample = record {
  encode_nil = 0xc0 ∷ [];
  encode_uint = encode_unsigned;
  encode_int = encode_negative;
  encode_strl = λ n. by_size 32 0xa0 0xda 0xdb n;
  encode_binl = λ n. if ltb n 65536 then 0xc5 ∷ big_endian 2 n else 0xc6 ∷ big_endian 4 n;
  encode_bool = λ b. if b then 0xc3 ∷ [] else 0xc2 ∷ [];
  encode_float = λ x. 0xca ∷ big_endian 4 x;
  encode_double = λ x. 0xcb ∷ big_endian 8 x;
  encode_array = λ n. by_size 16 0x90 0xdc 0xdd n;
  encode_map = λ n. by_size 16 0x80 0xde 0xdf n;
  store_u8 = λ b. big_endian 1 b;
  store_u32 = λ n. big_endian 4 n;
  store_u64 = λ n. big_endian 8 n;
  sizeof_array = size_of;
  sizeof_map = size_of;
  sizeof_nil = 1;
  sizeof_uint = λ n. length (encode_unsigned n);
  sizeof_int = λ z. length (encode_negative z);
  sizeof_str = λ n. length (by_size 32 0xa0 0xda 0xdb n) + n;
  sizeof_bin = λ n. (if ltb n 65536 then 3 else 5) + n;
  sizeof_bool = λ b. 1;
  sizeof_float = λ x. 5;
  sizeof_double = λ x. 9;
  type_of = type_of_first;
  check = λ data'. some (length data');
  decode_uint = decode_small;
  decode_map = decode_small;
  decode_array = decode_small;
  decode_str = λ data'. (data', []);
  next = λ data'. [];
}

length-by_size : (fix short long n : ℕ) → length (by_size 16 fix short long n) ≡ size_of n
length-by_size fix short long n = elim (Bool-cases (ltb n 16)) [
  | inl y ↦ rw y refl
  | inr m ↦ rw m (elim (Bool-cases (ltb n 65536)) [ inl y ↦ rw y refl | inr k ↦ rw k refl ])
]

size_of_pos : (n : ℕ) → 0 < size_of n
size_of_pos n = ground arith

pub sample-Sizes : Sizes sample
sample-Sizes = record {
  length-store_u8 = λ b. refl;
  length-store_u32 = λ n. refl;
  length-encode_array = λ n h. length-by_size 0x90 0xdc 0xdd n;
  length-encode_map = λ n h. length-by_size 0x80 0xde 0xdf n;
  sizeof_array_pos = size_of_pos;
  sizeof_map_pos = size_of_pos;
  sizeof_array_zero = refl;
  sizeof_map_zero = refl;
}

length-binary : (n : ℕ) → length (sample.encode_binl n) + n ≡ sample.sizeof_bin n
length-binary n = elim (Bool-cases (ltb n 65536)) [ inl y ↦ rw y refl | inr m ↦ rw m refl ]

length-truth : (b : Bool) → length (sample.encode_bool b) ≡ 1
length-truth true = refl
length-truth false = refl

one_byte_lem : (n : ℕ) → n < 128 → sample.sizeof_uint n ≡ 1
one_byte_lem n h = let y : ltb n 128 ≡ true = ground arith in rw y refl

pub sample-Measured : Measured sample
sample-Measured = record {
  length-nil = refl;
  length-uint = λ n. refl;
  length-int = λ z. refl;
  length-strl = λ n. refl;
  length-binl = length-binary;
  length-bool = length-truth;
  length-float = λ x. refl;
  length-double = λ x. refl;
  length-array = λ n. length-by_size 0x90 0xdc 0xdd n;
  length-map = λ n. length-by_size 0x80 0xde 0xdf n;
  length-u32 = λ n. refl;
  one_byte = one_byte_lem;
}
