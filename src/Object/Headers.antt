-- ===== src/Object/Headers.antt =====
-- The headers of containers: what is written at opening, and what stands there after closing.
use bee_c.Base.{ℕ, ◌*◌, ◌/◌, ◌%◌, ◌^◌, ◌<◌, ◌≡◌, refl, ◌∙◌, false, List}
use bee_c.Base.{length, length-append, arith, ◌==◌, ◌&&◌, if◌then◌else◌, Bool-cases, inl, inr}
use bee_c.Msgpuck.{Msgpuck, Sizes, MpType}
use bee_c.Object.{SboType, simple, sparse, packed, is_map, open_header, close_header, packed_size}
use bee_c.Object.{encode_array32, encode_map32}

-- The header of a container of `n` values, or `n` pairs, in its final form.
unfoldable pub header : Msgpuck → SboType → MpType → ℕ → List ℕ
unfolding encode_array32 encode_map32
header mp simple type n = if is_map type then mp.encode_map n else mp.encode_array n
header mp sparse type n = if is_map type then encode_map32 mp n else encode_array32 mp n
header mp packed type n = if is_map type then mp.encode_map n else mp.encode_array n

-- What the frame of such a container has counted.
abbrev pub raw_count : MpType → ℕ → ℕ
raw_count type n = if is_map type then 2 * n else n

pub even : (type : MpType) (n : ℕ) → (is_map type && raw_count type n % 2 == 1) ≡ false
even type n = elim (Bool-cases (is_map type)) [ inl y ↦ rw y (ground arith) | inr m ↦ rw m ]

half_double : (n : ℕ) → 2 * n / 2 ≡ n
half_double n = omega arith

module _ (mp : Msgpuck) (laws : Sizes mp) where
  -- A simple container's header is final at once.
  pub open_simple : (type : MpType) (n : ℕ) → open_header mp simple type n ≡ header mp simple type n
  unfolding open_header header
  open_simple type n = refl

  pub close_sparse :
      (type : MpType) (n : ℕ)
      → close_header mp sparse type (raw_count type n) ≡ header mp sparse type n
  unfolding close_header header
  close_sparse type n = elim (Bool-cases (is_map type)) [
    | inl y ↦ rw y (rw half_double)
    | inr m ↦ rw m
  ]

  pub close_packed-header :
      (type : MpType) (n : ℕ)
      → close_header mp packed type (raw_count type n) ≡ header mp packed type n
  unfolding close_header header
  close_packed-header type n = elim (Bool-cases (is_map type)) [
    | inl y ↦ rw y (rw half_double)
    | inr m ↦ rw m
  ]

  length-array32 : (n : ℕ) → length (encode_array32 mp n) ≡ 5
  unfolding encode_array32
  length-array32 n = omega (
    arith,
    length-append (mp.store_u8 0xdd) (mp.store_u32 n),
    laws.length-store_u8 0xdd,
    laws.length-store_u32 n,
  )

  length-map32 : (n : ℕ) → length (encode_map32 mp n) ≡ 5
  unfolding encode_map32
  length-map32 n = omega (
    arith,
    length-append (mp.store_u8 0xdf) (mp.store_u32 n),
    laws.length-store_u8 0xdf,
    laws.length-store_u32 n,
  )

  -- A sparse container's header keeps its size.
  pub length-sparse :
      (type : MpType) (n k : ℕ)
      → length (header mp sparse type n) ≡ length (open_header mp sparse type k)
  unfolding header open_header
  length-sparse type n k = elim (Bool-cases (is_map type)) [
    | inl y ↦ rw y (omega (arith, length-map32 n, length-map32 0))
    | inr m ↦ rw m (omega (arith, length-array32 n, length-array32 0))
  ]

  -- A packed container begins with one byte.
  pub length-open_packed : (type : MpType) (k : ℕ) → length (open_header mp packed type k) ≡ 1
  unfolding open_header
  length-open_packed type k = elim (Bool-cases (is_map type)) [
    | inl y ↦ rw y (laws.length-encode_map 0 (omega arith) ∙ laws.sizeof_map_zero)
    | inr m ↦ rw m (laws.length-encode_array 0 (omega arith) ∙ laws.sizeof_array_zero)
  ]

  -- The size that closing makes room for is that of the header.
  pub length-packed :
      (type : MpType) (n : ℕ)
      → n < 2 ^ 32
      → (length (header mp packed type n) ≡ packed_size mp type (raw_count type n))
        × (0 < packed_size mp type (raw_count type n))
  unfolding header
  length-packed type n h = elim (Bool-cases (is_map type)) [
    | inl y ↦ rw (y, half_double) (laws.length-encode_map n h, laws.sizeof_map_pos n)
    | inr m ↦ rw m (laws.length-encode_array n h, laws.sizeof_array_pos n)
  ]
