-- ===== src/Buf.antt =====
-- Memory streams: beer/beer_buf.c over `struct beer_stream` and `struct beer_stream_buf`
-- (include/bee/beer_stream.h, include/bee/beer_buf.h), and the two resize functions.
-- Sizes count bytes of memory, so their sums stay below 2 ^ 64 and are written without wrap.

pub mod Append
pub mod Vector
pub mod Sample
mod Tests
use bee_c.Base.{
  ℕ, zero, suc, ◌+◌, ◌-◌, ◌*◌, ◌%◌, ◌^◌, Bool, true, false, ◌||◌, Option, none, some, List, [], ◌∷◌,
  ◌++◌,
}
use bee_c.Base.{length, take, ltb, ◌==◌, if◌then◌else◌}
use bee_c.Base.Memory.{write_at}

-- A pointer to memory of the heap: NULL, the bytes that it points to, or one that was freed.
pub data Ptr : Type 0 where
  null : Ptr
  live : List ℕ → Ptr
  freed : Ptr

-- The two functions that `sb->resize` can point to.
pub data Resize : Type 0 where
  by_buf by_object : Resize

-- `allocs` counts the calls of the allocator. `as_` marks a stream over the user's buffer.
pub record Stream : Type 0 where
  pub wrcnt : ℕ
  pub reqid : ℕ
  pub data' : Ptr
  pub size : ℕ
  pub alloc : ℕ
  pub rdoff : ℕ
  pub resize : Resize
  pub as_ : Bool
  pub allocs : ℕ

-- The allocator: whether its k-th call finds n bytes, what fresh memory holds, and the sizes of the
-- structs.
pub record Heap : Type 0 where
  pub grants : ℕ → ℕ → Bool
  pub fresh : ℕ → ℕ → ℕ
  pub sizeof_stream : ℕ
  pub sizeof_buf : ℕ
  pub sizeof_object : ℕ
  pub sizeof_frame : ℕ

-- A call's result: a count, -1, or a use of freed memory.
pub data Ret : Type 0 where
  ok : ℕ → Ret
  failure : Ret
  fault : Ret

-- The n fresh bytes from index i on of the memory that call k found.
unfoldable pub fresh_bytes : (ℕ → ℕ) → ℕ → ℕ → List ℕ
fresh_bytes fresh i zero = []
fresh_bytes fresh i (suc n) = fresh i ∷ fresh_bytes fresh (i + 1) n

-- `realloc` to n bytes: the old bytes stay.
unfoldable pub grown : (ℕ → ℕ) → List ℕ → ℕ → List ℕ
unfolding fresh_bytes
grown fresh mem n = take n mem ++ fresh_bytes fresh (length mem) (n - length mem)

abbrev pub bytes_of : Ptr → List ℕ
bytes_of null = []
bytes_of (live mem) = mem
bytes_of freed = []

abbrev pub is_freed : Ptr → Bool
is_freed null = false
is_freed (live mem) = false
is_freed freed = true

-- The copies of the loop of `beer_buf_writev`, from offset `off` on.
unfoldable pub copy_all : List ℕ → ℕ → List (List ℕ) → List ℕ
copy_all mem off [] = mem
copy_all mem off (v ∷ vs) = copy_all (write_at mem off v) (off + length v) vs

abbrev pub iov_size : List (List ℕ) → ℕ
iov_size [] = 0
iov_size (v ∷ vs) = length v + iov_size vs

-- `memcpy(p, buf, size)` behind the bytes used, and the new counts.
abbrev pub appended : Stream → List ℕ → Stream
appended s buf = record s {
  data' = live (write_at (bytes_of s.data') s.size buf);
  size = s.size + length buf;
  wrcnt = (s.wrcnt + 1) % 2 ^ 32;
}

abbrev pub appended_all : Stream → List (List ℕ) → Stream
appended_all s iov = record s {
  data' = live (copy_all (bytes_of s.data') s.size iov);
  size = s.size + iov_size iov;
  wrcnt = (s.wrcnt + 1) % 2 ^ 32;
}

module _ (h : Heap) where
  -- `realloc(sb->data, nsize)`; where it fails the data is freed and the pointer is kept.
  unfoldable pub realloc_to : Stream → ℕ → Bool × Stream
  unfolding grown
  realloc_to s nsize =
      if h.grants s.allocs nsize
      then (
        true,
        record s {
          data' = live (grown (h.fresh s.allocs) (bytes_of s.data') nsize);
          alloc = nsize;
          allocs = s.allocs + 1;
        },
      )
      else (false, record s { data' = freed; allocs = s.allocs + 1 })

  -- `beer_buf_resize`
  unfoldable pub buf_resize : Stream → ℕ → Bool × Stream
  unfolding realloc_to
  buf_resize s size = realloc_to s (s.size + size)

  -- `beer_sbuf_object_resize`
  unfoldable pub object_resize : Stream → ℕ → Bool × Stream
  unfolding realloc_to
  object_resize s size =
      if ltb s.alloc (s.size + size)
      then realloc_to s (if ltb (2 * s.alloc) (s.size + size) then s.size + size else 2 * s.alloc)
      else (true, s)

  -- The call through `sb->resize`.
  unfoldable pub resize_with : Resize → Stream → ℕ → Bool × Stream
  unfolding buf_resize object_resize
  resize_with by_buf s size = buf_resize s size
  resize_with by_object s size = object_resize s size

  unfoldable pub buf_write : Stream → List ℕ → Ret × Stream
  unfolding resize_with
  buf_write s buf =
      if s.as_
      then (failure, s)
      else if is_freed s.data'
      then (fault, s)
      else let (granted, t) = resize_with s.resize s (length buf) in
        if granted then (ok (length buf), appended t buf) else (failure, t)

  unfoldable pub buf_writev : Stream → List (List ℕ) → Ret × Stream
  unfolding resize_with copy_all
  buf_writev s iov =
      if s.as_
      then (failure, s)
      else if is_freed s.data'
      then (fault, s)
      else let (granted, t) = resize_with s.resize s (iov_size iov) in
        if granted then (ok (iov_size iov), appended_all t iov) else (failure, t)

-- `beer_buf_read`, by the pointer `sb->data`: the bytes go from the caller's buffer `buf` into the
-- stream's data.
unfoldable pub read_through : Ptr → Stream → List ℕ → ℕ → Ret × Stream
read_through null s buf size = (ok 0, s)
read_through freed s buf size = (fault, s)
read_through (live mem) s buf size =
    let count = if ltb (s.size - s.rdoff) size then s.size - s.rdoff else size in
    if s.size == s.rdoff then (ok 0, s) else (
      ok count,
      record s { data' = live (write_at mem s.rdoff (take count buf)); rdoff = s.rdoff + count },
    )

unfoldable pub buf_read : Stream → List ℕ → ℕ → Ret × Stream
unfolding read_through
buf_read s buf size = read_through s.data' s buf size

-- `beer_stream_reqid`: the old id goes through a `uint32_t`.
unfoldable pub stream_reqid : Stream → ℕ → ℕ × Stream
stream_reqid s reqid = (s.reqid % 2 ^ 32, record s { reqid = reqid % 2 ^ 32 })

-- The fields as `beer_stream_init` and `beer_buf` set them.
abbrev pub fresh_stream : ℕ → Stream
fresh_stream allocs = record {
  wrcnt = 0;
  reqid = 0;
  data' = null;
  size = 0;
  alloc = 0;
  rdoff = 0;
  resize = by_buf;
  as_ = false;
  allocs = allocs;
}

-- `beer_buf`: `given` is whether the caller passes a stream to fill. The result is `none` for
-- NULL, and the count of allocator calls.
unfoldable pub buf_new : Heap → Bool → ℕ → Option Stream × ℕ
buf_new h given k =
    if given || h.grants k h.sizeof_stream
    then (let k' = if given then k else k + 1 in
        if h.grants k' h.sizeof_buf then (some (fresh_stream (k' + 1)), k' + 1) else (none, k' + 1))
    else (none, k + 1)

-- `beer_buf_as` on a stream that is there.
unfoldable pub buf_as : Stream → List ℕ → Stream
buf_as s buf = record s { data' = live buf; size = length buf; alloc = length buf; as_ = true }
