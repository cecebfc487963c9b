-- ===== src/Buf/Append.antt =====
-- `beer_buf_write` (beer/beer_buf.c) and both resize functions over the contents of a stream.
use bee_c.Base.{ℕ, zero, suc, ◌+◌, ◌-◌, ◌%◌, ◌^◌, ◌≤◌, ◌≡◌, refl, sym, ap, ◌∙◌, true, false}
use bee_c.Base.{List, ◌++◌, length, take, Bool-cases, inl, inr}
use bee_c.Base.{length-append, length-take, take_all, take-append_le, ltb, arith}
use bee_c.Base.Memory.{take-write_at, length-write_at}
use bee_c.Buf.{Resize, by_buf, by_object, Stream, Heap, ok, fresh_bytes, grown, bytes_of}
use bee_c.Buf.{is_freed, realloc_to, resize_with, appended, buf_write}

-- The bytes of a stream.
abbrev pub contents : Stream → List ℕ
contents s = take s.size (bytes_of s.data')

-- A stream that the library owns, between two calls that succeeded.
pub record IsValid (s : Stream) : Type 0 where
  pub owned : s.as_ ≡ false
  pub alive : is_freed s.data' ≡ false
  pub room : length (bytes_of s.data') ≡ s.alloc
  pub within : s.size ≤ s.alloc
  pub exact : s.resize ≡ by_buf → s.alloc ≡ s.size

length-fresh_bytes : (f : ℕ → ℕ) (i n : ℕ) → length (fresh_bytes f i n) ≡ n
unfolding fresh_bytes
length-fresh_bytes f i zero = refl
length-fresh_bytes f i (suc n) = ap suc (length-fresh_bytes f (i + 1) n)

length-grown : (f : ℕ → ℕ) (mem : List ℕ) (n : ℕ) → length mem ≤ n → length (grown f mem n) ≡ n
unfolding grown
length-grown f mem n h = omega (
  arith,
  length-append (take n mem) (fresh_bytes f (length mem) (n - length mem)),
  length-take n mem,
  length-fresh_bytes f (length mem) (n - length mem),
)

-- `realloc` to a larger size keeps the bytes.
take-grown :
    (f : ℕ → ℕ) (mem : List ℕ) (n k : ℕ)
    → length mem ≤ n
    → k ≤ length mem
    → take k (grown f mem n) ≡ take k mem
unfolding grown
take-grown f mem n k h j =
    ap (λ x. take k (x ++ fresh_bytes f (length mem) (n - length mem))) (take_all n mem h)
    ∙ take-append_le k mem (fresh_bytes f (length mem) (n - length mem)) j

-- What a resize for `size` more bytes leaves: room for them, and nothing else changed.
pub record Resized (r : Resize) (s t : Stream) (size : ℕ) : Type 0 where
  pub owned : t.as_ ≡ false
  pub room : length (bytes_of t.data') ≡ t.alloc
  pub tight : r ≡ by_buf → t.alloc ≡ s.size + size
  pub room_for : s.size + size ≤ t.alloc
  pub same_size : t.size ≡ s.size
  pub same_bytes : contents t ≡ contents s
  pub same_count : t.wrcnt ≡ s.wrcnt
  pub same_id : t.reqid ≡ s.reqid
  pub same_offset : t.rdoff ≡ s.rdoff
  pub same_resize : t.resize ≡ s.resize

module _ (h : Heap) (willing : (k n : ℕ) → h.grants k n ≡ true) where
  realloc_to-Resized :
      (r : Resize) (s : Stream) (size nsize : ℕ)
      → IsValid s
      → s.alloc ≤ nsize
      → s.size + size ≤ nsize
      → (r ≡ by_buf → nsize ≡ s.size + size)
      → ((realloc_to h s nsize).0 ≡ true) × Resized r s (realloc_to h s nsize).1 size
  unfolding realloc_to
  realloc_to-Resized r s size nsize v a b c = rw (willing s.allocs nsize) (
    refl,
    record {
      owned = v.owned;
      room = length-grown (h.fresh s.allocs) (bytes_of s.data') nsize (omega arith);
      tight = c;
      room_for = b;
      same_size = refl;
      same_bytes =
          take-grown (h.fresh s.allocs) (bytes_of s.data') nsize s.size (omega arith) (omega arith);
      same_count = refl;
      same_id = refl;
      same_offset = refl;
      same_resize = refl;
    },
  )

  kept : (s : Stream) (size : ℕ) → IsValid s → s.size + size ≤ s.alloc → Resized by_object s s size
  kept s size v a = record {
    owned = v.owned;
    room = v.room;
    tight = λ e. cc;
    room_for = a;
    same_size = refl;
    same_bytes = refl;
    same_count = refl;
    same_id = refl;
    same_offset = refl;
    same_resize = refl;
  }

  -- Both resize functions make room.
  pub resize_with-Resized :
      (r : Resize) (s : Stream) (size : ℕ)
      → IsValid s
      → s.resize ≡ r
      → ((resize_with h r s size).0 ≡ true) × Resized r s (resize_with h r s size).1 size
  unfolding resize_with
  resize_with-Resized by_buf s size v e =
      realloc_to-Resized by_buf s size (s.size + size) v (omega (arith, v.exact e)) (omega arith)
        (λ _. refl)
  resize_with-Resized by_object s size v e = elim (Bool-cases (ltb s.alloc (s.size + size))) [
    | inl y ↦ rw y (realloc_to-Resized by_object s size _ v (ground arith) (ground arith) (λ x. cc))
    | inr n ↦ rw n (refl, kept s size v (ground (arith, n)))
  ]

-- What a write of `data'` does.
pub record Appended (s t : Stream) (data' : List ℕ) : Type 0 where
  pub valid : IsValid t
  pub bytes : contents t ≡ contents s ++ data'
  pub size : t.size ≡ s.size + length data'
  pub count : t.wrcnt ≡ (s.wrcnt + 1) % 2 ^ 32
  pub same_id : t.reqid ≡ s.reqid
  pub same_offset : t.rdoff ≡ s.rdoff
  pub same_resize : t.resize ≡ s.resize

appended-Appended :
    (s t : Stream) (data' : List ℕ)
    → Resized s.resize s t (length data')
    → Appended s (appended t data') data'
appended-Appended s t data' r = record {
  valid = record {
    owned = r.owned;
    alive = refl;
    room = length-write_at (bytes_of t.data') t.size data' (omega arith) ∙ r.room;
    within = omega arith;
    exact = λ e. omega (arith, r.tight (sym r.same_resize ∙ e));
  };
  bytes =
      take-write_at (bytes_of t.data') t.size data' (t.size + length data') (omega arith) refl
      ∙ ap (λ x. x ++ data') r.same_bytes;
  size = omega arith;
  count = ap (λ n. (n + 1) % 2 ^ 32) r.same_count;
  same_id = r.same_id;
  same_offset = r.same_offset;
  same_resize = r.same_resize;
}

module _ (h : Heap) (willing : (k n : ℕ) → h.grants k n ≡ true) where
  -- With an allocator that never fails, a write to a valid memory stream returns its size,
  -- appends the bytes to the contents, counts the write, keeps the other fields and leaves a
  -- valid stream, with either resize function.
  pub buf_write-Appended :
      (s : Stream) (data' : List ℕ)
      → IsValid s
      → ((buf_write h s data').0 ≡ ok (length data')) × Appended s (buf_write h s data').1 data'
  unfolding buf_write
  buf_write-Appended s data' v =
      let (granted, r) = resize_with-Resized h willing s.resize s (length data') v refl in
      simp (v.owned, v.alive, granted) (refl, appended-Appended s _ data' r)
