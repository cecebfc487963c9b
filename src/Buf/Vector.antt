-- ===== src/Buf/Vector.antt =====
-- `beer_buf_writev` (beer/beer_buf.c) over the contents of a stream.
use bee_c.Base.{
  ℕ, ◌+◌, ◌%◌, ◌^◌, ◌≤◌, ◌≡◌, refl, sym, ap, ◌∙◌, true, List, [], ◌∷◌, ◌++◌, append-nil,
  append_assoc,
}
use bee_c.Base.{length, take, concat, length-append, arith}
use bee_c.Base.Memory.{write_at, take-write_at, length-write_at}
use bee_c.Buf.{Stream, Heap, ok, bytes_of, copy_all, iov_size, appended_all, buf_writev}
use bee_c.Buf.Append.{IsValid, Resized, Appended, resize_with-Resized}

pub iov_size-eq-length : (iov : List (List ℕ)) → iov_size iov ≡ length (concat iov)
iov_size-eq-length [] = refl
iov_size-eq-length (v ∷ vs) = omega (arith, iov_size-eq-length vs, length-append v (concat vs))

length-copy_all :
    (iov : List (List ℕ)) (mem : List ℕ) (off : ℕ)
    → off + iov_size iov ≤ length mem
    → length (copy_all mem off iov) ≡ length mem
unfolding copy_all
length-copy_all [] mem off h = refl
length-copy_all (v ∷ vs) mem off h =
    let same = length-write_at mem off v (omega arith) in
    length-copy_all vs (write_at mem off v) (off + length v) (omega (arith, same)) ∙ same

take-copy_all :
    (iov : List (List ℕ)) (mem : List ℕ) (off n : ℕ)
    → off + iov_size iov ≤ length mem
    → n ≡ off + iov_size iov
    → take n (copy_all mem off iov) ≡ take off mem ++ concat iov
unfolding copy_all
take-copy_all [] mem off n h e =
    ap (λ k. take k mem) (omega arith) ∙ sym (append-nil (take off mem))
take-copy_all (v ∷ vs) mem off n h e =
    let same = length-write_at mem off v (omega arith) in
    take-copy_all vs (write_at mem off v) (off + length v) n (omega (arith, same)) (omega arith)
    ∙ ap (λ x. x ++ concat vs) (take-write_at mem off v (off + length v) (omega arith) refl)
    ∙ append_assoc (take off mem) v (concat vs)

appended_all-Appended :
    (s t : Stream) (iov : List (List ℕ))
    → Resized s.resize s t (iov_size iov)
    → Appended s (appended_all t iov) (concat iov)
appended_all-Appended s t iov r = record {
  valid = record {
    owned = r.owned;
    alive = refl;
    room = length-copy_all iov (bytes_of t.data') t.size (omega arith) ∙ r.room;
    within = omega arith;
    exact = λ e. omega (arith, r.tight (sym r.same_resize ∙ e));
  };
  bytes =
      take-copy_all iov (bytes_of t.data') t.size (t.size + iov_size iov) (omega arith) refl
      ∙ ap (λ x. x ++ concat iov) r.same_bytes;
  size = omega (arith, iov_size-eq-length iov);
  count = ap (λ n. (n + 1) % 2 ^ 32) r.same_count;
  same_id = r.same_id;
  same_offset = r.same_offset;
  same_resize = r.same_resize;
}

module _ (h : Heap) (willing : (k n : ℕ) → h.grants k n ≡ true) where
  -- With an allocator that never fails, a vector write to a valid memory stream does what a write
  -- of the concatenation of its parts does.
  pub buf_writev-Appended :
      (s : Stream) (iov : List (List ℕ))
      → IsValid s
      → ((buf_writev h s iov).0 ≡ ok (length (concat iov)))
        × Appended s (buf_writev h s iov).1 (concat iov)
  unfolding buf_writev
  buf_writev-Appended s iov v =
      let (granted, r) = resize_with-Resized h willing s.resize s (iov_size iov) v refl in
      simp (v.owned, v.alive, granted)
        (ap ok (iov_size-eq-length iov), appended_all-Appended s _ iov r)
