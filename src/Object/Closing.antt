-- ===== src/Object/Closing.antt =====
-- `beer_object_container_close` (beer/beer_object.c) over contents and frames.
use bee_c.Base.{ℕ, suc, ◌+◌, ◌-◌, ◌^◌, ◌<◌, ◌≡◌, refl, sym, ap, ◌∙◌, subst, true, false}
use bee_c.Base.{List, [], ◌∷◌, ◌++◌, length, take}
use bee_c.Base.{arith, ltb, ◌==◌, Bool-cases, inl, inr}
use bee_c.Base.Memory.{write_at}
use bee_c.Msgpuck.{Msgpuck, Sizes, MpType}
use bee_c.Buf.{Stream, Heap, Ret, ok, bytes_of}
use bee_c.Buf.Append.{IsValid, contents, resize_with-Resized}
use bee_c.Object.{Obj, Frame, SboType, simple, sparse, packed}
use bee_c.Object.Headers.{
  header, raw_count, even, close_sparse, close_packed-header, length-sparse, length-open_packed,
  length-packed,
}
use bee_c.Object.{open_header, close_header, packed_size, close_packed, close_by}
use bee_c.Object.{container_close}
use bee_c.Object.Frames.{frames, StackValid, top_frame}
use bee_c.Object.Values.{ObjValid}
use bee_c.Object.Close.{patch-contents, grown_header}

-- What closing the container `f` does, whose header is `old` and whose values are encoded as `body`:
-- the header of its final size stands before them.
pub record Closed (o : Obj) (fs : List Frame) (bytes : List ℕ) (x : Ret × Obj) : Type 0 where
  pub result : x.0 ≡ ok 0
  pub valid : ObjValid x.1
  pub bytes' : contents x.1.stream ≡ bytes
  pub closed : frames x.1 ≡ fs
  pub depth : suc x.1.stack_size ≡ o.stack_size
  pub same_alloc : x.1.stack_alloc ≡ o.stack_alloc
  pub same_type : x.1.type ≡ o.type
  pub same_resize : x.1.stream.resize ≡ o.stream.resize

-- The innermost frame is gone.
popped :
    (o : Obj) (s : Stream) (fs : List Frame) (bytes : List ℕ)
    → StackValid o
    → 0 < o.stack_size
    → take (o.stack_size - 1) o.stack ≡ fs
    → IsValid s
    → contents s ≡ bytes
    → s.resize ≡ o.stream.resize
    → Closed o fs bytes (ok 0, record o { stack_size = o.stack_size - 1; stream = s })
popped o s fs bytes sv some_open e v b r = record {
  result = refl;
  valid = record {
    stream = v;
    stack = record { room = sv.room; within = omega (arith, sv.within); small = sv.small };
  };
  bytes' = b;
  closed = e;
  depth = omega arith;
  same_alloc = refl;
  same_type = refl;
  same_resize = r;
}

module _ (mp : Msgpuck) (laws : Sizes mp) (h : Heap)
    (willing : (k n : ℕ) → h.grants k n ≡ true) where
  close_packed_raw :
      (o : Obj) (fs : List Frame) (type : MpType) (n : ℕ) (pre body : List ℕ)
      → ObjValid o
      → 0 < o.stack_size
      → take (o.stack_size - 1) o.stack ≡ fs
      → n < 2 ^ 32
      → contents o.stream ≡ pre ++ (open_header mp packed type n ++ body)
      → Closed o fs (pre ++ (close_header mp packed type (raw_count type n) ++ body)) (
          close_packed mp h
            (record o { stack_size = o.stack_size - 1 })
            (record { offset = length pre; size = raw_count type n; type = type }))
  unfolding close_packed
  close_packed_raw o fs type n pre body v some_open e small c =
      let sz = packed_size mp type (raw_count type n) in
      let hd = close_header mp packed type (raw_count type n) in
      let same = close_packed-header mp laws type n in
      let (long, positive) = length-packed mp laws type n small in
      let one = length-open_packed mp laws type n in
      let old = open_header mp packed type n in
      elim (Bool-cases (ltb 1 sz)) [
        | inl y ↦ rw y (
            let (granted, r) =
              resize_with-Resized h willing o.stream.resize o.stream (sz - 1) v.stream refl in
            let (a, b, d) =
              grown_header o.stream _ pre old body hd sz v.stream r c one (ap length same ∙ long)
                (ground (arith, y)) in
            simp granted (popped o _ fs _ v.stack some_open e b a d))
        | inr m ↦ rw m (
            let one_byte : sz ≡ 1 = ground (arith, m) in
            let (a, b) =
              patch-contents o.stream pre old body hd v.stream c
                (ap length same ∙ long ∙ one_byte ∙ sym one) in
            let size : o.stream.size ≡ o.stream.size + (sz - 1) = omega arith in
            popped o _ fs _ v.stack some_open e
              (record {
                owned = b.owned;
                alive = refl;
                room = b.room;
                within = omega (arith, b.within);
                exact = λ x. omega (arith, b.exact x);
              })
              (ap (λ k. take k (write_at (bytes_of o.stream.data') (length pre) hd)) (sym size) ∙ a)
              refl)
      ]

  close_by-Closed :
      (t : SboType)
      → (o : Obj) (fs : List Frame) (type : MpType) (n : ℕ) (pre body : List ℕ) → ObjValid o
      → 0 < o.stack_size
      → take (o.stack_size - 1) o.stack ≡ fs
      → n < 2 ^ 32
      → contents o.stream ≡ pre ++ (open_header mp t type n ++ body)
      → Closed o fs (pre ++ (header mp t type n ++ body)) (
          close_by mp h t
            (record o { stack_size = o.stack_size - 1 })
            (record { offset = length pre; size = raw_count type n; type = type }))
  unfolding close_by open_header header
  close_by-Closed simple o fs type n pre body v some_open e small c =
      popped o o.stream fs _ v.stack some_open e v.stream c refl
  close_by-Closed sparse o fs type n pre body v some_open e small c =
      let (a, b) =
        patch-contents o.stream pre (open_header mp sparse type n) body _ v.stream c
          (ap length (close_sparse mp laws type n) ∙ length-sparse mp laws type n n) in
      popped o _ fs _ v.stack some_open e b
        (a ∙ ap (λ x. pre ++ (x ++ body)) (close_sparse mp laws type n)) refl
  close_by-Closed packed o fs type n pre body v some_open e small c =
      subst
        (λ x. Closed o fs (pre ++ (x ++ body)) (
          close_packed mp h (record o { stack_size = o.stack_size - 1 })
            (record { offset = length pre; size = raw_count type n; type = type })))
        (close_packed-header mp laws type n)
        (close_packed_raw o fs type n pre body v some_open e small c)

  -- With an allocator that never fails and a codec of the documented sizes, closing the innermost
  -- container of a valid object, where its frame has counted the values of a container of n
  -- values or n pairs with n below 2 ^ 32 and points at its opening header, puts the header of
  -- that size in the place of the opening header, keeps the bytes before it and the values behind
  -- it, and pops the frame.
  pub container_close-Closed :
      (o : Obj) (fs : List Frame) (type : MpType) (n : ℕ) (pre body : List ℕ)
      → ObjValid o
      → frames o ≡ fs ++ (record { offset = length pre; size = raw_count type n; type = type } ∷ [])
      → n < 2 ^ 32
      → contents o.stream ≡ pre ++ (open_header mp o.type type n ++ body)
      → Closed o fs (pre ++ (header mp o.type type n ++ body)) (container_close mp h o)
  unfolding container_close
  container_close-Closed o fs type n pre body v e small c =
      let (a, b, d) = top_frame o fs _ v.stack e in
      let some_open : (o.stack_size == 0) ≡ false = ground (arith, d) in
      rw (some_open, a, even type n) (close_by-Closed o.type o fs type n pre body v d b small c)
