-- ===== src/Object/Opening.antt =====
-- `beer_object_add_array` and `beer_object_add_map` (beer/beer_object.c) over contents and frames.
use bee_c.Base.{◌%◌, ◌^◌, ◌+◌, ℕ, suc, ◌<◌, ◌≡◌, sym, ap, ◌∙◌, subst, true, false}
use bee_c.Base.{[], ◌∷◌, ◌++◌, length}
use bee_c.Base.{arith, ◌==◌}
use bee_c.Msgpuck.{Msgpuck, MpType}
use bee_c.Buf.{Heap, Ret, ok}
use bee_c.Buf.Append.{IsValid, contents, buf_write-Appended}
use bee_c.Object.{Obj, count_value, push_frame}
use bee_c.Base.{ap₂}
use bee_c.Object.Frames.{SameBut}
use bee_c.Object.{open_header}
use bee_c.Object.{add_container, write_bytes}
use bee_c.Object.Frames.{frames, StackValid, count_last, frames-push_frame}
use bee_c.Object.Frames.{frames-count_value, count_value-StackValid, count_value-SameBut}
use bee_c.Object.Values.{ObjValid}

-- What opening a container does: its header stands behind the bytes, and it has a frame.
pub record Opened (mp : Msgpuck) (type : MpType) (n : ℕ) (o : Obj) (x : Ret × Obj) : Type 0 where
  pub result : x.0 ≡ ok (length (open_header mp o.type type n))
  pub valid : ObjValid x.1
  pub bytes : contents x.1.stream ≡ contents o.stream ++ open_header mp o.type type n
  pub open' :
      frames x.1
      ≡ count_last (frames o) ++ (record { offset = o.stream.size; size = 0; type = type } ∷ [])
  pub depth : x.1.stack_size ≡ suc o.stack_size
  pub same_alloc : x.1.stack_alloc ≡ o.stack_alloc
  pub same_type : x.1.type ≡ o.type
  pub same_resize : x.1.stream.resize ≡ o.stream.resize
  pub count : x.1.stream.wrcnt ≡ (o.stream.wrcnt + 1) % 2 ^ 32

module _ (mp : Msgpuck) (h : Heap) (willing : (k n : ℕ) → h.grants k n ≡ true) where
  -- Writing a header once the value is counted and the frame is there.
  write_header :
      (type : MpType) (n : ℕ) (o p : Obj)
      → SameBut o p
      → StackValid p
      → IsValid o.stream
      → frames p ≡ count_last (frames o)
      → p.stack_size < p.stack_alloc
      → Opened mp type n o (write_bytes h (push_frame p type) (open_header mp o.type type n))
  unfolding write_bytes push_frame
  write_header type n o p same sv v e room =
      let header = open_header mp o.type type n in
      let (r, a) =
        buf_write-Appended h willing p.stream header (subst IsValid (sym same.stream) v) in
      let (f, w) = frames-push_frame p type sv room in
      record {
        result = r;
        valid = record {
          stream = a.valid;
          stack = record { room = w.room; within = w.within; small = w.small };
        };
        bytes = a.bytes ∙ ap (λ s. contents s ++ header) same.stream;
        open' =
            f
            ∙ ap₂ (λ fs s. fs ++ (record { offset = s.size; size = 0; type = type } ∷ [])) e
                same.stream;
        depth = omega (arith, same.stack_size, sv.small);
        same_alloc = same.stack_alloc;
        same_type = same.type;
        same_resize = a.same_resize ∙ ap (λ s. s.resize) same.stream;
        count = a.count ∙ ap (λ s. (s.wrcnt + 1) % 2 ^ 32) same.stream;
      }

  -- With an allocator that never fails, opening a container in a valid object whose stack has a
  -- free frame writes its opening header behind the bytes, counts it in the enclosing container,
  -- and pushes a frame that points at the header and counts nothing.
  pub add_container-Opened :
      (type : MpType) (n : ℕ) (o : Obj)
      → ObjValid o
      → o.stack_size < o.stack_alloc
      → Opened mp type n o (add_container mp h type o n)
  unfolding add_container
  add_container-Opened type n o v room =
      let same = count_value-SameBut o in
      let p = count_value o in
      let full : (p.stack_size == p.stack_alloc) ≡ false =
        ground (arith, same.stack_size, same.stack_alloc) in
      rw full (
        write_header type n o p same (count_value-StackValid o v.stack) v.stream
          (frames-count_value o v.stack) (omega (arith, same.stack_size, same.stack_alloc)))
