-- ===== src/Update/Built.antt =====
-- The whole list of operations: set up, filled and closed.
use bee_c.Base.{ℕ, zero, suc, ◌+◌, ◌-◌, ◌%◌, ◌^◌, ◌<◌, ◌≡◌, refl, sym, ap, ap₂, ◌∙◌, true}
use bee_c.Base.{some, List, [], ◌∷◌, ◌++◌, append-nil, length, take, set, get_or, length-set, arith}
use bee_c.Msgpuck.{Msgpuck, Sizes, mp_array}
use bee_c.Buf.{Heap, by_object}
use bee_c.Buf.Append.{contents}
use bee_c.Object.{
  Obj, Frame, sparse, no_frame, object_reset, object_type, add_container, container_close,
  open_header,
}
use bee_c.Object.Frames.{frames}
use bee_c.Object.Values.{ObjValid}
use bee_c.Object.Headers.{header}
use bee_c.Object.Opening.{add_container-Opened}
use bee_c.Object.Closing.{container_close-Closed}
use bee_c.Object.Program.{checked}
use bee_c.Update.{update_container_reset, update_container_close}
use bee_c.Update.Tuple.{
  Change, AllProper, all_bytes, update_tuple, Filled, checked-Fills, changes-Fills,
}

abbrev behind : List Frame → List Frame
behind [] = []
behind (f ∷ fs) = fs

-- The only frame is the first one of the stack.
only_frame :
    (k : ℕ) (stack : List Frame) (f g : Frame)
    → take k stack ≡ f ∷ []
    → (get_or stack 0 no_frame ≡ f) × (take k (set stack 0 g) ≡ g ∷ [])
only_frame zero stack f g e = absurd (cc e)
only_frame (suc k) [] f g e = absurd (cc e)
only_frame (suc k) (x ∷ xs) f g e = (cc, ap (◌∷◌ g) (ap behind e))

module _ (mp : Msgpuck) (laws : Sizes mp) (h : Heap)
    (willing : (k n : ℕ) → h.grants k n ≡ true) where
  reset-Filled :
      (o : Obj)
      → ObjValid o
      → o.stream.resize ≡ by_object
      → 0 < o.stack_alloc
      → (p : Obj) × (checked (update_container_reset mp h o) ≡ some p) × Filled mp 0 [] p
  unfolding update_container_reset object_reset object_type
  reset-Filled o v r room =
      let e : Obj = (object_type (object_reset o) sparse).1 in
      let valid : ObjValid e = record {
        stream = record {
          owned = v.stream.owned;
          alive = v.stream.alive;
          room = v.stream.room;
          within = omega arith;
          exact = λ x. absurd (cc (x, r));
        };
        stack = record { room = v.stack.room; within = omega arith; small = v.stack.small };
      } in
      let a = add_container-Opened mp h willing mp_array 0 e valid room in
      checked-Fills mp h willing 0 [] _ (add_container mp h mp_array e 0) a.result (record {
        valid = a.valid;
        one_open = a.open';
        bytes' = a.bytes ∙ sym (append-nil _);
        writes = a.count;
        mode = a.same_type;
      })

  sparse_open : (n : ℕ) → open_header mp sparse mp_array 0 ≡ open_header mp sparse mp_array n
  unfolding open_header
  sparse_open n = refl

  close-Filled :
      (n : ℕ) (bytes : List ℕ) (p : Obj)
      → Filled mp n bytes p
      → n < 2 ^ 32 - 1
      → (q : Obj) × (checked (update_container_close mp h p) ≡ some q)
        × (contents q.stream ≡ header mp sparse mp_array n ++ bytes)
        × (frames q ≡ [])
  unfolding update_container_close
  close-Filled n bytes p f few =
      let m : (p.stream.wrcnt + (2 ^ 32 - 1)) % 2 ^ 32 ≡ n = omega (arith, f.writes) in
      let top = get_or p.stack 0 no_frame in
      let (a, b) =
        only_frame p.stack_size p.stack _
          (record top { size = (p.stream.wrcnt + (2 ^ 32 - 1)) % 2 ^ 32 }) f.one_open in
      let q : Obj = record p {
        stack = set p.stack 0 (record top { size = (p.stream.wrcnt + (2 ^ 32 - 1)) % 2 ^ 32 });
      } in
      let c =
        container_close-Closed mp laws h willing q [] mp_array n [] bytes
          (record {
            stream = f.valid.stream;
            stack = record {
              room = length-set p.stack 0 _ ∙ f.valid.stack.room;
              within = f.valid.stack.within;
              small = f.valid.stack.small;
            };
          })
          (b ∙ ap₂ (λ (t : Frame) (s : ℕ). record t { size = s } ∷ []) a m) (omega arith)
          (f.bytes'
            ∙ ap (λ x. x ++ bytes) (sparse_open n)
            ∙ ap (λ t. open_header mp t mp_array n ++ bytes) (sym f.mode)) in
      (
        (container_close mp h q).1,
        refl,
        c.bytes' ∙ ap (λ t. header mp t mp_array n ++ bytes) f.mode,
        c.closed,
      )

  -- With an allocator that never fails and a codec of the documented sizes, setting up the
  -- container of an update in a valid object of the library's own resize function and with a
  -- stack, adding fewer than 2 ^ 32 - 1 operations whose operators are known and whose values are
  -- whole, and closing it all succeed. The object then holds an array header of exactly as many
  -- operations as were added, and then each operation as an array of three, or of five for a
  -- splice, in the order of the calls, and no container is open.
  pub update_tuple-Built :
      (cs : List Change) (o : Obj)
      → ObjValid o
      → o.stream.resize ≡ by_object
      → 0 < o.stack_alloc
      → AllProper mp cs
      → length cs < 2 ^ 32 - 1
      → (q : Obj) × (update_tuple mp h cs o ≡ some q)
        × (contents q.stream ≡ header mp sparse mp_array (length cs) ++ all_bytes mp cs)
        × (frames q ≡ [])
  unfolding update_tuple
  update_tuple-Built cs o v r room proper few =
      let (p, begun, f) = reset-Filled o v r room in
      let (p', filled, f') =
        changes-Fills mp h willing cs 0 (length cs) [] p proper f (omega arith) (omega arith) in
      let (q, closed, c, e) = close-Filled (length cs) (all_bytes mp cs) p' f' few in
      (q, simp (begun, filled) closed, c, e)
