-- ===== src/Object/Build.antt =====
-- The calls of the builder for a whole tree of values, by induction on the tree.
use bee_c.Base.{ℕ, zero, suc, ◌+◌, ◌*◌, ◌≤◌, ◌≡◌, refl, sym, subst, true}
use bee_c.Base.{Option, none, some, ◌++◌, append-nil, arith}
use bee_c.Msgpuck.{Msgpuck, Sizes, mp_array, mp_map}
use bee_c.Buf.{Heap}
use bee_c.Buf.Append.{contents}
use bee_c.Object.{Obj}
use bee_c.Object.Values.{
  ObjValid, add_nil-Added, add_uint-Added, add_int-Added, add_str-Added, add_bin-Added,
}
use bee_c.Object.Values.{add_bool-Added, add_float-Added, add_double-Added}
use bee_c.Object.Program
use bee_c.Object.Program.{
  Value, Items, Pairs, checked, ◌>>=◌, count, count_pairs, encode, encode_items, encode_pairs,
}
use bee_c.Object.Program.{build, build_items, build_pairs, Fits, ItemsFit, PairsFit}
use bee_c.Object.Built.{Built, Succeeds, checked-Succeeds, then-Succeeds}
use bee_c.Object.Nested.{container-Succeeds}

module _ (mp : Msgpuck) (laws : Sizes mp) (h : Heap)
    (willing : (k n : ℕ) → h.grants k n ≡ true) where
  mutual
    unfolding build encode

    build-Succeeds :
        (v : Value) (d : ℕ) (o : Obj)
        → ObjValid o
        → Fits v d
        → o.stack_size + d ≤ o.stack_alloc
        → Succeeds 1 o (encode mp o.type v) (build mp h v o)
    build-Succeeds Program.nil d o valid f room =
        checked-Succeeds o _ _ (add_nil-Added mp h willing o valid)
    build-Succeeds (Program.uint n) d o valid f room =
        checked-Succeeds o _ _ (add_uint-Added mp h willing o n valid)
    build-Succeeds (Program.int z) d o valid f room =
        checked-Succeeds o _ _ (add_int-Added mp h willing o z valid)
    build-Succeeds (Program.str s) d o valid f room =
        checked-Succeeds o _ _ (add_str-Added mp h willing o s valid)
    build-Succeeds (Program.bin b) d o valid f room =
        checked-Succeeds o _ _ (add_bin-Added mp h willing o b valid)
    build-Succeeds (Program.bool b) d o valid f room =
        checked-Succeeds o _ _ (add_bool-Added mp h willing o b valid)
    build-Succeeds (Program.float x) d o valid f room =
        checked-Succeeds o _ _ (add_float-Added mp h willing o x valid)
    build-Succeeds (Program.double x) d o valid f room =
        checked-Succeeds o _ _ (add_double-Added mp h willing o x valid)
    build-Succeeds (Program.array vs) zero o valid f room = absurd f
    build-Succeeds (Program.array vs) (suc d) o valid f room =
        container-Succeeds mp laws h willing mp_array (count vs) o (encode_items mp o.type vs)
          (count vs) (build_items mp h vs) valid (omega arith) refl f.0 f.0
          (λ p w e s t.
            subst (λ m. Succeeds (count vs) p (encode_items mp m vs) (build_items mp h vs p)) t
              (build_items-Succeeds vs d p w f.1 (omega arith)))
    build-Succeeds (Program.map ps) zero o valid f room = absurd f
    build-Succeeds (Program.map ps) (suc d) o valid f room =
        container-Succeeds mp laws h willing mp_map (count_pairs ps) o (encode_pairs mp o.type ps)
          (2 * count_pairs ps) (build_pairs mp h ps) valid (omega arith) refl (omega (arith, f.0))
          f.0
          (λ p w e s t.
            subst
              (λ m. Succeeds (2 * count_pairs ps) p (encode_pairs mp m ps) (build_pairs mp h ps p))
              t (build_pairs-Succeeds ps d p w f.1 (omega arith)))

    build_items-Succeeds :
        (vs : Items) (d : ℕ) (o : Obj)
        → ObjValid o
        → ItemsFit vs d
        → o.stack_size + d ≤ o.stack_alloc
        → Succeeds (count vs) o (encode_items mp o.type vs) (build_items mp h vs o)
    build_items-Succeeds Program.end d o valid f room = record {
      valid = valid;
      bytes' = sym (append-nil (contents o.stream));
      counts = refl;
      same_depth = refl;
      same_alloc = refl;
      same_type = refl;
    }
    build_items-Succeeds (Program.item v vs) d o valid f room =
        then-Succeeds 1 (count vs) (suc (count vs)) o (encode mp o.type v)
          (encode_items mp o.type vs) (build mp h v o) (build_items mp h vs) (omega arith)
          (build-Succeeds v d o valid f.0 room)
          (λ p b.
            subst (λ m. Succeeds (count vs) p (encode_items mp m vs) (build_items mp h vs p))
              b.same_type
              (build_items-Succeeds vs d p b.valid f.1 (omega (arith, b.same_depth, b.same_alloc))))

    build_pairs-Succeeds :
        (ps : Pairs) (d : ℕ) (o : Obj)
        → ObjValid o
        → PairsFit ps d
        → o.stack_size + d ≤ o.stack_alloc
        → Succeeds (2 * count_pairs ps) o (encode_pairs mp o.type ps) (build_pairs mp h ps o)
    build_pairs-Succeeds Program.finish d o valid f room = record {
      valid = valid;
      bytes' = sym (append-nil (contents o.stream));
      counts = refl;
      same_depth = refl;
      same_alloc = refl;
      same_type = refl;
    }
    build_pairs-Succeeds (Program.pair k v ps) d o valid f room =
        then-Succeeds 2 (2 * count_pairs ps) (2 * suc (count_pairs ps)) o
          (encode mp o.type k ++ encode mp o.type v) (encode_pairs mp o.type ps)
          (build mp h k o >>= build mp h v) (build_pairs mp h ps) (omega arith)
          (then-Succeeds 1 1 2 o (encode mp o.type k) (encode mp o.type v) (build mp h k o)
            (build mp h v) refl (build-Succeeds k d o valid f.0 room)
            (λ p b.
              subst (λ m. Succeeds 1 p (encode mp m v) (build mp h v p)) b.same_type
                (build-Succeeds v d p b.valid f.1 (omega (arith, b.same_depth, b.same_alloc)))))
          (λ p b.
            subst
              (λ m. Succeeds (2 * count_pairs ps) p (encode_pairs mp m ps) (build_pairs mp h ps p))
              b.same_type
              (build_pairs-Succeeds ps d p b.valid f.2 (omega (arith, b.same_depth, b.same_alloc))))

  -- With an allocator that never fails and a codec of the documented sizes, the calls of the
  -- builder for a tree of values all succeed when the object is valid, the tree nests no deeper
  -- than the stack has free frames, and each container counts fewer than 2 ^ 32 values. Whatever
  -- the way of packing, the encoding of the tree then stands behind the bytes that stood there,
  -- the innermost open container counts one value more, and the stack is as deep as before.
  pub build-Built :
      (v : Value) (d : ℕ) (o : Obj)
      → ObjValid o
      → Fits v d
      → o.stack_size + d ≤ o.stack_alloc
      → (p : Obj) × (build mp h v o ≡ some p) × Built 1 o (encode mp o.type v) p
  build-Built v d o valid f room = found (build mp h v o) (build-Succeeds v d o valid f room)
    where
      found :
          (m : Option Obj)
          → Succeeds 1 o (encode mp o.type v) m
          → (p : Obj) × (m ≡ some p) × Built 1 o (encode mp o.type v) p
      found none s = absurd s
      found (some p) s = (p, refl, s)
