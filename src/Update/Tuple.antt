-- ===== src/Update/Tuple.antt =====
-- A client of the operations of beer/beer_update.c, and the bytes of each operation.
use bee_c.Base.{
  Bool-cases, inl, inr, ℕ, ◌+◌, ◌^◌, ◌<◌, ◌≡◌, refl, sym, ap, ◌∙◌, subst, Bool, true, Option, none,
  some,
}
use bee_c.Base.{
  List, [], ◌∷◌, ◌++◌, append-nil, append_assoc, length, concat, if◌then◌else◌, not, arith,
}
use bee_c.Msgpuck.{Msgpuck, ℤ, mp_array}
use bee_c.Buf.{Heap, Ret, ok, failure, fault}
use bee_c.Buf.Append.{contents}
use bee_c.Buf.Vector.{buf_writev-Appended}
use bee_c.Object.{Obj, sparse, write_parts, open_header}
use bee_c.Object.Frames.{frames}
use bee_c.Object.Values.{ObjValid}
use bee_c.Object.Program.{checked, ◌>>=◌}
use bee_c.Request.{object_verify}
use bee_c.Update.{
  update_op, update_op_len, update_bit, update_arith_int, update_arith_float, update_arith_double,
  update_delete, update_insert, update_assign, update_splice, splice_data, allocated, colon,
}
use bee_c.Update.{
  update_container_reset, update_container_close, is_bit, is_arith, hash, bang, equals,
  encode_number,
}

-- One call for each operation.
pub data Change : Type 0 where
  bit : ℕ → ℕ → ℕ → Change
  arith_int : ℕ → ℕ → ℤ → Change
  arith_float : ℕ → ℕ → ℕ → Change
  arith_double : ℕ → ℕ → ℕ → Change
  delete : ℕ → ℕ → Change
  insert : ℕ → List ℕ → Change
  assign : ℕ → List ℕ → Change
  splice : ℕ → ℕ → ℕ → List ℕ → Change

module _ (mp : Msgpuck) where
  -- An operation as the protocol has it, with the count of its parts.
  abbrev pub operation : ℕ → ℕ → ℕ → List ℕ → List ℕ
  operation n op fieldno value =
      (mp.encode_array n ++ (mp.encode_strl 1 ++ (op ∷ [])) ++ mp.encode_uint fieldno) ++ value

  abbrev pub bytes_of_change : Change → List ℕ
  bytes_of_change (bit fieldno op value) = operation 3 op fieldno (mp.encode_uint value)
  bytes_of_change (arith_int fieldno op value) = operation 3 op fieldno (encode_number mp value)
  bytes_of_change (arith_float fieldno op value) = operation 3 op fieldno (mp.encode_float value)
  bytes_of_change (arith_double fieldno op value) = operation 3 op fieldno (mp.encode_double value)
  bytes_of_change (delete fieldno count) = operation 3 hash fieldno (mp.encode_uint count)
  bytes_of_change (insert fieldno val) = operation 3 bang fieldno val
  bytes_of_change (assign fieldno val) = operation 3 equals fieldno val
  bytes_of_change (splice fieldno position offset buffer) =
      operation 5 colon fieldno (splice_data mp position offset buffer)

  abbrev pub all_bytes : List Change → List ℕ
  all_bytes [] = []
  all_bytes (c ∷ cs) = bytes_of_change c ++ all_bytes cs

  -- A known operator, or one whole value.
  abbrev pub is_proper : Change → Bool
  is_proper (bit fieldno op value) = is_bit op
  is_proper (arith_int fieldno op value) = is_arith op
  is_proper (arith_float fieldno op value) = is_arith op
  is_proper (arith_double fieldno op value) = is_arith op
  is_proper (delete fieldno count) = true
  is_proper (insert fieldno val) = object_verify mp val none
  is_proper (assign fieldno val) = object_verify mp val none
  is_proper (splice fieldno position offset buffer) = true

  abbrev pub AllProper : List Change → Type 0
  AllProper [] = Unit {0}
  AllProper (c ∷ cs) = (is_proper c ≡ true) × AllProper cs

  module _ (h : Heap) where
    abbrev pub change : Change → Obj → Ret × Obj
    change (bit fieldno op value) o = update_bit mp h o fieldno op value
    change (arith_int fieldno op value) o = update_arith_int mp h o fieldno op value
    change (arith_float fieldno op value) o = update_arith_float mp h o fieldno op value
    change (arith_double fieldno op value) o = update_arith_double mp h o fieldno op value
    change (delete fieldno count) o = update_delete mp h o fieldno count
    change (insert fieldno val) o = update_insert mp h o fieldno val
    change (assign fieldno val) o = update_assign mp h o fieldno val
    change (splice fieldno position offset buffer) o =
        update_splice mp h o fieldno position offset buffer

    -- The calls in order, up to one that fails.
    unfoldable pub changes : List Change → Obj → Option Obj
    unfolding update_bit update_arith_int update_arith_float update_arith_double update_delete
        update_insert update_assign update_splice
    changes [] o = some o
    changes (c ∷ cs) o = checked (change c o) >>= changes cs

    -- The container is set up anew, filled and closed.
    unfoldable pub update_tuple : List Change → Obj → Option Obj
    unfolding update_container_reset changes update_container_close
    update_tuple cs o = checked (update_container_reset mp h o) >>= changes cs >>= λ p.
        checked (update_container_close mp h p)

-- A container with k operations in it, whose bytes are `bytes`.
pub record Filled (mp : Msgpuck) (k : ℕ) (bytes : List ℕ) (o : Obj) : Type 0 where
  pub valid : ObjValid o
  pub one_open : frames o ≡ record { offset = 0; size = 0; type = mp_array } ∷ []
  pub bytes' : contents o.stream ≡ open_header mp sparse mp_array 0 ++ bytes
  pub writes : o.stream.wrcnt ≡ k + 1
  pub mode : o.type ≡ sparse

module _ (mp : Msgpuck) (h : Heap) (willing : (k n : ℕ) → h.grants k n ≡ true) where
  -- Writing one operation.
  update_op-Filled :
      (k n : ℕ) (bytes : List ℕ) (o : Obj) (op fieldno : ℕ) (value : List ℕ)
      → Filled mp k bytes o
      → k + 2 < 2 ^ 32
      → update_op_len op ≡ n
      → ((update_op mp h o op fieldno value).0 ≡ ok (length (operation mp n op fieldno value)))
        × Filled mp
            (k + 1)
            (bytes ++ operation mp n op fieldno value)
            (update_op mp h o op fieldno value).1
  unfolding update_op write_parts
  update_op-Filled k n bytes o op fieldno value f few e =
      let head = mp.encode_array n ++ (mp.encode_strl 1 ++ (op ∷ [])) ++ mp.encode_uint fieldno in
      let (r, a) = buf_writev-Appended h willing o.stream (head ∷ value ∷ []) f.valid.stream in
      let one : concat (head ∷ value ∷ []) ≡ operation mp n op fieldno value =
        ap (λ x. head ++ x) (append-nil value) in
      rw e (
        r ∙ ap (λ b. ok (length b)) one,
        record {
          valid = record {
            stream = a.valid;
            stack = record {
              room = f.valid.stack.room;
              within = f.valid.stack.within;
              small = f.valid.stack.small;
            };
          };
          one_open = f.one_open;
          bytes' =
              a.bytes
              ∙ ap (λ x. x ++ concat (head ∷ value ∷ [])) f.bytes'
              ∙ append_assoc _ bytes _
              ∙ ap (λ x. open_header mp sparse mp_array 0 ++ (bytes ++ x)) one;
          writes = omega (arith, a.count, f.writes);
          mode = f.mode;
        },
      )

  arith_len : (op : ℕ) → is_arith op ≡ true → update_op_len op ≡ 3
  unfolding update_op_len
  arith_len op e = rw e refl

  bit_len : (op : ℕ) → is_bit op ≡ true → update_op_len op ≡ 3
  unfolding update_op_len
  bit_len op e = elim (Bool-cases (is_arith op)) [ inl y ↦ rw y refl | inr n ↦ rw (n, e) refl ]

  const_len : (update_op_len hash ≡ 3) × (update_op_len bang ≡ 3) × (update_op_len equals ≡ 3)
  unfolding update_op_len
  const_len = (refl, refl, refl)

  splice_len : update_op_len colon ≡ 5
  unfolding update_op_len
  splice_len = refl

  -- A call of the allocator leaves the container alone.
  allocated-Filled :
      (k : ℕ) (bytes : List ℕ) (o : Obj) → Filled mp k bytes o → Filled mp k bytes (allocated o)
  allocated-Filled k bytes o f = record {
    valid = record {
      stream = record {
        owned = f.valid.stream.owned;
        alive = f.valid.stream.alive;
        room = f.valid.stream.room;
        within = f.valid.stream.within;
        exact = f.valid.stream.exact;
      };
      stack = record {
        room = f.valid.stack.room;
        within = f.valid.stack.within;
        small = f.valid.stack.small;
      };
    };
    one_open = f.one_open;
    bytes' = f.bytes';
    writes = f.writes;
    mode = f.mode;
  }

  -- What a call that adds the operation `new` leaves.
  abbrev Adds : ℕ → List ℕ → List ℕ → Ret × Obj → Type 0
  Adds k bytes new x = (x.0 ≡ ok (length new)) × Filled mp (k + 1) (bytes ++ new) x.1

  guarded-Adds :
      (b : Bool) (k : ℕ) (bytes new : List ℕ) (o : Obj) (x : Ret × Obj)
      → b ≡ true
      → Adds k bytes new x
      → Adds k bytes new (if not b then (failure, o) else x)
  guarded-Adds b k bytes new o x e a = rw e a

  -- One proper call of the client.
  change-Adds :
      (c : Change) (k : ℕ) (bytes : List ℕ) (o : Obj)
      → is_proper mp c ≡ true
      → Filled mp k bytes o
      → k + 2 < 2 ^ 32
      → Adds k bytes (bytes_of_change mp c) (change mp h c o)
  unfolding update_bit update_arith_int update_arith_float update_arith_double update_delete
      update_insert update_assign update_splice
  change-Adds (bit fieldno op value) k bytes o p f few =
      guarded-Adds (is_bit op) k bytes (operation mp 3 op fieldno (mp.encode_uint value)) o
        (update_op mp h o op fieldno (mp.encode_uint value)) p
        (update_op-Filled k 3 bytes o op fieldno (mp.encode_uint value) f few (bit_len op p))
  change-Adds (arith_int fieldno op value) k bytes o p f few =
      guarded-Adds (is_arith op) k bytes (operation mp 3 op fieldno (encode_number mp value)) o
        (update_op mp h o op fieldno (encode_number mp value)) p
        (update_op-Filled k 3 bytes o op fieldno (encode_number mp value) f few (arith_len op p))
  change-Adds (arith_float fieldno op value) k bytes o p f few =
      guarded-Adds (is_arith op) k bytes (operation mp 3 op fieldno (mp.encode_float value)) o
        (update_op mp h o op fieldno (mp.encode_float value)) p
        (update_op-Filled k 3 bytes o op fieldno (mp.encode_float value) f few (arith_len op p))
  change-Adds (arith_double fieldno op value) k bytes o p f few =
      guarded-Adds (is_arith op) k bytes (operation mp 3 op fieldno (mp.encode_double value)) o
        (update_op mp h o op fieldno (mp.encode_double value)) p
        (update_op-Filled k 3 bytes o op fieldno (mp.encode_double value) f few (arith_len op p))
  change-Adds (insert fieldno val) k bytes o p f few =
      guarded-Adds (object_verify mp val none) k bytes (operation mp 3 bang fieldno val) o
        (update_op mp h o bang fieldno val) p
        (update_op-Filled k 3 bytes o bang fieldno val f few (const_len.1))
  change-Adds (assign fieldno val) k bytes o p f few =
      guarded-Adds (object_verify mp val none) k bytes (operation mp 3 equals fieldno val) o
        (update_op mp h o equals fieldno val) p
        (update_op-Filled k 3 bytes o equals fieldno val f few (const_len.2))
  change-Adds (delete fieldno count) k bytes o p f few =
      update_op-Filled k 3 bytes o hash fieldno (mp.encode_uint count) f few const_len.0
  change-Adds (splice fieldno position offset buffer) k bytes o p f few =
      let size = mp.sizeof_uint position + mp.sizeof_uint offset + mp.sizeof_str (length buffer) in
      rw (willing o.stream.allocs size) (
        update_op-Filled k 5 bytes (allocated o) colon fieldno
          (splice_data mp position offset buffer) (allocated-Filled k bytes o f) few splice_len)

  pub checked-Fills :
      (k : ℕ) (bytes : List ℕ) (n : ℕ) (x : Ret × Obj)
      → x.0 ≡ ok n
      → Filled mp k bytes x.1
      → (o : Obj) × (checked x ≡ some o) × Filled mp k bytes o
  checked-Fills k bytes n (ok m, o) e f = (o, refl, f)
  checked-Fills k bytes n (failure, o) e f = absurd (cc e)
  checked-Fills k bytes n (fault, o) e f = absurd (cc e)

  pub changes-Fills :
      (cs : List Change) (k n : ℕ) (bytes : List ℕ) (o : Obj)
      → AllProper mp cs
      → Filled mp k bytes o
      → n ≡ k + length cs
      → n + 1 < 2 ^ 32
      → (p : Obj) × (changes mp h cs o ≡ some p) × Filled mp n (bytes ++ all_bytes mp cs) p
  unfolding changes
  changes-Fills [] k n bytes o proper f e few = (
    o,
    refl,
    subst (λ b. Filled mp n b o) (sym (append-nil bytes))
        (subst (λ j. Filled mp j bytes o) (let m : k ≡ n = omega arith in m) f),
  )
  changes-Fills (c ∷ cs) k n bytes o (proper, later) f e few =
      let (r, g) = change-Adds c k bytes o proper f (omega arith) in
      let (q, done, g') = checked-Fills (k + 1) _ _ (change mp h c o) r g in
      let (p, rest, g'') = changes-Fills cs (k + 1) n _ q later g' (omega arith) few in
      (
        p,
        simp (done) rest,
        subst (λ b. Filled mp n b p) (append_assoc bytes (bytes_of_change mp c) (all_bytes mp cs))
            g'',
      )
