-- ===== src/Object/Values.antt =====
-- The functions of beer/beer_object.c that add a scalar value, over contents and frames.
use bee_c.Base.{ℕ, ◌≡◌, sym, ap, subst, true, List, [], ◌∷◌, ◌++◌, append-nil, length, concat}
use bee_c.Base.{Bool}
use bee_c.Msgpuck.{Msgpuck, ℤ, pos, negsuc}
use bee_c.Buf.{Stream, Heap, Ret, ok, buf_write, buf_writev}
use bee_c.Buf.Append.{IsValid, Appended, contents, buf_write-Appended}
use bee_c.Buf.Vector.{buf_writev-Appended}
use bee_c.Object.{Obj, count_value, write_bytes, write_parts, add_nil, add_uint, add_int}
use bee_c.Object.{add_str, add_bin, add_bool, add_float, add_double}
use bee_c.Object.Frames.{frames, StackValid, count_last, frames-count_value, count_value-StackValid}
use bee_c.Object.Frames.{count_value-SameBut}

pub record ObjValid (o : Obj) : Type 0 where
  pub stream : IsValid o.stream
  pub stack : StackValid o

-- What adding a value whose encoding is `bytes` does.
pub record Added (o : Obj) (bytes : List ℕ) (x : Ret × Obj) : Type 0 where
  pub result : x.0 ≡ ok (length bytes)
  pub valid : ObjValid x.1
  pub bytes' : contents x.1.stream ≡ contents o.stream ++ bytes
  pub counted' : frames x.1 ≡ count_last (frames o)
  pub same_depth : x.1.stack_size ≡ o.stack_size
  pub same_alloc : x.1.stack_alloc ≡ o.stack_alloc
  pub same_type : x.1.type ≡ o.type
  pub same_resize : x.1.stream.resize ≡ o.stream.resize

-- The stack part alone was changed by a write.
put_stream :
    (o : Obj) (bytes : List ℕ) (r : Ret) (s : Stream)
    → ObjValid o
    → r ≡ ok (length bytes)
    → Appended o.stream s bytes
    → Added o bytes (r, record (count_value o) { stream = s })
put_stream o bytes r s v e a =
    let same = count_value-SameBut o in
    let stack = count_value-StackValid o v.stack in
    record {
      result = e;
      valid = record {
        stream = a.valid;
        stack = record { room = stack.room; within = stack.within; small = stack.small };
      };
      bytes' = a.bytes;
      counted' = frames-count_value o v.stack;
      same_depth = same.stack_size;
      same_alloc = same.stack_alloc;
      same_type = same.type;
      same_resize = a.same_resize;
    }

-- A number that is not negative is encoded as `beer_object_add_uint` does.
abbrev pub encode_signed : Msgpuck → ℤ → List ℕ
encode_signed mp (pos n) = mp.encode_uint n
encode_signed mp (negsuc n) = mp.encode_int (negsuc n)

module _ (mp : Msgpuck) (h : Heap) (willing : (k n : ℕ) → h.grants k n ≡ true) where
  pub write_bytes-Added :
      (o : Obj) (bytes : List ℕ) → ObjValid o → Added o bytes (write_bytes h (count_value o) bytes)
  unfolding write_bytes
  write_bytes-Added o bytes v =
      subst
        (λ s.
          Added o bytes
            ((buf_write h s bytes).0, record (count_value o) { stream = (buf_write h s bytes).1 }))
        (sym (count_value-SameBut o).stream)
        (let (r, a) = buf_write-Appended h willing o.stream bytes v.stream in
          put_stream o bytes (buf_write h o.stream bytes).0 (buf_write h o.stream bytes).1 v r a)

  pub write_parts-Added :
      (o : Obj) (iov : List (List ℕ))
      → ObjValid o
      → Added o (concat iov) (write_parts h (count_value o) iov)
  unfolding write_parts
  write_parts-Added o iov v =
      subst
        (λ s.
          Added o (concat iov)
            ((buf_writev h s iov).0, record (count_value o) { stream = (buf_writev h s iov).1 }))
        (sym (count_value-SameBut o).stream)
        (let (r, a) = buf_writev-Appended h willing o.stream iov v.stream in
          put_stream o (concat iov) (buf_writev h o.stream iov).0 (buf_writev h o.stream iov).1 v r
            a)

  two_parts : (head body : List ℕ) → concat (head ∷ body ∷ []) ≡ head ++ body
  two_parts head body = ap (λ x. head ++ x) (append-nil body)

  pub add_nil-Added : (o : Obj) → ObjValid o → Added o mp.encode_nil (add_nil mp h o)
  unfolding add_nil
  add_nil-Added o v = write_bytes-Added o mp.encode_nil v

  pub add_uint-Added :
      (o : Obj) (n : ℕ) → ObjValid o → Added o (mp.encode_uint n) (add_uint mp h o n)
  unfolding add_uint
  add_uint-Added o n v = write_bytes-Added o (mp.encode_uint n) v

  pub add_int-Added :
      (o : Obj) (z : ℤ) → ObjValid o → Added o (encode_signed mp z) (add_int mp h o z)
  unfolding add_int
  add_int-Added o (pos n) v = write_bytes-Added o (mp.encode_uint n) v
  add_int-Added o (negsuc n) v = write_bytes-Added o (mp.encode_int (negsuc n)) v

  pub add_str-Added :
      (o : Obj) (str : List ℕ)
      → ObjValid o
      → Added o (mp.encode_strl (length str) ++ str) (add_str mp h o str)
  unfolding add_str
  add_str-Added o str v =
      subst (λ b. Added o b (add_str mp h o str)) (two_parts (mp.encode_strl (length str)) str)
        (write_parts-Added o (mp.encode_strl (length str) ∷ str ∷ []) v)

  pub add_bin-Added :
      (o : Obj) (bin : List ℕ)
      → ObjValid o
      → Added o (mp.encode_binl (length bin) ++ bin) (add_bin mp h o bin)
  unfolding add_bin
  add_bin-Added o bin v =
      subst (λ b. Added o b (add_bin mp h o bin)) (two_parts (mp.encode_binl (length bin)) bin)
        (write_parts-Added o (mp.encode_binl (length bin) ∷ bin ∷ []) v)

  pub add_bool-Added :
      (o : Obj) (b : Bool) → ObjValid o → Added o (mp.encode_bool b) (add_bool mp h o b)
  unfolding add_bool
  add_bool-Added o b v = write_bytes-Added o (mp.encode_bool b) v

  pub add_float-Added :
      (o : Obj) (x : ℕ) → ObjValid o → Added o (mp.encode_float x) (add_float mp h o x)
  unfolding add_float
  add_float-Added o x v = write_bytes-Added o (mp.encode_float x) v

  pub add_double-Added :
      (o : Obj) (x : ℕ) → ObjValid o → Added o (mp.encode_double x) (add_double mp h o x)
  unfolding add_double
  add_double-Added o x v = write_bytes-Added o (mp.encode_double x) v
