-- ===== src/Object/Nested.antt =====
-- A container with its values: the calls that open it, fill it and close it.
use bee_c.Base.{ℕ, suc, ◌^◌, ◌<◌, ◌≡◌, sym, ap, ◌∙◌, subst, true}
use bee_c.Base.{Option, none, some, List, [], ◌∷◌, ◌++◌, append_assoc, length, length-take, arith}
use bee_c.Msgpuck.{Msgpuck, Sizes, MpType}
use bee_c.Buf.{Heap, Ret, ok, failure, fault, bytes_of}
use bee_c.Buf.Append.{contents}
use bee_c.Object.{Obj, add_container, container_close, open_header}
use bee_c.Object.Frames.{frames, count_last}
use bee_c.Object.Values.{ObjValid}
use bee_c.Object.Headers.{header, raw_count}
use bee_c.Object.Opening.{Opened, add_container-Opened}
use bee_c.Object.Closing.{Closed, container_close-Closed}
use bee_c.Object.Program.{checked, ◌>>=◌}
use bee_c.Object.Built.{Built, Succeeds, count_by, count_by-append}

module _ (mp : Msgpuck) (laws : Sizes mp) (h : Heap)
    (willing : (k n : ℕ) → h.grants k n ≡ true) where
  -- Closing a container whose values are all there.
  close-Succeeds :
      (type : MpType) (n : ℕ) (o p q : Obj) (body : List ℕ) (c : ℕ)
      → ObjValid o
      → c ≡ raw_count type n
      → n < 2 ^ 32
      → c < 2 ^ 32
      → Opened mp type n o (ok (length (open_header mp o.type type n)), p)
      → Built c p body q
      → Succeeds 1 o (header mp o.type type n ++ body) (checked (container_close mp h q))
  close-Succeeds type n o p q body c v ce small few a b = finished (container_close mp h q) (
      container_close-Closed mp laws h willing q (count_last (frames o)) type n (contents o.stream)
        body b.valid stack small bytes)
    where
      offset : o.stream.size ≡ length (contents o.stream)
      offset = omega (
        arith,
        length-take o.stream.size (bytes_of o.stream.data'),
        v.stream.room,
        v.stream.within,
      )

      type_of : o.type ≡ q.type
      type_of = sym (b.same_type ∙ a.same_type)

      stack :
          frames q
          ≡ count_last (frames o)
            ++ (record { offset = length (contents o.stream); size = raw_count type n; type = type }
                ∷ [])
      stack =
          b.counts
          ∙ ap (count_by c) a.open'
          ∙ count_by-append c c (count_last (frames o))
              (record { offset = o.stream.size; size = 0; type = type }) (omega arith) few
          ∙ ap (λ x. count_last (frames o) ++ (record { offset = x; size = c; type = type } ∷ []))
              offset
          ∙ ap
              (λ x.
                count_last (frames o)
                ++ (record { offset = length (contents o.stream); size = x; type = type } ∷ []))
              ce

      bytes : contents q.stream ≡ contents o.stream ++ (open_header mp q.type type n ++ body)
      bytes =
          b.bytes'
          ∙ ap (λ x. x ++ body) a.bytes
          ∙ append_assoc (contents o.stream) (open_header mp o.type type n) body
          ∙ ap (λ t. contents o.stream ++ (open_header mp t type n ++ body)) type_of

      finished :
          (x : Ret × Obj)
          → Closed q
              (count_last (frames o))
              (contents o.stream ++ (header mp q.type type n ++ body))
              x
          → Succeeds 1 o (header mp o.type type n ++ body) (checked x)
      finished (ok k, r) d = record {
        valid = d.valid;
        bytes' =
            d.bytes' ∙ ap (λ t. contents o.stream ++ (header mp t type n ++ body)) (sym type_of);
        counts = d.closed;
        same_depth = omega (arith, d.depth, b.same_depth, a.depth);
        same_alloc = d.same_alloc ∙ b.same_alloc ∙ a.same_alloc;
        same_type = d.same_type ∙ b.same_type ∙ a.same_type;
      }
      finished (failure, r) d = absurd (cc (d.result))
      finished (fault, r) d = absurd (cc (d.result))

  -- A container with its values, which `fill` adds.
  pub container-Succeeds :
      (type : MpType) (n : ℕ) (o : Obj) (body : List ℕ) (c : ℕ) (fill : Obj → Option Obj)
      → ObjValid o
      → o.stack_size < o.stack_alloc
      → c ≡ raw_count type n
      → n < 2 ^ 32
      → c < 2 ^ 32
      → ((p : Obj)
          → ObjValid p
          → p.stack_size ≡ suc o.stack_size
          → p.stack_alloc ≡ o.stack_alloc
          → p.type ≡ o.type
          → Succeeds c p body (fill p))
      → Succeeds 1 o
          (header mp o.type type n ++ body)
          (checked (add_container mp h type o n) >>= fill >>= λ q. checked (container_close mp h q))
  container-Succeeds type n o body c fill v room ce small few g =
      opened (add_container mp h type o n) (add_container-Opened mp h willing type n o v room)
    where
      filled :
          (p : Obj)
          → Opened mp type n o (ok (length (open_header mp o.type type n)), p)
          → (m : Option Obj) → Succeeds c p body m
          → Succeeds 1 o
              (header mp o.type type n ++ body)
              (m >>= λ q. checked (container_close mp h q))
      filled p a none s = s
      filled p a (some q) s = close-Succeeds type n o p q body c v ce small few a s

      opened :
          (x : Ret × Obj)
          → Opened mp type n o x
          → Succeeds 1 o
              (header mp o.type type n ++ body)
              (checked x >>= fill >>= λ q. checked (container_close mp h q))
      opened (ok k, p) a =
          filled p (subst (λ r. Opened mp type n o (r, p)) a.result a) (fill p)
            (g p a.valid a.depth a.same_alloc a.same_type)
      opened (failure, p) a = absurd (cc (a.result))
      opened (fault, p) a = absurd (cc (a.result))
