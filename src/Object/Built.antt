-- ===== src/Object/Built.antt =====
-- What a sequence of calls of the builder leaves, and how such sequences compose.
use bee_c.Base.{ℕ, zero, suc, ◌+◌, ◌^◌, ◌<◌, ◌≡◌, ap, ◌∙◌}
use bee_c.Base.{Option, none, some, List, [], ◌∷◌, ◌++◌, append_assoc, arith}
use bee_c.Buf.{Ret, ok, failure, fault}
use bee_c.Buf.Append.{contents}
use bee_c.Object.{Obj, Frame}
use bee_c.Object.Frames.{frames, count_last, count_last-append, counted}
use bee_c.Object.Values.{ObjValid, Added}
use bee_c.Object.Program.{checked, ◌>>=◌}

-- `k` values more in the innermost container.
abbrev pub count_by : ℕ → List Frame → List Frame
count_by zero fs = fs
count_by (suc k) fs = count_by k (count_last fs)

count_by-sum :
    (j k n : ℕ) (fs : List Frame) → n ≡ j + k → count_by k (count_by j fs) ≡ count_by n fs
count_by-sum zero k n fs e = let m : k ≡ n = omega arith in ap (λ i. count_by i fs) m
count_by-sum (suc j) k zero fs e = absurd (omega arith)
count_by-sum (suc j) k (suc n) fs e = count_by-sum j k n (count_last fs) (omega arith)

-- Counting in a frame that is there.
pub count_by-append :
    (k n : ℕ) (fs : List Frame) (f : Frame)
    → f.size + k ≡ n
    → n < 2 ^ 32
    → count_by k (fs ++ (f ∷ [])) ≡ fs ++ (record f { size = n } ∷ [])
count_by-append zero n fs f e h =
    let m : f.size ≡ n = omega arith in ap (λ s. fs ++ (record f { size = s } ∷ [])) m
count_by-append (suc k) n fs f e h =
    ap (count_by k) (count_last-append fs f) ∙ count_by-append k n fs (counted f) (ground arith) h

-- `p` is `o` with `bytes` behind its contents, and with k values more in its innermost container.
pub record Built (k : ℕ) (o : Obj) (bytes : List ℕ) (p : Obj) : Type 0 where
  pub valid : ObjValid p
  pub bytes' : contents p.stream ≡ contents o.stream ++ bytes
  pub counts : frames p ≡ count_by k (frames o)
  pub same_depth : p.stack_size ≡ o.stack_size
  pub same_alloc : p.stack_alloc ≡ o.stack_alloc
  pub same_type : p.type ≡ o.type

-- The calls did not fail, and they left such an object.
abbrev pub Succeeds : ℕ → Obj → List ℕ → Option Obj → Type 0
Succeeds k o bytes none = ⊥
Succeeds k o bytes (some p) = Built k o bytes p

pub checked-Succeeds :
    (o : Obj) (bytes : List ℕ) (x : Ret × Obj) → Added o bytes x → Succeeds 1 o bytes (checked x)
checked-Succeeds o bytes (ok n, p) a = record {
  valid = a.valid;
  bytes' = a.bytes';
  counts = a.counted';
  same_depth = a.same_depth;
  same_alloc = a.same_alloc;
  same_type = a.same_type;
}
checked-Succeeds o bytes (failure, p) a = absurd (cc (a.result))
checked-Succeeds o bytes (fault, p) a = absurd (cc (a.result))

-- One sequence of calls behind another.
pub then-Succeeds :
    (j k n : ℕ) (o : Obj) (a b : List ℕ) (m : Option Obj) (f : Obj → Option Obj)
    → n ≡ j + k
    → Succeeds j o a m
    → ((p : Obj) → Built j o a p → Succeeds k p b (f p))
    → Succeeds n o (a ++ b) (m >>= f)
then-Succeeds j k n o a b none f e s g = s
then-Succeeds j k n o a b (some p) f e s g = further (f p) (g p s)
  where
    further : (x : Option Obj) → Succeeds k p b x → Succeeds n o (a ++ b) x
    further none t = t
    further (some q) t = record {
      valid = t.valid;
      bytes' = t.bytes' ∙ ap (λ x. x ++ b) s.bytes' ∙ append_assoc (contents o.stream) a b;
      counts = t.counts ∙ ap (count_by k) s.counts ∙ count_by-sum j k n (frames o) e;
      same_depth = t.same_depth ∙ s.same_depth;
      same_alloc = t.same_alloc ∙ s.same_alloc;
      same_type = t.same_type ∙ s.same_type;
    }
