-- ===== src/Tp/Runs.antt =====
-- Whole programs of calls of include/tp.h over a buffer that can grow.
use bee_c.Base.{
  ℕ, ◌+◌, ◌-◌, ◌^◌, ◌≡◌, refl, sym, subst, Bool, Bool-cases, inl, inr, true, false, Option, none,
  some, List, [], ◌∷◌, length, arith, leb, ltb, if◌then◌else◌,
}
use bee_c.Msgpuck.{Msgpuck, Measured}
use bee_c.Request.{code_of}
use bee_c.Tp.{
  Tp, Out, Reserve, done, null, fault, tp_ensure, tp_unused, tp_init, tp_add, five, store, started,
  begin_request, extended, extend, int_size, sizeof_header, tpi_encode_header,
}
use bee_c.Tp.{tp_encode_str, tp_encode_sz, tp_encode_array, tpi_encode_store, tp_reqid}
use bee_c.Tp.Draft.{Draft, Honest, Represents, Stepped}
use bee_c.Tp.Commands.{
  Beginning, Addition, Command, begins, adds, sets_id, begin_call, add_call, call_of, op_of,
  body_of, after, Fits,
}
use bee_c.Tp.Program.{begin_call-Stepped, call_of-Stepped}

-- A reserve function that always finds memory.
abbrev pub Willing : Option Reserve → Type 0
Willing none = ⊥
Willing (some f) = (buf : List ℕ) (pos n : ℕ) → (new : List ℕ) × (f buf pos n ≡ some new)

abbrev NotNull : Out → Type 0
NotNull (null p) = ⊥
NotNull _ = Unit {0}

or_fault-NotNull {ℓ} :
    {A : Type ℓ} (x : Option A) (f : A → Out)
    → ((a : A) → NotNull (f a))
    → NotNull (elim x [ none ↦ fault | some a ↦ f a ])
or_fault-NotNull none f h = tt
or_fault-NotNull (some a) f h = h a

if-NotNull : (b : Bool) (o : ℕ) (p : Tp) → NotNull (if b then fault else done o p)
if-NotNull true o p = tt
if-NotNull false o p = tt

module _ (mp : Msgpuck) where
  tp_add-NotNull : (p : Tp) (n : ℕ) → NotNull (tp_add mp p n)
  unfolding tp_add
  tp_add-NotNull p n =
      or_fault-NotNull p.size
        (λ field. elim (store p field (five mp (p.pos + n + 2 ^ 32 - (field + 5)))) [
          | none ↦ fault
          | some q ↦
              if ltb (length p.buf) (p.pos + n)
              then fault
              else done p.pos (record q { pos = p.pos + n })
        ])
        (λ field.
          or_fault-NotNull (store p field (five mp (p.pos + n + 2 ^ 32 - (field + 5))))
            (λ q.
              if ltb (length p.buf) (p.pos + n)
              then fault
              else done p.pos (record q { pos = p.pos + n }))
            (λ q. if-NotNull (ltb (length p.buf) (p.pos + n)) p.pos (record q { pos = p.pos + n })))

  extended-NotNull :
      (total k : ℕ) (bs : List ℕ) (p : Tp) → NotNull (extended mp total bs (some k, p))
  unfolding extended
  extended-NotNull total k bs p =
      or_fault-NotNull (store p p.pos bs) (λ q. tp_add mp q total) (λ q. tp_add-NotNull q total)

  started-NotNull :
      (code total k : ℕ) (bs : List ℕ) (p : Tp) → NotNull (started mp code total bs (some k, p))
  unfolding started
  started-NotNull code total k bs p =
      or_fault-NotNull (tpi_encode_header mp p code)
        (λ (x : ℕ × Tp). elim (store x.1 x.0 bs) [ none ↦ fault | some r ↦ tp_add mp r total ])
        (λ (x : ℕ × Tp).
          or_fault-NotNull (store x.1 x.0 bs) (λ r. tp_add mp r total)
            (λ r. tp_add-NotNull r total))

  -- `tp_ensure` of a willing reserve function.
  ensured_by :
      (p : Tp) (n : ℕ) (r : Option Reserve)
      → p.reserve ≡ r
      → Willing r
      → (k : ℕ) × (q : Tp) × (tp_ensure p n ≡ (some k, q))
  unfolding tp_ensure
  ensured_by p n none e w = absurd w
  ensured_by p n (some f) e w = elim (Bool-cases (leb n (tp_unused p))) [
    | inl y ↦ (0, p, simp (tp_ensure, y) refl)
    | inr short ↦
        let (new, g) = w p.buf p.pos n in
        (length new, record p { buf = new }, simp (tp_ensure, short, e, g) refl)
  ]

  extend-NotNull : (p : Tp) (sz : ℕ) (bs : List ℕ) → Willing p.reserve → NotNull (extend mp p sz bs)
  unfolding extend
  extend-NotNull p sz bs w =
      let (k, q, e) = ensured_by p (int_size sz) p.reserve refl w in
      subst (λ x. NotNull (extended mp (int_size sz) bs x)) (sym e)
        (extended-NotNull (int_size sz) k bs q)

  begin_request-NotNull :
      (p : Tp) (code sz : ℕ) (bs : List ℕ)
      → Willing p.reserve
      → NotNull (begin_request mp p code sz bs)
  unfolding begin_request
  begin_request-NotNull p code sz bs w =
      let total = int_size (sz + sizeof_header mp code) in
      let (k, q, e) = ensured_by p total p.reserve refl w in
      subst (λ x. NotNull (started mp code total bs x)) (sym e) (started-NotNull code total k bs q)

  begin_call-NotNull : (p : Tp) (b : Beginning) → Willing p.reserve → NotNull (begin_call mp p b)
  unfolding begin_call tpi_encode_store
  begin_call-NotNull p Beginning.ping w = begin_request-NotNull p _ _ _ w
  begin_call-NotNull p (Beginning.select _ _ _ _ _) w = begin_request-NotNull p _ _ _ w
  begin_call-NotNull p (Beginning.insert _) w = begin_request-NotNull p _ _ _ w
  begin_call-NotNull p (Beginning.replace _) w = begin_request-NotNull p _ _ _ w
  begin_call-NotNull p (Beginning.update _) w = begin_request-NotNull p _ _ _ w
  begin_call-NotNull p (Beginning.call _) w = begin_request-NotNull p _ _ _ w
  begin_call-NotNull p (Beginning.eval _) w = begin_request-NotNull p _ _ _ w

  add_call-NotNull : (p : Tp) (a : Addition) → Willing p.reserve → NotNull (add_call mp p a)
  unfolding add_call tp_encode_str tp_encode_sz tp_encode_array
  add_call-NotNull p Addition.nil w = extend-NotNull p _ _ w
  add_call-NotNull p (Addition.uint n) w = extend-NotNull p _ _ w
  add_call-NotNull p (Addition.array n) w = extend-NotNull p _ _ w
  add_call-NotNull p (Addition.map n) w = extend-NotNull p _ _ w
  add_call-NotNull p (Addition.float x) w = extend-NotNull p _ _ w
  add_call-NotNull p (Addition.double x) w = extend-NotNull p _ _ w
  add_call-NotNull p (Addition.updatebegin n) w = extend-NotNull p _ _ w
  add_call-NotNull p (Addition.tuple n) w = extend-NotNull p _ _ w
  add_call-NotNull p (Addition.key n) w = extend-NotNull p _ _ w
  add_call-NotNull p (Addition.int z) w = extend-NotNull p _ _ w
  add_call-NotNull p (Addition.str s) w = extend-NotNull p _ _ w
  add_call-NotNull p (Addition.sz s) w = extend-NotNull p _ _ w
  add_call-NotNull p (Addition.bin s) w = extend-NotNull p _ _ w
  add_call-NotNull p (Addition.bool b) w = extend-NotNull p _ _ w
  add_call-NotNull p (Addition.op c field) w = extend-NotNull p _ _ w
  add_call-NotNull p (Addition.splice field offset cut paste) w = extend-NotNull p _ _ w

  call_of-NotNull : (p : Tp) (c : Command) → Willing p.reserve → NotNull (call_of mp p c)
  unfolding call_of
  call_of-NotNull p (begins b) w = begin_call-NotNull p b w
  call_of-NotNull p (adds a) w = add_call-NotNull p a w
  call_of-NotNull p (sets_id n) w = or_fault-NotNull (tp_reqid mp p n) (λ q. done p.pos q) (λ q. tt)

  -- The calls, until one gives no pointer.
  unfoldable pub run : Tp → List Command → Option Tp
  unfolding call_of
  run p [] = some p
  run p (c ∷ cs) = elim (call_of mp p c) [ done o q ↦ run q cs | null q ↦ none | fault ↦ none ]

  abbrev pub after_all : Draft → List Command → Draft
  after_all d [] = d
  after_all d (c ∷ cs) = after_all (after mp d c) cs

  abbrev pub AllFit : List Command → Type 0
  AllFit [] = Unit {0}
  AllFit (c ∷ cs) = Fits mp c × AllFit cs

  -- What a step is, where it cannot be NULL.
  abbrev Reached : Tp → Draft → Out → Type 0
  Reached p d x = (o : ℕ) × (q : Tp) × (x ≡ done o q) × Represents mp q d × (q.reserve ≡ p.reserve)

  reached : (p : Tp) (d : Draft) (x : Out) → Stepped mp p d x → NotNull x → Reached p d x
  reached p d (done o q) (v, e, r) n = (o, q, refl, v, r)
  reached p d (null q) s n = absurd n
  reached p d fault s n = absurd s

module _ (mp : Msgpuck) (ms : Measured mp) where
  run-Represents :
      (p : Tp) (d : Draft) (cs : List Command)
      → Represents mp p d
      → Honest p.reserve
      → Willing p.reserve
      → AllFit mp cs
      → (q : Tp) × (run mp p cs ≡ some q) × Represents mp q (after_all mp d cs)
  unfolding run
  run-Represents p d [] v h w f = (p, refl, v)
  run-Represents p d (c ∷ cs) v h w (f, fs) =
      let (o, q, e, v', r) =
        reached mp p (after mp d c) (call_of mp p c) (call_of-Stepped mp ms p d c v h f)
          (call_of-NotNull mp p c w) in
      let (last, e', v'') =
        run-Represents q (after mp d c) cs v' (subst Honest (sym r) h) (subst Willing (sym r) w)
          fs in
      (last, simp (run, e) e', v'')

  -- Over any buffer, also none at all, and a reserve function that always finds the memory wanted
  -- and keeps what was written, a program of calls that begins with a request (calls that begin a
  -- ping, select, insert, replace, call, eval or update, add a value, a tuple, a key or an update
  -- operation, or set the id, each of fewer than 2 ^ 31 bytes, where a splice has numbers of the
  -- size of its field number) runs to its end, and the buffer then holds all its requests in
  -- order, each behind its own length, and the last with the body that was added so far.
  pub run-init-Represents :
      (buf : List ℕ) (f : Reserve) (b : Beginning) (cs : List Command)
      → Honest (some f)
      → Willing (some f)
      → AllFit mp (begins b ∷ cs)
      → (q : Tp) × (run mp (tp_init buf (some f)) (begins b ∷ cs) ≡ some q)
        × Represents mp q (
            after_all mp
              (record { before = []; code = code_of (op_of mp b); id = 0; body = body_of mp b })
              cs)
  unfolding run call_of tp_init
  run-init-Represents buf f b cs h w (fits, fs) =
      let p = tp_init buf (some f) in
      let d : Draft = record {
        before = [];
        code = code_of (op_of mp b);
        id = 0;
        body = body_of mp b;
      } in
      let (o, q, e, v, r) =
        reached mp p d (begin_call mp p b) (begin_call-Stepped mp ms p b (omega arith) h fits)
          (begin_call-NotNull mp p b w) in
      let (last, e', v') =
        run-Represents q d cs v (subst Honest (sym r) h) (subst Willing (sym r) w) fs in
      (last, simp (run, call_of, e) e', v')
