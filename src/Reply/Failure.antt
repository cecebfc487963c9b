-- ===== src/Reply/Failure.antt =====
-- The roll back of a reply, and the reply that has no body.
use bee_c.Base.{
  ℕ, zero, suc, ◌%◌, ◌^◌, ◌<◌, ◌-◌, ◌+◌, ◌==◌, ◌≡◌, refl, ap, subst, Bool, true, false, not, Option,
  none, some,
}
use bee_c.Base.{List, [], length, if◌then◌else◌, arith}
use bee_c.Msgpuck.{Msgpuck, MpType}
use bee_c.Reply.{
  Reply, Parsing, going, rollback, and_then, reply_init, known, is_type, mark, header_value,
  header_loop, body_value, body_loop, parse, parse_body, Receive, rolled_back, finished, received,
  sized, reply_from,
}
use bee_c.Reply.RoundTrip.{Decodes, payload, fields, header_loop-payload, never}

-- Where the mark of the allocation is still the one that it was, in whatever became of the reply.
abbrev Marked : {A : Type 0} → (A → Reply) → Bool → Parsing A → Type 0
Marked reply a (going x) = (reply x).alloc ≡ a
Marked reply a (rollback r) = r.alloc ≡ a

if-Marked :
    {A : Type 0}
    → (reply : A → Reply) (a b : Bool) (x y : Parsing A) → Marked reply a x
    → Marked reply a y
    → Marked reply a (if b then x else y)
if-Marked reply a true x y h k = h
if-Marked reply a false x y h k = k

and_then-Marked :
    {A : Type 0}
    → {B : Type 0}
    → (reply : A → Reply) (reply' : B → Reply) (a : Bool) (x : Parsing A) (f : A → Parsing B)
    → Marked reply a x
    → ((y : A) → (reply y).alloc ≡ a → Marked reply' a (f y))
    → Marked reply' a (and_then x f)
and_then-Marked reply reply' a (going y) f h k = k y h
and_then-Marked reply reply' a (rollback r) f h k = h

abbrev itself : Reply → Reply
itself r = r

abbrev first : Reply × List ℕ → Reply
first x = x.0

abbrev second : ℕ × Reply → Reply
second x = x.1

module _ (mp : Msgpuck) where
  header_value-Marked :
      (key value : ℕ) (r : Reply) → Marked itself r.alloc (known mp r (header_value key value r))
  unfolding header_value
  header_value-Marked key value r = by_key (key == 0x01) (key == 0x00) (key == 0x05)
    where
      by_key :
          (a b c : Bool)
          → Marked itself r.alloc (
              known mp r (
                if a
                then some (record r { sync = value })
                else if b
                then some (record r { code = value })
                else if c
                then some (record r { schema_id = value })
                else none))
      by_key true b c = refl
      by_key false true c = refl
      by_key false false true = refl
      by_key false false false = refl

  header_loop-Marked :
      (n : ℕ) (r : Reply) (p : List ℕ) (a : Bool)
      → r.alloc ≡ a
      → Marked first a (header_loop mp n r p)
  unfolding header_loop
  header_loop-Marked zero r p a e = e
  header_loop-Marked (suc n) r p a e =
      let (key, q) = mp.decode_uint p in
      let (value, rest) = mp.decode_uint q in
      let found = known mp r (header_value (key % 2 ^ 32) value r) in
      let round = λ (r' : Reply). header_loop mp n (mark r' (key % 2 ^ 32)) rest in
      if-Marked first a (not (is_type mp MpType.mp_uint p)) (rollback r) _ e (
        if-Marked first a (not (is_type mp MpType.mp_uint q)) (rollback r) _ e (
          and_then-Marked itself first a found round
            (subst (λ b. Marked itself b found) e (header_value-Marked (key % 2 ^ 32) value r))
            (λ r' e'. header_loop-Marked n (mark r' (key % 2 ^ 32)) rest a e')))

  body_value-Marked :
      (key : ℕ) (r : Reply) (p : List ℕ) (a : Bool)
      → r.alloc ≡ a
      → Marked first a (body_value mp key r p)
  unfolding body_value
  body_value-Marked key r p a e =
      if-Marked first a (key == 0x31) _ _ (if-Marked first a (is_type mp MpType.mp_str p) _ _ e e) (
        if-Marked first a (key == 0x30) _ _
          (if-Marked first a (is_type mp MpType.mp_array p) _ _ e e) e)

  body_loop-Marked :
      (n : ℕ) (r : Reply) (p : List ℕ) (a : Bool)
      → r.alloc ≡ a
      → Marked itself a (body_loop mp n r p)
  unfolding body_loop
  body_loop-Marked zero r p a e = e
  body_loop-Marked (suc n) r p a e =
      let (key, q) = mp.decode_uint p in
      let round = λ (x : Reply × List ℕ). body_loop mp n (mark x.0 (key % 2 ^ 32)) x.1 in
      and_then-Marked first itself a (body_value mp (key % 2 ^ 32) r q) round
        (body_value-Marked (key % 2 ^ 32) r q a e)
        (λ x e'. body_loop-Marked n (mark x.0 (key % 2 ^ 32)) x.1 a e')

  checked-Marked :
      {A : Type 0}
      → (reply : A → Reply) (a : Bool) (c : Option ℕ) (r : Reply) (x : Parsing A) → r.alloc ≡ a
      → Marked reply a x
      → Marked reply a (elim c [ none ↦ rollback r | some _ ↦ x ])
  checked-Marked reply a none r x h k = h
  checked-Marked reply a (some n) r x h k = k

  parse_body-Marked :
      (size : ℕ) (r : Reply) (p : List ℕ) (a : Bool)
      → r.alloc ≡ a
      → Marked second a (parse_body mp size r p)
  unfolding parse_body
  parse_body-Marked size r p a e =
      let (n, rest) = mp.decode_map p in
      let body = body_loop mp (n % 2 ^ 32) r rest in
      if-Marked second a ((size - length p) == size + 5) _ _ e (
        checked-Marked second a (mp.check p) r _ e (
          if-Marked second a (is_type mp MpType.mp_map p) _ _
            (and_then-Marked itself second a body (λ r'. going (0, r'))
              (body_loop-Marked (n % 2 ^ 32) r rest a e) (λ r' e'. e'))
            e))

  -- The parser keeps the mark of the allocation, also where it rolls back.
  parse-Marked : (r : Reply) (buf : List ℕ) → Marked second r.alloc (parse mp r buf)
  unfolding parse
  parse-Marked r buf =
      let (n, rest) = mp.decode_map buf in
      let body = λ (x : Reply × List ℕ). parse_body mp (length buf) x.0 x.1 in
      checked-Marked second r.alloc (mp.check buf) r _ refl (
        if-Marked second r.alloc (is_type mp MpType.mp_map buf) _ _
          (and_then-Marked first second r.alloc (header_loop mp (n % 2 ^ 32) r rest) body
            (header_loop-Marked (n % 2 ^ 32) r rest r.alloc refl)
            (λ x e. parse_body-Marked (length buf) x.0 x.1 r.alloc e))
          refl)

-- What is left of a reply with some mark: after -1 it is cleared, and otherwise it has the mark.
abbrev pub Outcome : {S : Type 0} → Bool → Option ℕ × Reply × S → Type 0
Outcome a (none, r, s) = r ≡ reply_init a
Outcome a (some rc, r, s) = r.alloc ≡ a

module _ (mp : Msgpuck) {S : Type 0} (rcv : Receive S) (granted : ℕ → Bool) where
  rolled_back-Outcome : (r : Reply) (s : S) → Outcome r.alloc (rolled_back mp rcv granted r s)
  unfolding rolled_back
  rolled_back-Outcome r s = refl

  finished-Outcome :
      (a : Bool) (s : S) (x : Parsing (ℕ × Reply))
      → Marked second a x
      → Outcome a (finished mp rcv granted s x)
  unfolding finished rolled_back
  finished-Outcome a s (going (rc, r)) e = e
  finished-Outcome a s (rollback r) e = ap reply_init e

  received-Outcome :
      (r : Reply) (x : Option (List ℕ) × S) → Outcome r.alloc (received mp rcv granted r x)
  unfolding received
  received-Outcome r (none, s) = rolled_back-Outcome r s
  received-Outcome r (some buf, s) =
      finished-Outcome r.alloc s _ (parse-Marked mp (record r { buf = some buf }) buf)

  if-Outcome :
      (a b : Bool) (x y : Option ℕ × Reply × S)
      → Outcome a x
      → Outcome a y
      → Outcome a (if b then x else y)
  if-Outcome a true x y h k = h
  if-Outcome a false x y h k = k

  sized-Outcome : (r : Reply) (x : Option (List ℕ) × S) → Outcome r.alloc (sized mp rcv granted r x)
  unfolding sized
  sized-Outcome r (none, s) = rolled_back-Outcome r s
  sized-Outcome r (some prefix, s) =
      let size = (mp.decode_uint prefix).0 in
      let r' : Reply = record r { buf_size = size } in
      if-Outcome r.alloc (not (is_type mp MpType.mp_uint prefix)) _ _ (rolled_back-Outcome r s) (
        if-Outcome r.alloc (not (granted size)) _ _ (rolled_back-Outcome r' s)
          (received-Outcome (record r' { buf = some [] }) (rcv s size)))

  -- Whatever is received, and wherever the parser gives up, with some fields of the reply filled
  -- in: where beer_reply_from returns -1, the reply is as after its set-up, with the mark of the
  -- allocation that it had, and on every other result it has that mark too.
  pub reply_from-Outcome : (r : Reply) (s : S) → Outcome r.alloc (reply_from mp rcv granted r s)
  unfolding reply_from reply_init
  reply_from-Outcome r s = sized-Outcome (reply_init r.alloc) (rcv s 5)

module _ (mp : Msgpuck) (laws : Decodes mp) where
  parse_body-nothing :
      (r : Reply) (size : ℕ) → mp.check [] ≡ none → parse_body mp size r [] ≡ rollback r
  unfolding parse_body
  parse_body-nothing r size e = simp (parse_body, never mp laws size 0, e) refl

  -- A reply with a header of code, sync and schema id below 2 ^ 64 and with no body is refused,
  -- where the codec decodes what it encodes, takes the header for a whole value and takes no
  -- value from no bytes.
  pub parse-bodyless :
      (r : Reply) (code sync schema k : ℕ)
      → code < 2 ^ 64
      → sync < 2 ^ 64
      → schema < 2 ^ 64
      → mp.check (payload mp code sync schema []) ≡ some k
      → mp.check [] ≡ none
      → (r' : Reply) × (parse mp r (payload mp code sync schema []) ≡ rollback r')
  unfolding parse
  parse-bodyless r code sync schema k x y z c e =
      let a : mp.decode_map (payload mp code sync schema []) ≡ (3, fields mp code sync schema []) =
        laws.map_value 3 _ (omega arith) in
      let read =
        mark
          (record (mark (record (mark (record r { code = code }) 0x00) { sync = sync }) 0x01) {
            schema_id = schema;
          })
          0x05 in
      (
        read,
        simp
            (
              parse,
              c,
              laws.map_type,
              a,
              header_loop-payload mp laws r code sync schema [] x y z,
              parse_body-nothing read (length (payload mp code sync schema [])) e,
            )
            refl,
      )
