-- ===== src/Request/Compile.antt =====
-- beer/beer_request.c: the request object, and `beer_request_writeout`.
use bee_c.Base.{◌-◌, ℕ, ◌+◌, ◌%◌, ◌^◌, Bool, true, false, ◌&&◌, Option, none, some}
use bee_c.Base.{List, [], ◌∷◌, ◌++◌, length, ltb, ◌==◌, if◌then◌else◌}
use bee_c.Msgpuck.{Msgpuck}
use bee_c.Request.Key
use bee_c.Request.Common.{Op, select, update, delete, call_16, eval, upsert, call}
use bee_c.Request.Common.{code_of, Wire, next, encode_header, packaged}
use bee_c.Request.Common.{is_call}

-- `struct beer_request`; `key` and `tuple` are the bytes that its pointers enclose, `none` for NULL.
pub record Request : Type 0 where
  pub sync : ℕ
  pub type : Op
  pub space_id : ℕ
  pub index_id : ℕ
  pub offset : ℕ
  pub limit : ℕ
  pub iterator : ℕ
  pub key : Option (List ℕ)
  pub tuple : Option (List ℕ)
  pub index_base : ℕ

-- `beer_request_init` and then the type, as `beer_request_select` and its like do.
unfoldable pub request_of : Op → Request
request_of type = record {
  sync = 0;
  type = type;
  space_id = 0;
  index_id = 0;
  offset = 0;
  limit = 0xffffffff;
  iterator = 0;
  key = none;
  tuple = none;
  index_base = 0;
}

unfoldable pub set_space : Request → ℕ → Request
set_space r space = record r { space_id = space }

unfoldable pub set_index : Request → ℕ → Request
set_index r index = record r { index_id = index }

unfoldable pub set_offset : Request → ℕ → Request
set_offset r offset = record r { offset = offset }

unfoldable pub set_limit : Request → ℕ → Request
set_limit r limit = record r { limit = limit }

unfoldable pub set_iterator : Request → ℕ → Request
set_iterator r iterator = record r { iterator = iterator }

unfoldable pub set_index_base : Request → ℕ → Request
set_index_base r index_base = record r { index_base = index_base }

unfoldable pub set_key : Request → List ℕ → Request
set_key r key = record r { key = some key }

unfoldable pub set_tuple : Request → List ℕ → Request
set_tuple r tuple = record r { tuple = some tuple }

abbrev pub is_eval : Op → Bool
is_eval eval = true
is_eval _ = false

-- The result is false for -1.
unfoldable pub set_func : Request → Option (List ℕ) → Bool × Request
set_func r none = (false, r)
set_func r (some func) = if is_call r.type then (true, record r { key = some func }) else (false, r)

unfoldable pub set_expr : Request → Option (List ℕ) → Bool × Request
set_expr r none = (false, r)
set_expr r (some expr) = if is_eval r.type then (true, record r { key = some expr }) else (false, r)

-- `beer_request_set_ops`, by the type of the request.
unfoldable pub set_ops_of : Op → Request → List ℕ → Bool × Request
set_ops_of update r ops = (true, record r { tuple = some ops })
set_ops_of upsert r ops = (true, record r { key = some ops })
set_ops_of _ r ops = (false, r)

unfoldable pub set_ops : Request → List ℕ → Bool × Request
unfolding set_ops_of
set_ops r ops = set_ops_of r.type r ops

abbrev pub is_select : Op → Bool
is_select select = true
is_select _ = false

-- The types whose request carries an index, and those that carry an index base.
abbrev pub has_index : Op → Bool
has_index select = true
has_index update = true
has_index delete = true
has_index _ = false

abbrev pub has_base : Op → Bool
has_base update = true
has_base upsert = true
has_base _ = false

-- Fields in the buffer of the header: their bytes, and how many there are.
abbrev pub Fields : Type 0
Fields = List ℕ × ℕ

module _ (mp : Msgpuck) where
  -- One of the conditional fields of `beer_request_writeout`.
  abbrev pub field_if : Bool → ℕ → ℕ → Fields
  field_if b key value = if b then (mp.encode_uint key ++ mp.encode_uint value, 1) else ([], 0)

  -- The fields before the key.
  unfoldable pub scalar_fields : Op → Request → Fields
  scalar_fields tp r =
      let a = field_if (ltb (code_of tp) 6) Key.space r.space_id in
      let b = field_if (ltb 0 r.index_id && has_index tp) Key.index r.index_id in
      let c = field_if (is_select tp) Key.limit r.limit in
      let d = field_if (ltb 0 r.offset && is_select tp) Key.offset r.offset in
      let e = field_if (ltb 0 r.iterator && is_select tp) Key.iterator r.iterator in
      (a.0 ++ b.0 ++ c.0 ++ d.0 ++ e.0, a.1 + b.1 + c.1 + d.1 + e.1)

  -- The tag before the key, where the type has one.
  unfoldable pub key_tag : Op → List ℕ → Option (List ℕ)
  key_tag eval key = some (mp.encode_uint Key.expression ++ mp.encode_strl (length key))
  key_tag call_16 key = some (mp.encode_uint Key.function ++ mp.encode_strl (length key))
  key_tag call key = some (mp.encode_uint Key.function ++ mp.encode_strl (length key))
  key_tag select key = some (mp.encode_uint Key.key)
  key_tag update key = some (mp.encode_uint Key.key)
  key_tag delete key = some (mp.encode_uint Key.key)
  key_tag upsert key = some (mp.encode_uint Key.ops)
  key_tag _ key = none

-- The vector so far without the header, the bytes behind its last part (from `begin` to `pos`), and
-- the count of fields.
pub record Draft : Type 0 where
  pub parts : List (List ℕ)
  pub open' : List ℕ
  pub fields : ℕ

-- Two parts more: the bytes from `begin` on with a tag behind them, and a string of the request.
abbrev pub with_part : Draft → List ℕ → List ℕ → Draft
with_part d tag bytes = record {
  parts = d.parts ++ ((d.open' ++ tag) ∷ bytes ∷ []);
  open' = [];
  fields = d.fields + 1;
}

-- The last part, where `pos != begin`.
abbrev pub all_parts : Draft → List (List ℕ)
all_parts d = if ltb 0 (length d.open') then d.parts ++ (d.open' ∷ []) else d.parts

-- The first part begins with the header.
abbrev pub behind : List ℕ → List (List ℕ) → List (List ℕ)
behind head [] = head ∷ []
behind head (v ∷ vs) = (head ++ v) ∷ vs

module _ (mp : Msgpuck) where
  unfoldable pub add_tuple : Option (List ℕ) → Draft → Draft
  add_tuple none d = d
  add_tuple (some tuple) d = with_part d (mp.encode_uint Key.tuple) tuple

  unfoldable pub add_base : Op → Request → Draft → Draft
  add_base tp r d =
      let f = field_if mp (ltb 0 r.index_base && has_base tp) Key.index_base r.index_base in
      record d { open' = d.open' ++ f.0; fields = d.fields + f.1 }

  -- From the key on; `none` for the type that takes no key.
  unfoldable pub key_or_fail : Op → Option (List ℕ) → Draft → Option Draft
  unfolding key_tag
  key_or_fail tp none d = some d
  key_or_fail tp (some key) d = elim (key_tag mp tp key) [
    | none ↦ none
    | some tag ↦ some (with_part d tag key)
  ]

  unfoldable pub draft : Request → Option Draft
  unfolding scalar_fields key_or_fail add_tuple add_base
  draft r =
      let f = scalar_fields mp r.type r in
      elim (key_or_fail r.type r.key (record { parts = []; open' = f.0; fields = f.1 })) [
        | none ↦ none
        | some d ↦ some (add_base r.type r (add_tuple r.tuple d))
      ]

module _ (mp : Msgpuck) {S : Type 0} (w : Wire S) where
  abbrev int64_max : ℕ
  int64_max = 2 ^ 63 - 1

  -- The id starts again at 0 where `beer_request_compile` would return INT64_MAX for an error.
  abbrev pub restarted : S → Option ℕ → S
  restarted s none = s
  restarted s (some sync) =
      if sync == int64_max && w.reqid s % 2 ^ 63 == int64_max then w.set_reqid s 0 else s

  abbrev pub set_sync : Option ℕ → ℕ → Option ℕ
  set_sync none n = none
  set_sync (some sync) n = some n

  abbrev pub answered : ℕ → Option ℕ → Option ℕ × S → Bool × Option ℕ × S
  answered n sync (none, t) = (false, sync, t)
  answered n sync (some k, t) = (true, set_sync sync n, t)

  -- What a draft is sent as, and the results: 0 or -1 (false), the value behind `sync`, the stream.
  unfoldable pub send_draft : ℕ → Op → Option ℕ → S → Option Draft → Bool × Option ℕ × S
  unfolding encode_header packaged
  send_draft n tp sync s none = (false, sync, s)
  send_draft n tp sync s (some d) =
      let iov = behind (encode_header mp (code_of tp) n ++ mp.encode_map d.fields) (all_parts d) in
      answered n sync (w.writev s (packaged mp iov))

  -- `beer_request_writeout`; `sync` is `none` for NULL. It also stores the id in the request.
  unfoldable pub request_writeout : S → Request → Option ℕ → Bool × Option ℕ × Request × S
  unfolding draft send_draft
  request_writeout s r sync =
      let s0 = restarted s sync in
      let n = w.reqid s0 in
      let (result, sync', t) = send_draft n r.type sync (next w s0) (draft mp r) in
      (result, sync', record r { sync = n }, t)

  -- `none` for -1.
  unfoldable pub request_compile : S → Request → Option ℕ × Request × S
  unfolding request_writeout
  request_compile s r =
      let (result, sync, r', t) = request_writeout s r (some int64_max) in
      (if result then sync else none, r', t)
