-- ===== src/Tp/Commands.antt =====
-- The calls of include/tp.h as values, and what each does to the request under way.
use bee_c.Base.{ℕ, ◌+◌, ◌^◌, ◌<◌, ◌≡◌, Bool, none, some, List, [], ◌∷◌, ◌++◌, length}
use bee_c.Msgpuck.{Msgpuck, ℤ}
use bee_c.Request.Key
use bee_c.Request.{code_of, Op}
use bee_c.Request.Packet.{Field, pairs, number}
use bee_c.Tp.{Tp, Out, done, fault}
use bee_c.Tp.{
  tp_ping, tp_select, tp_insert, tp_replace, tp_call, tp_eval, tp_update, tp_updatebegin, tp_op,
  tp_op_splice, tp_encode_nil, tp_encode_uint, tp_encode_int, tp_encode_str, tp_encode_sz,
  tp_encode_bin, tp_encode_array, tp_encode_map, tp_encode_bool, tp_encode_float, tp_encode_double,
  tp_tuple, tp_key, c_string, sizeof_header, tp_reqid,
}
use bee_c.Tp.Draft.{Draft, message, packed}

pub data Beginning : Type 0 where
  ping : Beginning
  select : ℕ → ℕ → ℕ → ℕ → ℕ → Beginning
  insert replace update : ℕ → Beginning
  call eval : List ℕ → Beginning

pub data Addition : Type 0 where
  nil : Addition
  uint array map float double updatebegin tuple key : ℕ → Addition
  int : ℤ → Addition
  str sz bin : List ℕ → Addition
  bool : Bool → Addition
  op : ℕ → ℕ → Addition
  splice : ℕ → ℕ → ℕ → List ℕ → Addition

pub data Command : Type 0 where
  begins : Beginning → Command
  adds : Addition → Command
  sets_id : ℕ → Command

module _ (mp : Msgpuck) where
  unfoldable pub begin_call : Tp → Beginning → Out
  unfolding tp_ping tp_select tp_insert tp_replace tp_call tp_eval tp_update
  begin_call p Beginning.ping = tp_ping mp p
  begin_call p (Beginning.select space index offset iterator limit) =
      tp_select mp p space index offset iterator limit
  begin_call p (Beginning.insert space) = tp_insert mp p space
  begin_call p (Beginning.replace space) = tp_replace mp p space
  begin_call p (Beginning.update space) = tp_update mp p space
  begin_call p (Beginning.call function) = tp_call mp p function
  begin_call p (Beginning.eval expr) = tp_eval mp p expr

  unfoldable pub add_call : Tp → Addition → Out
  unfolding tp_updatebegin tp_op tp_op_splice tp_encode_nil tp_encode_uint tp_encode_int
      tp_encode_str tp_encode_sz tp_encode_bin tp_encode_array tp_encode_map tp_encode_bool
      tp_encode_float tp_encode_double tp_tuple tp_key
  add_call p Addition.nil = tp_encode_nil mp p
  add_call p (Addition.uint n) = tp_encode_uint mp p n
  add_call p (Addition.array n) = tp_encode_array mp p n
  add_call p (Addition.map n) = tp_encode_map mp p n
  add_call p (Addition.float x) = tp_encode_float mp p x
  add_call p (Addition.double x) = tp_encode_double mp p x
  add_call p (Addition.updatebegin n) = tp_updatebegin mp p n
  add_call p (Addition.tuple n) = tp_tuple mp p n
  add_call p (Addition.key n) = tp_key mp p n
  add_call p (Addition.int z) = tp_encode_int mp p z
  add_call p (Addition.str s) = tp_encode_str mp p s
  add_call p (Addition.sz s) = tp_encode_sz mp p s
  add_call p (Addition.bin s) = tp_encode_bin mp p s
  add_call p (Addition.bool b) = tp_encode_bool mp p b
  add_call p (Addition.op c field) = tp_op mp p c field
  add_call p (Addition.splice field offset cut paste) = tp_op_splice mp p field offset cut paste

  unfoldable pub call_of : Tp → Command → Out
  unfolding begin_call add_call tp_reqid
  call_of p (begins b) = begin_call p b
  call_of p (adds a) = add_call p a
  call_of p (sets_id n) = elim (tp_reqid mp p n) [ none ↦ fault | some q ↦ done p.pos q ]

  abbrev pub op_of : Beginning → Op
  op_of Beginning.ping = Op.ping
  op_of (Beginning.select _ _ _ _ _) = Op.select
  op_of (Beginning.insert _) = Op.insert
  op_of (Beginning.replace _) = Op.replace
  op_of (Beginning.update _) = Op.update
  op_of (Beginning.call _) = Op.call_16
  op_of (Beginning.eval _) = Op.eval

  -- A map of n fields: those that are complete, and the key of the one whose value is to come.
  abbrev pub opening : ℕ → List Field → ℕ → List ℕ
  opening n fs last = mp.encode_map n ++ (pairs mp fs ++ mp.encode_uint last)

  abbrev pub text : List ℕ → List ℕ
  text s = mp.encode_strl (length s) ++ s

  abbrev pub body_of : Beginning → List ℕ
  body_of Beginning.ping = mp.encode_map 0
  body_of (Beginning.select space index offset iterator limit) =
      opening 6
        (number mp Key.space space
          ∷ number mp Key.index index
          ∷ number mp Key.offset offset
          ∷ number mp Key.limit limit
          ∷ number mp Key.iterator iterator
          ∷ [])
        Key.key
  body_of (Beginning.insert space) = opening 2 (number mp Key.space space ∷ []) Key.tuple
  body_of (Beginning.replace space) = opening 2 (number mp Key.space space ∷ []) Key.tuple
  body_of (Beginning.update space) = opening 3 (number mp Key.space space ∷ []) Key.key
  body_of (Beginning.call function) = opening 2 ((Key.function, text function) ∷ []) Key.tuple
  body_of (Beginning.eval expr) = opening 2 ((Key.expression, text expr) ∷ []) Key.tuple

  abbrev pub bytes_of : Addition → List ℕ
  bytes_of Addition.nil = mp.encode_nil
  bytes_of (Addition.uint n) = mp.encode_uint n
  bytes_of (Addition.array n) = mp.encode_array n
  bytes_of (Addition.map n) = mp.encode_map n
  bytes_of (Addition.float x) = mp.encode_float x
  bytes_of (Addition.double x) = mp.encode_double x
  bytes_of (Addition.updatebegin n) = mp.encode_uint Key.tuple ++ mp.encode_array n
  bytes_of (Addition.tuple n) = mp.encode_array n
  bytes_of (Addition.key n) = mp.encode_array n
  bytes_of (Addition.int z) = mp.encode_int z
  bytes_of (Addition.str s) = text s
  bytes_of (Addition.sz s) = text (c_string s)
  bytes_of (Addition.bin s) = mp.encode_binl (length s) ++ s
  bytes_of (Addition.bool b) = mp.encode_bool b
  bytes_of (Addition.op c field) = mp.encode_array 3 ++ (text (c ∷ []) ++ mp.encode_uint field)
  bytes_of (Addition.splice field offset cut paste) =
      mp.encode_array 5
      ++ (text (58 ∷ [])
          ++ (mp.encode_uint field
              ++ (mp.encode_uint offset ++ (mp.encode_uint cut ++ text paste))))

  -- What is under way after a command.
  abbrev pub after : Draft → Command → Draft
  after d (begins b) = record {
    before = d.before ++ packed mp (message mp d);
    code = code_of (op_of b);
    id = 0;
    body = body_of b;
  }
  after d (adds a) = record d { body = d.body ++ bytes_of a }
  after d (sets_id n) = record d { id = n }

  -- The numbers of a splice take as many bytes as the number of its field.
  abbrev pub Even : Addition → Type 0
  Even (Addition.splice field offset cut paste) =
      (mp.sizeof_uint offset ≡ mp.sizeof_uint field) × (mp.sizeof_uint cut ≡ mp.sizeof_uint field)
  Even _ = Unit {0}

  -- A command of fewer than 2 ^ 31 bytes.
  abbrev pub Fits : Command → Type 0
  Fits (begins b) = length (body_of b) + sizeof_header mp (code_of (op_of b)) < 2 ^ 31
  Fits (adds a) = (length (bytes_of a) < 2 ^ 31) × Even a
  Fits (sets_id n) = Unit {0}
