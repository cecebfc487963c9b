-- ===== src/Object/Program.antt =====
-- A client of the builder: the calls that add a whole tree of values, and the encoding of the tree
-- written down directly.
use bee_c.Base.{ℕ, zero, suc, ◌*◌, ◌^◌, ◌<◌, Bool, Option, none, some, List, [], ◌++◌, length}
use bee_c.Msgpuck.{Msgpuck, ℤ, mp_array, mp_map}
use bee_c.Buf.{Heap, Ret, ok, failure, fault}
use bee_c.Object.{Obj, SboType, add_nil, add_uint, add_int, add_str, add_bin, add_bool, add_float}
use bee_c.Object.{add_double, add_container, container_close}
use bee_c.Object.Headers.{header}
use bee_c.Object.Values.{encode_signed}

-- A value of MessagePack.
mutual
  pub data Value : Type 0 where
    nil : Value
    uint : ℕ → Value
    int : ℤ → Value
    str : List ℕ → Value
    bin : List ℕ → Value
    bool : Bool → Value
    float : ℕ → Value
    double : ℕ → Value
    array : Items → Value
    map : Pairs → Value

  pub data Items : Type 0 where
    end : Items
    item : Value → Items → Items

  pub data Pairs : Type 0 where
    finish : Pairs
    pair : Value → Value → Pairs → Pairs

abbrev pub count : Items → ℕ
count end = 0
count (item v vs) = suc (count vs)

abbrev pub count_pairs : Pairs → ℕ
count_pairs finish = 0
count_pairs (pair k v ps) = suc (count_pairs ps)

-- The encoding, where the headers of containers are those of a way of packing.
module _ (mp : Msgpuck) (mode : SboType) where
  unfoldable mutual
    pub encode : Value → List ℕ
    encode nil = mp.encode_nil
    encode (uint n) = mp.encode_uint n
    encode (int z) = encode_signed mp z
    encode (str s) = mp.encode_strl (length s) ++ s
    encode (bin b) = mp.encode_binl (length b) ++ b
    encode (bool b) = mp.encode_bool b
    encode (float x) = mp.encode_float x
    encode (double x) = mp.encode_double x
    encode (array vs) = header mp mode mp_array (count vs) ++ encode_items vs
    encode (map ps) = header mp mode mp_map (count_pairs ps) ++ encode_pairs ps

    pub encode_items : Items → List ℕ
    encode_items end = []
    encode_items (item v vs) = encode v ++ encode_items vs

    pub encode_pairs : Pairs → List ℕ
    encode_pairs finish = []
    encode_pairs (pair k v ps) = (encode k ++ encode v) ++ encode_pairs ps

-- A call's object, where the call did not fail.
abbrev pub checked : Ret × Obj → Option Obj
checked (ok n, o) = some o
checked (failure, o) = none
checked (fault, o) = none

infixl 5 ◌>>=◌
abbrev pub ◌>>=◌ : Option Obj → (Obj → Option Obj) → Option Obj
none >>= f = none
some o >>= f = f o

-- The calls that add a value, each checked.
module _ (mp : Msgpuck) (h : Heap) where
  unfoldable mutual
    pub build : Value → Obj → Option Obj
    build nil o = checked (add_nil mp h o)
    build (uint n) o = checked (add_uint mp h o n)
    build (int z) o = checked (add_int mp h o z)
    build (str s) o = checked (add_str mp h o s)
    build (bin b) o = checked (add_bin mp h o b)
    build (bool b) o = checked (add_bool mp h o b)
    build (float x) o = checked (add_float mp h o x)
    build (double x) o = checked (add_double mp h o x)
    build (array vs) o =
        checked (add_container mp h mp_array o (count vs)) >>= build_items vs >>= λ p.
        checked (container_close mp h p)
    build (map ps) o =
        checked (add_container mp h mp_map o (count_pairs ps)) >>= build_pairs ps >>= λ p.
        checked (container_close mp h p)

    pub build_items : Items → Obj → Option Obj
    build_items end o = some o
    build_items (item v vs) o = build v o >>= build_items vs

    pub build_pairs : Pairs → Obj → Option Obj
    build_pairs finish o = some o
    build_pairs (pair k v ps) o = build k o >>= build v >>= build_pairs ps

-- A tree that nests at most d deep, whose containers' sizes fit their counters.
abbrev mutual
  pub Fits : Value → ℕ → Type 0
  Fits (array vs) zero = ⊥
  Fits (array vs) (suc d) = (count vs < 2 ^ 32) × ItemsFit vs d
  Fits (map ps) zero = ⊥
  Fits (map ps) (suc d) = (2 * count_pairs ps < 2 ^ 32) × PairsFit ps d
  Fits _ d = Unit {0}

  pub ItemsFit : Items → ℕ → Type 0
  ItemsFit end d = Unit {0}
  ItemsFit (item v vs) d = Fits v d × ItemsFit vs d

  pub PairsFit : Pairs → ℕ → Type 0
  PairsFit finish d = Unit {0}
  PairsFit (pair k v ps) d = Fits k d × Fits v d × PairsFit ps d
