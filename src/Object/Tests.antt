-- ===== src/Object/Tests.antt =====
-- Runs of the builder on small objects.
use bee_c.Base.{[], ◌≡◌, refl, false, some, [], ◌∷◌, arith}
use bee_c.Msgpuck.{mp_array, mp_map}
use bee_c.Object.{container_close, open_header}
use bee_c.Object.Closing.{Closed, container_close-Closed}
use bee_c.Msgpuck.Sample.{sample, sample-Sizes}
use bee_c.Buf.Sample.{heap}
use bee_c.Buf.{live, by_object}
use bee_c.Object.{Obj, SboType, packed, fresh_frames}
use bee_c.Object.Headers.{header}
use bee_c.Object.Values.{ObjValid}
use bee_c.Object.Program.{Value, Items, Pairs, build, encode}
use bee_c.Object.Program
use bee_c.Object.Built.{Built}
use bee_c.Object.Build.{build-Built}

-- An object with the bytes [192] in it, and room for eight frames.
abbrev object : SboType → Obj
object type = record {
  stream = record {
    wrcnt = 1;
    reqid = 0;
    data' = live (0xc0 ∷ []);
    size = 1;
    alloc = 1;
    rdoff = 0;
    resize = by_object;
    as_ = false;
    allocs = 4;
  };
  stack = fresh_frames (λ i. 0) 0 8;
  stack_size = 0;
  stack_alloc = 8;
  type = type;
}

object-ObjValid : (type : SboType) → ObjValid (object type)
unfolding fresh_frames
object-ObjValid type = record {
  stream = record {
    owned = refl;
    alive = refl;
    room = refl;
    within = omega arith;
    exact = λ e. cc;
  };
  stack = record { room = refl; within = omega arith; small = omega arith };
}

-- {"a": [1, -1], 300: nil}
abbrev tree : Value
tree = Program.map (
    Program.pair (Program.str (97 ∷ []))
      (Program.array (
        Program.item (Program.uint 1)
          (Program.item (Program.int (bee_c.Msgpuck.negsuc 0)) Program.end)))
      (Program.pair (Program.uint 300) Program.nil Program.finish))

encode-tree :
    encode sample packed tree ≡ 0x82 ∷ 0xa1 ∷ 97 ∷ 0x92 ∷ 1 ∷ 0xff ∷ 0xcd ∷ 1 ∷ 44 ∷ 0xc0 ∷ []
unfolding encode header
encode-tree = refl

build-Built_example :
    (p : Obj) × (build sample heap tree (object packed) ≡ some p)
    × Built 1 (object packed) (encode sample packed tree) p
build-Built_example =
    build-Built sample sample-Sizes heap (λ k n. refl) tree 2 (object packed)
      (object-ObjValid packed) (omega arith) (omega arith)

-- An open map: its header stands behind one byte, and it holds a key and a value.
abbrev opened : Obj
opened = record (object packed) {
  stream = record ((object packed).stream) {
    data' = live (0xc0 ∷ 0x80 ∷ 1 ∷ 0xc3 ∷ []);
    size = 4;
    alloc = 4;
  };
  stack = record { offset = 1; size = 2; type = mp_map } ∷ fresh_frames (λ i. 0) 0 7;
  stack_size = 1;
}

opened-ObjValid : ObjValid opened
unfolding fresh_frames
opened-ObjValid = record {
  stream = record {
    owned = refl;
    alive = refl;
    room = refl;
    within = omega arith;
    exact = λ e. cc;
  };
  stack = record { room = refl; within = omega arith; small = omega arith };
}

container_close-Closed_example :
    Closed opened [] (0xc0 ∷ 0x81 ∷ 1 ∷ 0xc3 ∷ []) (container_close sample heap opened)
unfolding header open_header
container_close-Closed_example =
    container_close-Closed sample sample-Sizes heap (λ k n. refl) opened [] mp_map 1 (0xc0 ∷ [])
      (1 ∷ 0xc3 ∷ []) opened-ObjValid refl (omega arith) refl
