-- ===== src/Object/State.antt =====
-- `struct beer_sbuf_object` (include/bee/beer_object.h) and the parts of beer/beer_object.c that work
-- on it alone.
use bee_c.Base.{ℕ, zero, suc, ◌+◌, ◌-◌, ◌*◌, ◌%◌, ◌^◌, Bool, true, false, List, [], ◌∷◌}
use bee_c.Base.{get_or, set, ltb, ◌==◌, if◌then◌else◌}
use bee_c.Base.Memory.{write_at}
use bee_c.Msgpuck.{MpType, mp_array, mp_map}
use bee_c.Buf.{Stream, Ret, ok, failure, live, bytes_of}

-- `struct beer_sbo_stack`
pub record Frame : Type 0 where
  pub offset : ℕ
  pub size : ℕ
  pub type : MpType

-- `enum beer_sbo_type`
pub data SboType : Type 0 where
  simple sparse packed : SboType

-- A stream with its `struct beer_sbuf_object`. `stack` is the memory of `stack_alloc` frames.
pub record Obj : Type 0 where
  pub stream : Stream
  pub stack : List Frame
  pub stack_size : ℕ
  pub stack_alloc : ℕ
  pub type : SboType

abbrev pub is_map : MpType → Bool
is_map mp_map = true
is_map _ = false

unfoldable pub object_type : Obj → SboType → Ret × Obj
object_type o type = if ltb 0 o.stream.wrcnt then (failure, o) else (ok 0, record o { type = type })

abbrev pub no_frame : Frame
no_frame = record { offset = 0; size = 0; type = MpType.mp_nil }

-- `sbo->stack[sbo->stack_size - 1].size += 1`, where a container is open; `uint32_t`.
unfoldable pub count_value : Obj → Obj
count_value o =
    if ltb 0 o.stack_size
    then (let top = get_or o.stack (o.stack_size - 1) no_frame in
        record o {
          stack = set o.stack (o.stack_size - 1) (record top { size = (top.size + 1) % 2 ^ 32 });
        })
    else o

-- What the n frames from index i on of fresh memory hold: any numbers, and any type.
unfoldable pub fresh_frames : (ℕ → ℕ) → ℕ → ℕ → List Frame
fresh_frames fresh i zero = []
fresh_frames fresh i (suc n) =
    record {
      offset = fresh (3 * i);
      size = fresh (3 * i + 1);
      type =
          if fresh (3 * i + 2) == 0
          then MpType.mp_nil
          else if fresh (3 * i + 2) == 1
          then mp_map
          else mp_array;
    }
    ∷ fresh_frames fresh (i + 1) n

-- `beer_object_reset`
unfoldable pub object_reset : Obj → Obj
object_reset o = record o {
  stream = record (o.stream) { reqid = 0; wrcnt = 0; size = 0; rdoff = 0 };
  stack_size = 0;
  type = simple;
}

-- A frame for the new container.
unfoldable pub push_frame : Obj → MpType → Obj
push_frame o type = record o {
  stack = set o.stack o.stack_size (record { offset = o.stream.size; size = 0; type = type });
  stack_size = (o.stack_size + 1) % 2 ^ 8;
}

-- `memcpy` into the stream's data.
abbrev pub patch : Stream → ℕ → List ℕ → Stream
patch s off bytes = record s { data' = live (write_at (bytes_of s.data') off bytes) }
