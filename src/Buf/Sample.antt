-- ===== src/Buf/Sample.antt =====
-- A small memory stream, and an allocator that never fails.
use bee_c.Base.{refl, true, false, [], ◌∷◌, arith}
use bee_c.Buf.{Heap, Stream, live, by_buf}
use bee_c.Buf.Append.{IsValid}

abbrev pub heap : Heap
heap = record {
  grants = λ k n. true;
  fresh = λ k i. 0;
  sizeof_stream = 80;
  sizeof_buf = 72;
  sizeof_object = 16;
  sizeof_frame = 24;
}

abbrev pub stream : Stream
stream = record {
  wrcnt = 1;
  reqid = 0;
  data' = live (1 ∷ 2 ∷ []);
  size = 2;
  alloc = 2;
  rdoff = 0;
  resize = by_buf;
  as_ = false;
  allocs = 3;
}

pub stream-IsValid : IsValid stream
stream-IsValid = record {
  owned = refl;
  alive = refl;
  room = refl;
  within = omega arith;
  exact = λ e. refl;
}
