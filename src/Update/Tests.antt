-- ===== src/Update/Tests.antt =====
-- A run of the operations of an update.
use bee_c.Base.{◌≡◌, refl, some, List, [], ◌∷◌, ◌++◌, arith, false}
use bee_c.Msgpuck.{pos, mp_array}
use bee_c.Msgpuck.Sample.{sample, sample-Sizes}
use bee_c.Buf.{live, by_object}
use bee_c.Buf.Sample.{heap}
use bee_c.Object.{Obj, simple, sparse, fresh_frames}
use bee_c.Object.Frames.{frames}
use bee_c.Object.Values.{ObjValid}
use bee_c.Object.Headers.{header}
use bee_c.Buf.Append.{contents}
use bee_c.Request.{object_verify}
use bee_c.Update.{plus}
use bee_c.Update.Tuple.{Change, arith_int, delete, assign, splice, update_tuple, all_bytes}
use bee_c.Update.Built.{update_tuple-Built}

-- An object that was used before.
abbrev used : Obj
used = record {
  stream = record {
    wrcnt = 3;
    reqid = 0;
    data' = live (1 ∷ 2 ∷ []);
    size = 2;
    alloc = 2;
    rdoff = 0;
    resize = by_object;
    as_ = false;
    allocs = 4;
  };
  stack = fresh_frames (λ i. 0) 0 8;
  stack_size = 1;
  stack_alloc = 8;
  type = simple;
}

used-ObjValid : ObjValid used
unfolding fresh_frames
used-ObjValid = record {
  stream = record {
    owned = refl;
    alive = refl;
    room = refl;
    within = omega arith;
    exact = λ e. cc;
  };
  stack = record { room = refl; within = omega arith; small = omega arith };
}

-- Add 5 to field 1, and delete two fields from field 3 on; set field 4, and splice field 2.
abbrev operations : List Change
operations =
    arith_int 1 plus (pos 5) ∷ delete 3 2 ∷ assign 4 (0xc0 ∷ []) ∷ splice 2 1 0 (97 ∷ []) ∷ []

update_tuple-Built_example :
    (q : Obj) × (update_tuple sample heap operations used ≡ some q)
    × (contents q.stream ≡ header sample sparse mp_array 4 ++ all_bytes sample operations)
    × (frames q ≡ [])
unfolding object_verify
update_tuple-Built_example =
    update_tuple-Built sample sample-Sizes heap (λ k n. refl) operations used used-ObjValid refl
      (omega arith) (refl, (refl, (refl, (refl, tt)))) (omega arith)
