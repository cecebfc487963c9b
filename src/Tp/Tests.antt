-- ===== src/Tp/Tests.antt =====
-- Requests of include/tp.h in the sample codec.
use bee_c.Base.{
  ℕ, ◌+◌, ◌-◌, ◌≤◌, ◌≡◌, refl, ap, ◌∙◌, subst, Option, none, some, List, [], ◌∷◌, ◌++◌, length,
  length-append, take, length-take, take-append_le, take-take, take_all, arith,
}
use bee_c.Base
use bee_c.Msgpuck.Sample.{sample, sample-Measured}
use bee_c.Request.Key
use bee_c.Request.{Op}
use bee_c.Request.Packet.{number}
use bee_c.Tp.{
  Tp, Reserve, fault, tp_init, tp_realloc, tp_encode_str, tp_delete, tp_auth, sizeof_header,
  tp_unused, tp_ensure,
}
use bee_c.Tp.Draft.{Draft, Honest, Represents, Stepped, fresh, packed, message}
use bee_c.Tp.Commands.{Beginning, Addition, begins, adds, sets_id, call_of, after}
use bee_c.Tp.Program.{call_of-Stepped}
use bee_c.Tp.Runs.{Willing, run, after_all, run-init-Represents}
use bee_c.Tp.Whole.{all_adds, whole, run-Whole}
use bee_c.Tp.Growth.{Reallocates, Room, tp_realloc-Room, tp_encode_str-Overrun}
use bee_c.Tp.Faults.{delete_items, tp_delete-Unopened, tp_auth-Overrun}
use bee_c.Tp.Format.{Format}

abbrev zeros : ℕ → List ℕ
zeros Base.zero = []
zeros (Base.suc n) = 0 ∷ zeros n

length-zeros : (n : ℕ) → length (zeros n) ≡ n
length-zeros Base.zero = refl
length-zeros (Base.suc n) = ap Base.suc (length-zeros n)

-- More bytes behind the buffer.
abbrev lengthen : Reserve
lengthen buf pos n = some (buf ++ zeros n)

abbrev Kept : List ℕ → ℕ → ℕ → Option (List ℕ) → Type 0
Kept buf pos n none = Unit {0}
Kept buf pos n (some new) = (take pos new ≡ take pos buf) × (pos + n ≤ length new)

lengthen-Honest : Honest (some lengthen)
lengthen-Honest buf pos n new h e =
    subst (Kept buf pos n) e (
      take-append_le pos buf (zeros n) h,
      omega (arith, length-append buf (zeros n), length-zeros n),
    )

lengthen-Willing : Willing (some lengthen)
lengthen-Willing buf pos n = (buf ++ zeros n, refl)

run-Whole_example :
    (q : Tp) × (run sample (tp_init [] (some lengthen)) (
        begins (Beginning.insert 512)
        ∷ all_adds (Addition.tuple 1 ∷ Addition.uint 7 ∷ []) (sets_id 3))
      ≡ some q)
    × (take q.pos q.buf
        ≡ whole sample Op.insert 3 (number sample Key.space 512 ∷ (Key.tuple, 0x91 ∷ 7 ∷ []) ∷ []))
unfolding sizeof_header
run-Whole_example =
    run-Whole sample sample-Measured [] lengthen (Beginning.insert 512)
      (number sample Key.space 512 ∷ []) Key.tuple (Addition.tuple 1 ∷ Addition.uint 7 ∷ []) 3 refl
      lengthen-Honest lengthen-Willing
      (omega arith, ((omega arith, tt), ((omega arith, tt), (tt, tt))))

-- A ping, and then an evaluation that is under way.
run-init-Represents_example :
    (q : Tp) × (run sample
        (tp_init [] (some lengthen))
        (begins Beginning.ping ∷ begins (Beginning.eval (97 ∷ [])) ∷ adds Addition.nil ∷ [])
      ≡ some q)
    × Represents sample q (
        after_all sample
          (record { before = []; code = 64; id = 0; body = sample.encode_map 0 })
          (begins (Beginning.eval (97 ∷ [])) ∷ adds Addition.nil ∷ []))
unfolding sizeof_header
run-init-Represents_example =
    run-init-Represents sample sample-Measured [] lengthen Beginning.ping
      (begins (Beginning.eval (97 ∷ [])) ∷ adds Addition.nil ∷ []) lengthen-Honest lengthen-Willing
      (omega arith, (omega arith, ((omega arith, tt), tt)))

-- A ping in a buffer of its own.
abbrev ping_draft : Draft
ping_draft = record { before = []; code = 64; id = 0; body = 0x80 ∷ [] }

abbrev ping_buffer : Option Reserve → Tp
ping_buffer reserve = record {
  buf = packed sample (message sample ping_draft) ++ (0 ∷ 0 ∷ []);
  pos = 15;
  size = some 0;
  sync = some 9;
  reserve = reserve;
}

ping_buffer-Represents : (r : Option Reserve) → Represents sample (ping_buffer r) ping_draft
ping_buffer-Represents r = record {
  contents = refl;
  size = refl;
  sync = refl;
  within = omega arith;
}

call_of-Stepped_example :
    Stepped sample
      (ping_buffer none)
      (after sample ping_draft (adds (Addition.uint 300)))
      (call_of sample (ping_buffer none) (adds (Addition.uint 300)))
call_of-Stepped_example =
    call_of-Stepped sample sample-Measured (ping_buffer none) ping_draft (adds (Addition.uint 300))
      (ping_buffer-Represents none) tt (omega arith, tt)

abbrev three : List ℕ
three = 7 ∷ 8 ∷ 9 ∷ []

abbrev three_bytes : Format
three_bytes = record { total = 3; written = λ n. take n three }

tp_delete-Unopened_example :
    Stepped sample
      (tp_init [] (some lengthen))
      (fresh sample
        (tp_init [] (some lengthen))
        5
        (delete_items sample sample-Measured 512 ++ (0 ∷ [])))
      (tp_delete sample (tp_init [] (some lengthen)) 512)
unfolding tp_init sizeof_header tp_ensure
tp_delete-Unopened_example =
    tp_delete-Unopened sample sample-Measured (tp_init [] (some lengthen)) 512 (omega arith)
      lengthen-Honest (omega arith)

tp_auth-Overrun_example :
    tp_auth sample (λ s. zeros 20) (λ s. s) (tp_init (zeros 37) none) [] (97 ∷ []) (98 ∷ []) ≡ fault
unfolding tp_init sizeof_header tp_unused
tp_auth-Overrun_example =
    tp_auth-Overrun sample sample-Measured (λ s. zeros 20) (λ s. s) (tp_init (zeros 37) none) []
      (97 ∷ []) (98 ∷ []) (λ s. refl) refl (omega arith) refl (omega arith)

-- A block of the size wanted.
abbrev resized : List ℕ → ℕ → Option (List ℕ)
resized old n = some (take n old ++ zeros (n - length old))

abbrev Sized : List ℕ → ℕ → Option (List ℕ) → Type 0
Sized old n none = Unit {0}
Sized old n (some new) = (length new ≡ n) × (length old ≤ n → take (length old) new ≡ old)

resized-Sized : (old : List ℕ) (n : ℕ) → Sized old n (resized old n)
resized-Sized old n =
    let fill = zeros (n - length old) in
    (
      omega (
        arith,
        length-append (take n old) fill,
        length-take n old,
        length-zeros (n - length old),
      ),
      λ h.
          take-append_le (length old) (take n old) fill (omega (arith, length-take n old))
          ∙ take-take (length old) n old h
          ∙ take_all (length old) old (omega arith),
    )

resized-Reallocates : Reallocates resized
resized-Reallocates = record {
  sized = λ old n new e. (subst (Sized old n) e (resized-Sized old n)).0;
  kept = λ old n new e. (subst (Sized old n) e (resized-Sized old n)).1;
}

tp_realloc-Room_example : Room resized resized-Reallocates (1 ∷ 2 ∷ []) 2 3 (1 ∷ 2 ∷ 0 ∷ 0 ∷ [])
unfolding tp_realloc
tp_realloc-Room_example =
    tp_realloc-Room resized resized-Reallocates (1 ∷ 2 ∷ []) 2 3 (1 ∷ 2 ∷ 0 ∷ 0 ∷ []) (omega arith)
      (omega arith) refl

-- A full buffer of four bytes, and a string that takes six.
abbrev full_buffer : Tp
full_buffer = record {
  buf = zeros 4;
  pos = 4;
  size = some 0;
  sync = none;
  reserve = some (tp_realloc resized);
}

tp_encode_str-Overrun_example : tp_encode_str sample full_buffer (1 ∷ 2 ∷ 3 ∷ 4 ∷ 5 ∷ []) ≡ fault
unfolding tp_realloc
tp_encode_str-Overrun_example =
    tp_encode_str-Overrun resized resized-Reallocates sample sample-Measured full_buffer
      (1 ∷ 2 ∷ 3 ∷ 4 ∷ 5 ∷ []) (zeros 8) refl (omega arith) (omega arith) (omega arith)
      (omega arith) refl
