-- ===== src/Object/Frames.antt =====
-- The stack of open containers as the list of its frames, outermost first.
use bee_c.Base.{
  ℕ, zero, suc, ◌+◌, ◌-◌, ◌%◌, ◌^◌, ◌≤◌, ◌<◌, ◌≡◌, refl, sym, ap, ◌∙◌, List, [], ◌∷◌, ◌++◌,
}
use bee_c.Base.{
  length, take, set, get_or, length-set, length-take, length-append, ap₂, ltb, Bool-cases, inl, inr,
  arith, subst,
}
use bee_c.Object.{Obj, Frame, no_frame, count_value, push_frame}
use bee_c.Msgpuck.{MpType}

abbrev pub frames : Obj → List Frame
frames o = take o.stack_size o.stack

-- The stack fits its memory.
pub record StackValid (o : Obj) : Type 0 where
  pub room : length o.stack ≡ o.stack_alloc
  pub within : o.stack_size ≤ o.stack_alloc
  pub small : o.stack_alloc ≤ 128

abbrev pub counted : Frame → Frame
counted f = record f { size = (f.size + 1) % 2 ^ 32 }

-- One value more in the innermost container.
abbrev pub count_last : List Frame → List Frame
count_last [] = []
count_last (f ∷ []) = counted f ∷ []
count_last (f ∷ g ∷ fs) = f ∷ count_last (g ∷ fs)

pub count_last-append :
    (fs : List Frame) (f : Frame) → count_last (fs ++ (f ∷ [])) ≡ fs ++ (counted f ∷ [])
count_last-append [] f = refl
count_last-append (g ∷ []) f = refl
count_last-append (g ∷ k ∷ fs) f = ap (◌∷◌ g) (count_last-append (k ∷ fs) f)

length-count_last : (fs : List Frame) → length (count_last fs) ≡ length fs
length-count_last [] = refl
length-count_last (f ∷ []) = refl
length-count_last (f ∷ g ∷ fs) = ap suc (length-count_last (g ∷ fs))

-- Counting in the memory of the stack counts in the innermost frame.
take-count :
    (stack : List Frame) (n : ℕ)
    → suc n ≤ length stack
    → take (suc n) (set stack n (counted (get_or stack n no_frame)))
      ≡ count_last (take (suc n) stack)
take-count [] n h = absurd (omega arith)
take-count (f ∷ stack) zero h = refl
take-count (f ∷ []) (suc n) h = absurd (omega arith)
take-count (f ∷ g ∷ stack) (suc n) h = ap (◌∷◌ f) (take-count (g ∷ stack) n (omega arith))

take-set_end :
    (stack : List Frame) (n : ℕ) (f : Frame)
    → n < length stack
    → take (suc n) (set stack n f) ≡ take n stack ++ (f ∷ [])
take-set_end [] n f h = absurd (omega arith)
take-set_end (g ∷ stack) zero f h = refl
take-set_end (g ∷ stack) (suc n) f h = ap (◌∷◌ g) (take-set_end stack n f (omega arith))

abbrev behind : List Frame → List Frame
behind [] = []
behind (f ∷ fs) = fs

top_lem :
    (fs : List Frame) (f : Frame) (stack : List Frame)
    → take (suc (length fs)) stack ≡ fs ++ (f ∷ [])
    → (get_or stack (length fs) no_frame ≡ f) × (take (length fs) stack ≡ fs)
top_lem [] f [] e = (cc, refl)
top_lem [] f (g ∷ stack) e = (cc, refl)
top_lem (k ∷ fs) f [] e = (cc, cc)
top_lem (k ∷ fs) f (g ∷ stack) e =
    let (a, b) = top_lem fs f stack (ap behind e) in (a, ap₂ ◌∷◌ (cc) b)

length-frames : (o : Obj) → StackValid o → length (frames o) ≡ o.stack_size
length-frames o v = omega (arith, length-take o.stack_size o.stack)

-- The innermost frame, where `beer_object_container_close` reads it.
pub top_frame :
    (o : Obj) (fs : List Frame) (f : Frame)
    → StackValid o
    → frames o ≡ fs ++ (f ∷ [])
    → (get_or o.stack (o.stack_size - 1) no_frame ≡ f)
      × (take (o.stack_size - 1) o.stack ≡ fs)
      × (0 < o.stack_size)
top_frame o fs f v e =
    let n : o.stack_size ≡ suc (length fs) =
      omega (arith, length-frames o v, ap length e, length-append fs (f ∷ [])) in
    let m : o.stack_size - 1 ≡ length fs = omega arith in
    let (a, b) = top_lem fs f o.stack (subst (λ k. take k o.stack ≡ fs ++ (f ∷ [])) n e) in
    (ap (λ k. get_or o.stack k no_frame) m ∙ a, ap (λ k. take k o.stack) m ∙ b, omega arith)

pub frames-count_value : (o : Obj) → StackValid o → frames (count_value o) ≡ count_last (frames o)
unfolding count_value
frames-count_value o v = elim (Bool-cases (ltb 0 o.stack_size)) [
  | inl y ↦ rw y (in_memory o.stack_size (ground (arith, y)) (omega arith))
  | inr n ↦ rw n (
      let empty : frames o ≡ [] = none_open o.stack_size (ground (arith, n)) in
      empty ∙ sym (ap count_last empty))
]
  where
    none_open : (n : ℕ) → n ≡ 0 → take n o.stack ≡ []
    none_open n e = ap (λ k. take k o.stack) e

    in_memory :
        (n : ℕ)
        → 0 < n
        → n ≤ length o.stack
        → take n (set o.stack (n - 1) (counted (get_or o.stack (n - 1) no_frame)))
          ≡ count_last (take n o.stack)
    in_memory zero h k = absurd (omega arith)
    in_memory (suc n) h k =
        let m : suc n - 1 ≡ n = omega arith in
        ap (λ j. take (suc n) (set o.stack j (counted (get_or o.stack j no_frame)))) m
        ∙ take-count o.stack n k

pub count_value-StackValid : (o : Obj) → StackValid o → StackValid (count_value o)
unfolding count_value
count_value-StackValid o v = elim (Bool-cases (ltb 0 o.stack_size)) [
  | inl y ↦ rw y (record {
    room = length-set o.stack (o.stack_size - 1) _ ∙ v.room;
    within = v.within;
    small = v.small;
  })
  | inr n ↦ rw n v
]

-- Counting touches the memory of the stack only.
pub record SameBut (o p : Obj) : Type 0 where
  pub stream : p.stream ≡ o.stream
  pub stack_size : p.stack_size ≡ o.stack_size
  pub stack_alloc : p.stack_alloc ≡ o.stack_alloc
  pub type : p.type ≡ o.type

pub count_value-SameBut : (o : Obj) → SameBut o (count_value o)
unfolding count_value
count_value-SameBut o = elim (Bool-cases (ltb 0 o.stack_size)) [
  | inl y ↦ rw y (record { stream = refl; stack_size = refl; stack_alloc = refl; type = refl })
  | inr n ↦ rw n (record { stream = refl; stack_size = refl; stack_alloc = refl; type = refl })
]

-- A new container has a frame of its own, where the stack has room.
pub frames-push_frame :
    (o : Obj) (type : MpType)
    → StackValid o
    → o.stack_size < o.stack_alloc
    → (frames (push_frame o type)
        ≡ frames o ++ (record { offset = o.stream.size; size = 0; type = type } ∷ []))
      × StackValid (push_frame o type)
unfolding push_frame
frames-push_frame o type v h =
    let f : Frame = record { offset = o.stream.size; size = 0; type = type } in
    let m : (o.stack_size + 1) % 2 ^ 8 ≡ suc o.stack_size = omega arith in
    (
      ap (λ k. take k (set o.stack o.stack_size f)) m
          ∙ take-set_end o.stack o.stack_size f (omega arith),
      record {
        room = length-set o.stack o.stack_size f ∙ v.room;
        within = omega arith;
        small = v.small;
      },
    )
