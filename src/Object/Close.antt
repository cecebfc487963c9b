-- ===== src/Object/Close.antt =====
-- The bytes of a stream when the header of a container is written over, in place or with more room.
use bee_c.Base.{ℕ, ◌+◌, ◌-◌, ◌≤◌, ◌<◌, ◌≡◌, refl, sym, ap, ◌∙◌, subst}
use bee_c.Base.{
  List, ◌++◌, append_assoc, length, take, drop, length-append, length-take, take_add, take-take,
  drop-take,
}
use bee_c.Base.{arith, take-append, drop-append, length-drop}
use bee_c.Base.Memory.{
  write_at, length-write_at, take-write_at, take-write_at_inside, write_at_over,
}
use bee_c.Buf.{Stream, bytes_of}
use bee_c.Buf.Append.{IsValid, Resized, contents}
use bee_c.Object.Headers.{header}
use bee_c.Object.{patch}

-- The bytes `old` between `pre` and `post` in a stream are replaced.
pub patch-contents :
    (s : Stream) (pre old post src : List ℕ)
    → IsValid s
    → contents s ≡ pre ++ (old ++ post)
    → length src ≡ length old
    → (contents (patch s (length pre) src) ≡ pre ++ (src ++ post))
      × IsValid (patch s (length pre) src)
patch-contents s pre old post src v e h =
    let n = length-append pre (old ++ post) in
    let m = length-append old post in
    let size : length pre + length src ≤ s.size =
      omega (arith, ap length e, n, m, length-take s.size (bytes_of s.data')) in
    (
      take-write_at_inside (bytes_of s.data') (length pre) src s.size size (omega arith)
          ∙ ap (λ x. write_at x (length pre) src) e
          ∙ write_at_over pre old post src h,
      record {
        owned = v.owned;
        alive = refl;
        room = length-write_at (bytes_of s.data') (length pre) src (omega arith) ∙ v.room;
        within = v.within;
        exact = v.exact;
      },
    )

-- The memory of a packed container when its header has `sz` bytes: the body is moved behind it.
moved-contents :
    (mem pre ph body header : List ℕ) (size n : ℕ)
    → take size mem ≡ pre ++ (ph ++ body)
    → size ≤ length mem
    → n ≤ length mem
    → length ph ≡ 1
    → 0 < length header
    → n ≡ size + (length header - 1)
    → take n (write_at (write_at mem (length pre + length header) body) (length pre) header)
      ≡ pre ++ (header ++ body)
moved-contents mem pre ph body header size n e a b c d f =
    take-write_at_inside (write_at mem (off + sz) body) off header n (omega (arith, sizes))
      (omega (arith, length-write_at mem (off + sz) body (omega (arith, sizes)), sizes))
    ∙ ap (λ x. write_at x off header)
        (take-write_at mem (off + sz) body n (omega (arith, sizes)) (omega (arith, sizes))
          ∙ ap (λ x. x ++ body) front
          ∙ append_assoc pre old body)
    ∙ write_at_over pre old body header (sym old_size)
  where
    off : ℕ
    off = length pre

    sz : ℕ
    sz = length header

    old : List ℕ
    old = take sz (drop off mem)

    sizes : size ≡ off + (1 + length body)
    sizes = omega (
      arith,
      ap length e,
      length-append pre (ph ++ body),
      length-append ph body,
      length-take size mem,
    )

    old_size : length old ≡ sz
    old_size = omega (arith, sizes, length-take sz (drop off mem), length-drop off mem)

    front : take (off + sz) mem ≡ pre ++ old
    front =
        take_add off sz (off + sz) mem refl
        ∙ ap (λ x. x ++ old)
            (sym (take-take off size mem (omega (arith, sizes)))
              ∙ ap (take off) e
              ∙ take-append pre (ph ++ body) off refl)

-- The values of the container, as `memmove` takes them.
body_lem :
    (mem pre ph body : List ℕ) (size : ℕ)
    → take size mem ≡ pre ++ (ph ++ body)
    → length ph ≡ 1
    → take (size - length pre - 1) (drop (length pre + 1) mem) ≡ body
body_lem mem pre ph body size e one =
    let m : size - length pre - 1 ≡ size - (length pre + 1) = omega arith in
    ap (λ k. take k (drop (length pre + 1) mem)) m
    ∙ sym (drop-take (length pre + 1) size mem)
    ∙ ap (drop (length pre + 1)) (e ∙ sym (append_assoc pre ph body))
    ∙ drop-append (pre ++ ph) body (length pre + 1) (omega (arith, length-append pre ph))

-- A header `hd` of more than one byte takes the place of one byte, and the values move.
pub grown_header :
    (s t : Stream) (pre ph body hd : List ℕ) (sz : ℕ)
    → IsValid s
    → Resized s.resize s t (sz - 1)
    → contents s ≡ pre ++ (ph ++ body)
    → length ph ≡ 1
    → length hd ≡ sz
    → 1 < sz
    → let b = take (t.size - length pre - 1) (drop (length pre + 1) (bytes_of t.data')) in
      let u = record (patch (patch t (length pre + sz) b) (length pre) hd) {
        size = s.size + (sz - 1);
      } in
      (contents u ≡ pre ++ (hd ++ body)) × IsValid u × (u.resize ≡ s.resize)
grown_header s t pre ph body hd sz v r c one e long =
    subst
      (λ b.
        let u = record (patch (patch t (length pre + sz) b) (length pre) hd) {
          size = s.size + (sz - 1);
        } in
        (contents u ≡ pre ++ (hd ++ body)) × IsValid u × (u.resize ≡ s.resize))
      (sym (body_lem (bytes_of t.data') pre ph body t.size (r.same_bytes ∙ c) one))
      (
        subst
            (λ k.
              take (s.size + (sz - 1))
                (write_at (write_at (bytes_of t.data') (length pre + k) body) (length pre) hd)
              ≡ pre ++ (hd ++ body))
            e
            (moved-contents (bytes_of t.data') pre ph body hd s.size (s.size + (sz - 1))
              (ap (λ k. take k (bytes_of t.data')) (sym r.same_size) ∙ r.same_bytes ∙ c)
              (omega (arith, r.room, r.room_for)) (omega (arith, r.room, r.room_for)) one
              (omega arith) (omega arith)),
        record {
          owned = r.owned;
          alive = refl;
          room =
              length-write_at (write_at (bytes_of t.data') (length pre + sz) body) (length pre) hd
                (omega (arith, inner, fits, r.room, r.room_for))
              ∙ inner
              ∙ r.room;
          within = r.room_for;
          exact = λ x. r.tight (sym r.same_resize ∙ x);
        },
        r.same_resize,
      )
  where
    fits : length pre + (1 + length body) ≡ s.size
    fits = omega (
      arith,
      ap length c,
      length-append pre (ph ++ body),
      length-append ph body,
      v.room,
      v.within,
      length-take s.size (bytes_of s.data'),
    )

    inner : length (write_at (bytes_of t.data') (length pre + sz) body) ≡ length (bytes_of t.data')
    inner =
        length-write_at (bytes_of t.data') (length pre + sz) body
          (omega (arith, fits, r.room, r.room_for))
