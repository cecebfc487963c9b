-- ===== src/Tp/Program.antt =====
-- Sequences of calls of include/tp.h.
use bee_c.Base.{
  ℕ, ◌+◌, ◌^◌, ◌≤◌, ◌<◌, ◌≡◌, refl, sym, ap, ◌∙◌, subst, List, append_assoc, length, length-append,
  arith,
}
use bee_c.Msgpuck.{Msgpuck, Measured}
use bee_c.Request.Key
use bee_c.Request.{code_of}
use bee_c.Tp.{Tp, done, begin_request, extend, c_string, sizeof_header}
use bee_c.Tp.{tp_encode_str, tp_encode_sz, tp_encode_array, tpi_encode_store}
use bee_c.Tp.Draft.{Draft, fresh, with_more, Honest, Represents, Stepped}
use bee_c.Tp.Steps.{extend-Stepped, begin_request-Stepped}
use bee_c.Tp.Reqid.{tp_reqid-Represents}
use bee_c.Tp.Commands.{
  Beginning, Addition, Command, begins, adds, sets_id, begin_call, add_call, call_of, op_of,
  body_of, bytes_of, after, Fits,
}

module _ (mp : Msgpuck) (ms : Measured mp) where
  -- The size and the bytes that a call computes, against those of its body.
  begun :
      (p : Tp) (b : Beginning) (sz : ℕ) (body : List ℕ)
      → p.pos ≤ length p.buf
      → Honest p.reserve
      → Fits mp (begins b)
      → body ≡ body_of mp b
      → length body ≡ sz
      → Stepped mp p
          (fresh mp p (code_of (op_of mp b)) (body_of mp b))
          (begin_request mp p (code_of (op_of mp b)) sz body)
  begun p b sz body w h small e s =
      subst
        (λ l.
          Stepped mp p (fresh mp p (code_of (op_of mp b)) l)
            (begin_request mp p (code_of (op_of mp b)) sz body))
        e
        (begin_request-Stepped mp ms p (code_of (op_of mp b)) sz body w h s (
          subst (λ n. n + sizeof_header mp (code_of (op_of mp b)) < 2 ^ 31) (ap length (sym e) ∙ s)
            small))

  pub begin_call-Stepped :
      (p : Tp) (b : Beginning)
      → p.pos ≤ length p.buf
      → Honest p.reserve
      → Fits mp (begins b)
      → Stepped mp p (fresh mp p (code_of (op_of mp b)) (body_of mp b)) (begin_call mp p b)
  unfolding begin_call tpi_encode_store
  begin_call-Stepped p Beginning.ping w h small =
      begun p Beginning.ping _ _ w h small refl (ms.length-map 0)
  begin_call-Stepped p (Beginning.select space index offset iterator limit) w h small =
      begun p (Beginning.select space index offset iterator limit) _ _ w h small
        (simp append_assoc refl) (simp (length-append, ms.length-map, ms.length-uint) (omega arith))
  begin_call-Stepped p (Beginning.insert space) w h small =
      begun p (Beginning.insert space) _ _ w h small (simp append_assoc refl)
        (simp (length-append, ms.length-map, ms.length-uint) (omega arith))
  begin_call-Stepped p (Beginning.replace space) w h small =
      begun p (Beginning.replace space) _ _ w h small (simp append_assoc refl)
        (simp (length-append, ms.length-map, ms.length-uint) (omega arith))
  begin_call-Stepped p (Beginning.update space) w h small =
      begun p (Beginning.update space) _ _ w h small (simp append_assoc refl)
        (simp (length-append, ms.length-map, ms.length-uint) (omega arith))
  begin_call-Stepped p (Beginning.call function) w h small =
      begun p (Beginning.call function) _ _ w h small (simp append_assoc refl) (
        simp (length-append, ms.length-map, ms.length-uint)
          (omega (arith, ms.length-strl (length function))))
  begin_call-Stepped p (Beginning.eval expr) w h small =
      begun p (Beginning.eval expr) _ _ w h small (simp append_assoc refl) (
        simp (length-append, ms.length-map, ms.length-uint)
          (omega (
            arith,
            ms.length-strl (length expr),
            ms.one_byte Key.function (omega arith),
            ms.one_byte Key.expression (omega arith),
          )))

  added :
      (p : Tp) (d : Draft) (a : Addition) (sz : ℕ) (bs : List ℕ)
      → Represents mp p d
      → Honest p.reserve
      → length (bytes_of mp a) < 2 ^ 31
      → bs ≡ bytes_of mp a
      → length bs ≡ sz
      → Stepped mp p (with_more mp d (bytes_of mp a)) (extend mp p sz bs)
  added p d a sz bs v h small e s =
      subst (λ l. Stepped mp p (with_more mp d l) (extend mp p sz bs)) e
        (extend-Stepped mp ms p d sz bs v h s
          (subst (λ n. n < 2 ^ 31) (ap length (sym e) ∙ s) small))

  pub add_call-Stepped :
      (p : Tp) (d : Draft) (a : Addition)
      → Represents mp p d
      → Honest p.reserve
      → Fits mp (adds a)
      → Stepped mp p (with_more mp d (bytes_of mp a)) (add_call mp p a)
  unfolding add_call tp_encode_str tp_encode_sz tp_encode_array
  add_call-Stepped p d Addition.nil v h (f, _) = added p d Addition.nil _ _ v h f refl ms.length-nil
  add_call-Stepped p d (Addition.uint n) v h (f, _) =
      added p d (Addition.uint n) _ _ v h f refl (ms.length-uint n)
  add_call-Stepped p d (Addition.array n) v h (f, _) =
      added p d (Addition.array n) _ _ v h f refl (ms.length-array n)
  add_call-Stepped p d (Addition.map n) v h (f, _) =
      added p d (Addition.map n) _ _ v h f refl (ms.length-map n)
  add_call-Stepped p d (Addition.float x) v h (f, _) =
      added p d (Addition.float x) _ _ v h f refl (ms.length-float x)
  add_call-Stepped p d (Addition.double x) v h (f, _) =
      added p d (Addition.double x) _ _ v h f refl (ms.length-double x)
  add_call-Stepped p d (Addition.updatebegin n) v h (f, _) =
      added p d (Addition.updatebegin n) _ _ v h f refl
        (simp (length-append, ms.length-uint, ms.length-array) refl)
  add_call-Stepped p d (Addition.tuple n) v h (f, _) =
      added p d (Addition.tuple n) _ _ v h f refl (ms.length-array n)
  add_call-Stepped p d (Addition.key n) v h (f, _) =
      added p d (Addition.key n) _ _ v h f refl (ms.length-array n)
  add_call-Stepped p d (Addition.int z) v h (f, _) =
      added p d (Addition.int z) _ _ v h f refl (ms.length-int z)
  add_call-Stepped p d (Addition.str s) v h (f, _) =
      added p d (Addition.str s) _ _ v h f refl
        (length-append (mp.encode_strl (length s)) s ∙ ms.length-strl (length s))
  add_call-Stepped p d (Addition.sz s) v h (f, _) = added p d (Addition.sz s) _ _ v h f refl (
      length-append (mp.encode_strl (length (c_string s))) (c_string s)
      ∙ ms.length-strl (length (c_string s)))
  add_call-Stepped p d (Addition.bin s) v h (f, _) =
      added p d (Addition.bin s) _ _ v h f refl
        (length-append (mp.encode_binl (length s)) s ∙ ms.length-binl (length s))
  add_call-Stepped p d (Addition.bool b) v h (f, _) =
      added p d (Addition.bool b) _ _ v h f refl (ms.length-bool b)
  add_call-Stepped p d (Addition.op c field) v h (f, _) =
      added p d (Addition.op c field) _ _ v h f (simp append_assoc refl)
        (simp (length-append, ms.length-array, ms.length-uint) (omega (arith, ms.length-strl 1)))
  add_call-Stepped p d (Addition.splice field offset cut paste) v h (f, (o, c)) =
      added p d (Addition.splice field offset cut paste) _ _ v h f (simp append_assoc refl) (
        simp (length-append, ms.length-array, ms.length-uint)
          (omega (arith, ms.length-strl 1, ms.length-strl (length paste))))

  -- With a request under way, and a reserve function that keeps what was written and finds room
  -- for what is wanted or fails, every call of fewer than 2 ^ 31 bytes that begins a ping,
  -- select, insert, replace, call, eval or update, that adds a value, a tuple, a key or an update
  -- operation, or that sets the id (so not one that begins a delete, a login or a logout, nor one
  -- that formats) either gives NULL and changes nothing, or writes within the buffer: a call that
  -- begins a request closes the one under way and opens a new one behind it, a call that adds to
  -- it appends its encoding to the body and keeps the length field at the length of the request,
  -- and the call for the id replaces the id alone; a splice has numbers of the size of its field
  -- number.
  pub call_of-Stepped :
      (p : Tp) (d : Draft) (c : Command)
      → Represents mp p d
      → Honest p.reserve
      → Fits mp c
      → Stepped mp p (after mp d c) (call_of mp p c)
  unfolding call_of
  call_of-Stepped p d (begins b) v h f =
      subst
        (λ l.
          Stepped mp p
            (record { before = l; code = code_of (op_of mp b); id = 0; body = body_of mp b })
            (begin_call mp p b))
        v.contents (begin_call-Stepped p b v.within h f)
  call_of-Stepped p d (adds a) v h f = add_call-Stepped p d a v h f
  call_of-Stepped p d (sets_id n) v h f =
      let (q, e, w, at', r) = tp_reqid-Represents mp ms p d n v in
      let run : call_of mp p (sets_id n) ≡ done p.pos q = simp (call_of, e) refl in
      subst (Stepped mp p (record d { id = n })) (sym run) (w, refl, r)
