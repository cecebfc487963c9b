-- ===== src/Tp/Faults.antt =====
-- Requests of include/tp.h whose size is not that of what is written: `tp_delete` and `tp_auth`.
use bee_c.Base.{
  ℕ, ◌+◌, ◌-◌, ◌≤◌, ◌<◌, ◌^◌, ◌≡◌, refl, sym, ap, ◌∙◌, subst, inl, inr, true, false, Option, some,
  List, [], ◌∷◌, ◌++◌, length, length-append, take, leb, arith,
}
use Prim.Native.Nat.{min}
use bee_c.Base.Memory.{length-write_at}
use bee_c.Msgpuck.{Msgpuck, Measured}
use bee_c.Request.Key
use bee_c.Request.{code_of, Op}
use bee_c.Request.Auth.{scramble_prepare, scramble_size, beer_xor, chap_sha1}
use bee_c.Tp.{
  Tp, fault, store, started, five, header_start, sizeof_header, tp_ensure, tp_unused, begin_request,
  int_size, tp_delete, tp_auth,
}
use bee_c.Tp.Draft.{Honest, Stepped, fresh, tp_ensure-Ensured, int_size_small, length-five}
use bee_c.Tp.Steps.{tpi_encode_header-some, length-header_start, headed}
use bee_c.Tp.Padded.{behind, started-Padded}

module _ (mp : Msgpuck) (ms : Measured mp) where
  -- The three items that a request to delete writes of its body.
  abbrev pub delete_items : ℕ → List ℕ
  delete_items space = mp.encode_uint Key.space ++ mp.encode_uint space ++ mp.encode_uint Key.key

  -- The room that a request to delete asks for.
  abbrev pub delete_size : ℕ → ℕ
  delete_size space =
      sizeof_header mp (code_of Op.delete) + (length (delete_items space) + mp.sizeof_map 2)

  -- A request to delete has no map around its body: with a reserve function that keeps what was
  -- written and finds room for what is wanted or fails, unless the call gives NULL, behind the
  -- header stand the space and the place of the key themselves, and then, as part of the request,
  -- the bytes that the buffer already held at that place once room was made, as many as the start
  -- of the map would take, for a request below 2 ^ 31 bytes.
  pub tp_delete-Unopened :
      (p : Tp) (space : ℕ)
      → p.pos ≤ length p.buf
      → Honest p.reserve
      → delete_size space < 2 ^ 31
      → Stepped mp p
          (fresh mp p (code_of Op.delete) (
            delete_items space
            ++ behind
                (tp_ensure p (delete_size space)).1.buf
                (p.pos + sizeof_header mp (code_of Op.delete))
                (delete_items space)
                (mp.sizeof_map 2)))
          (tp_delete mp p space)
  unfolding tp_delete begin_request started
  tp_delete-Unopened p space within h small =
      let code = code_of Op.delete in
      let items = delete_items space in
      let total = delete_size space in
      let sz =
        mp.sizeof_map 2
        + mp.sizeof_uint Key.space
        + mp.sizeof_uint space
        + mp.sizeof_uint Key.key in
      let items_size : length items
          ≡ mp.sizeof_uint Key.space + mp.sizeof_uint space + mp.sizeof_uint Key.key =
        simp (length-append, ms.length-uint) refl in
      let size : int_size (sz + sizeof_header mp code) ≡ total =
        int_size_small mp (sz + sizeof_header mp code) (omega arith) ∙ omega arith in
      let held = λ (x : Option ℕ × Tp).
        behind x.1.buf (p.pos + sizeof_header mp code) items (mp.sizeof_map 2) in
      let goal = λ (x : Option ℕ × Tp).
        Stepped mp p (fresh mp p code (items ++ held x)) (started mp code total items x) in
      let sized : goal (tp_ensure p total) = elim (tp_ensure-Ensured mp p total h within) [
        | inl full ↦ subst goal (sym full) refl
        | inr (k, new, got, same, room) ↦
            subst goal (sym got)
              (started-Padded mp ms p new k code items (mp.sizeof_map 2) within same room)
      ] in
      subst
        (λ n.
          Stepped mp p (fresh mp p code (items ++ held (tp_ensure p total)))
            (started mp code n items (tp_ensure p n)))
        (sym size) sized

length-beer_xor : (as' bs : List ℕ) → length (beer_xor as' bs) ≡ min (length as') (length bs)
unfolding beer_xor
length-beer_xor [] bs = omega arith
length-beer_xor (a ∷ as') [] = omega arith
length-beer_xor (a ∷ as') (b ∷ bs) = omega (arith, length-beer_xor as' bs)

module _ (mp : Msgpuck) (ms : Measured mp) (sha1 : List ℕ → List ℕ)
    (base64_decode : List ℕ → List ℕ) where
  length-scramble_prepare :
      ((s : List ℕ) → length (sha1 s) ≡ 20)
      → (salt pass : List ℕ) → length (scramble_prepare sha1 salt pass) ≡ 20
  unfolding scramble_prepare
  length-scramble_prepare digest salt pass =
      let hash1 = sha1 pass in
      let mixed = sha1 (take scramble_size salt ++ sha1 hash1) in
      omega (
        arith,
        length-beer_xor hash1 mixed,
        digest pass,
        digest (take scramble_size salt ++ sha1 hash1),
      )

  -- Where the free space is what the size of a request to log in asks for, the request writes
  -- past the end of the buffer, whatever the name, the password and the salt are, for a digest of
  -- 20 bytes and a codec that takes one byte for the length 0.
  pub tp_auth-Overrun :
      (p : Tp) (salt user pass : List ℕ)
      → ((s : List ℕ) → length (sha1 s) ≡ 20)
      → length (mp.encode_strl 0) ≡ 1
      → p.pos ≤ length p.buf
      → tp_unused p
        ≡ mp.sizeof_array 2
          + mp.sizeof_str 0
          + mp.sizeof_str scramble_size
          + sizeof_header mp (code_of Op.auth)
      → length p.buf < 2 ^ 31
      → tp_auth mp sha1 base64_decode p salt user pass ≡ fault
  unfolding tp_auth begin_request started tp_ensure tp_unused store
  tp_auth-Overrun p salt user pass digest short within free small =
      let code = code_of Op.auth in
      let scramble = scramble_prepare sha1 (base64_decode (take 44 salt)) pass in
      let body =
        mp.encode_map 2
        ++ mp.encode_uint Key.username
        ++ (mp.encode_strl (length user) ++ user)
        ++ mp.encode_uint Key.tuple
        ++ mp.encode_array 2
        ++ (mp.encode_strl 9 ++ chap_sha1)
        ++ (mp.encode_strl scramble_size ++ scramble) in
      let total =
        mp.sizeof_array 2 + mp.sizeof_str 0 + mp.sizeof_str scramble_size + sizeof_header mp code in
      let scrambled = length-scramble_prepare digest (base64_decode (take 44 salt)) pass in
      let body_size : length body
          ≡ mp.sizeof_map 2
            + mp.sizeof_uint Key.username
            + (length (mp.encode_strl (length user)) + length user)
            + mp.sizeof_uint Key.tuple
            + mp.sizeof_array 2
            + (length (mp.encode_strl 9) + 9)
            + (length (mp.encode_strl scramble_size) + length scramble) =
        simp (length-append, ms.length-map, ms.length-uint, ms.length-array) refl in
      let header = length-header_start mp ms code in
      let size : int_size total ≡ total = int_size_small mp total (omega arith) in
      let room : leb total (length p.buf - p.pos) ≡ true = ground arith in
      let got = tpi_encode_header-some mp ms p p.buf code (omega arith) in
      let h = p.pos + 5 + length (header_start mp code) + 5 in
      let kept : length (headed mp ms p code p.buf).buf ≡ length p.buf =
        length-write_at p.buf (p.pos + 5) (header_start mp code ++ five mp 0)
          (omega (arith, length-append (header_start mp code) (five mp 0), length-five mp ms 0)) in
      let beyond : leb (h + length body) (length (headed mp ms p code p.buf).buf) ≡ false =
        ground (arith, ms.length-strl 0, ms.length-strl scramble_size) in
      let granted : tp_ensure p total ≡ (some 0, p) = simp (tp_ensure, room) refl in
      let last : started mp code total body (some 0, p) ≡ fault =
        simp (started, got, store, beyond) refl in
      ap (λ n. started mp code n body (tp_ensure p n)) size
      ∙ ap (started mp code total body) granted
      ∙ last
