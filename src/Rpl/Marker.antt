-- ===== src/Rpl/Marker.antt =====
-- The search for the marker of a record in beerrpl/beer_log.c, against the positions where it stands.
use bee_c.Base.{
  ℕ, suc, ◌+◌, ◌*◌, ◌/◌, ◌^◌, ◌<◌, ◌≡◌, refl, sym, ap, ◌∙◌, subst, false, some, List, [], ◌∷◌, ◌++◌,
  length, length-append, drop, ◌==◌, arith,
}
use bee_c.Rpl.{u32, marker_v11, seek_marker}

abbrev pub marker_bytes : List ℕ
marker_bytes = 237 ∷ 171 ∷ 11 ∷ 186 ∷ []

abbrev pub AllBytes : List ℕ → Type 0
AllBytes [] = Unit {0}
AllBytes (c ∷ cs) = (c < 256) × AllBytes cs

-- No marker begins before the one that stands behind the bytes.
abbrev pub Clear : List ℕ → Type 0
Clear junk = (i : ℕ) → i < length junk → (u32 (drop i (junk ++ marker_bytes)) == marker_v11) ≡ false

seek-here : (rest : List ℕ) → seek_marker marker_v11 rest ≡ some 0
unfolding seek_marker
seek-here [] = refl
seek-here (c ∷ cs) = refl

-- Four bytes stand at the start of whatever ends with the marker.
four : (junk : List ℕ) → (a b c d : ℕ) × (w : List ℕ) × (junk ++ marker_bytes ≡ a ∷ b ∷ c ∷ d ∷ w)
four [] = (237, 171, 11, 186, [], refl)
four (a ∷ []) = (a, 237, 171, 11, 186 ∷ [], refl)
four (a ∷ b ∷ []) = (a, b, 237, 171, 11 ∷ 186 ∷ [], refl)
four (a ∷ b ∷ c ∷ []) = (a, b, c, 237, 171 ∷ 11 ∷ 186 ∷ [], refl)
four (a ∷ b ∷ c ∷ d ∷ junk) = (a, b, c, d, junk ++ marker_bytes, refl)

seek-step :
    (x a b c d k : ℕ) (w rest : List ℕ)
    → x < 256
    → (u32 (x ∷ a ∷ b ∷ c ∷ []) == marker_v11) ≡ false
    → seek_marker (u32 (a ∷ b ∷ c ∷ d ∷ [])) rest ≡ some k
    → seek_marker (u32 (x ∷ a ∷ b ∷ c ∷ [])) (d ∷ rest) ≡ some (suc k)
unfolding seek_marker
seek-step x a b c d k w rest h n found =
    let next : u32 (x ∷ a ∷ b ∷ c ∷ []) / 256 + d * 2 ^ 24 ≡ u32 (a ∷ b ∷ c ∷ d ∷ []) =
      omega arith in
    rw (n, next, found) refl

-- Behind bytes where no marker begins, the search finds the marker.
seek-found :
    (junk rest : List ℕ)
    → AllBytes junk
    → Clear junk
    → seek_marker (u32 (junk ++ marker_bytes)) (drop 4 (junk ++ marker_bytes) ++ rest)
      ≡ some (length junk)
seek-found [] rest all clear = seek-here rest
seek-found (x ∷ junk) rest (h, all) clear =
    let (a, b, c, d, w, e) = four junk in
    let here = subst (λ v. (u32 (x ∷ v) == marker_v11) ≡ false) e (clear 0 (omega arith)) in
    let later =
      subst (λ v. seek_marker (u32 v) (drop 4 v ++ rest) ≡ some (length junk)) e
        (seek-found junk rest all (λ i k. clear (suc i) (omega arith))) in
    subst (λ v. seek_marker (u32 (x ∷ v)) (drop 3 v ++ rest) ≡ some (suc (length junk))) (sym e)
      (seek-step x a b c d (length junk) w (w ++ rest) h here later)

length-four :
    (junk : List ℕ) (a b c d : ℕ) (w : List ℕ)
    → junk ++ marker_bytes ≡ a ∷ b ∷ c ∷ d ∷ w
    → length w ≡ length junk
length-four junk a b c d w e =
    let whole : length (junk ++ marker_bytes) ≡ length w + 4 = ap length e ∙ omega arith in
    omega (arith, length-append junk marker_bytes, whole)

-- The first four bytes, with what the search from there finds.
pub sought :
    (junk rest : List ℕ)
    → AllBytes junk
    → Clear junk
    → (a b c d : ℕ) × (w : List ℕ) × (junk ++ marker_bytes ≡ a ∷ b ∷ c ∷ d ∷ w)
      × (length w ≡ length junk)
      × (seek_marker (u32 (a ∷ b ∷ c ∷ d ∷ [])) (w ++ rest) ≡ some (length junk))
sought junk rest all clear =
    let (a, b, c, d, w, e) = four junk in
    (
      a,
      b,
      c,
      d,
      w,
      e,
      length-four junk a b c d w e,
      subst (λ v. seek_marker (u32 v) (drop 4 v ++ rest) ≡ some (length junk)) e
          (seek-found junk rest all clear),
    )
