-- ===== src/Buf/Tests.antt =====
-- Runs of the memory streams.
use bee_c.Base.{◌≡◌, refl, [], ◌∷◌}
use bee_c.Buf.{ok, buf_writev}
use bee_c.Buf.Sample.{heap, stream, stream-IsValid}
use bee_c.Buf.Append.{Appended}
use bee_c.Buf.Vector.{buf_writev-Appended}

buf_writev-Appended_example :
    ((buf_writev heap stream ((3 ∷ []) ∷ (4 ∷ 5 ∷ []) ∷ [])).0 ≡ ok 3)
    × Appended stream (buf_writev heap stream ((3 ∷ []) ∷ (4 ∷ 5 ∷ []) ∷ [])).1 (3 ∷ 4 ∷ 5 ∷ [])
buf_writev-Appended_example =
    buf_writev-Appended heap (λ k n. refl) stream ((3 ∷ []) ∷ (4 ∷ 5 ∷ []) ∷ []) stream-IsValid
