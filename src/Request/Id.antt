-- ===== src/Request/Id.antt =====
-- The id that `beer_request_compile` (beer/beer_request.c) returns.
use bee_c.Base.{ℕ, ◌-◌, ◌%◌, ◌^◌, ◌≡◌, ◌≢◌, sym, ap, ◌∙◌, Bool-cases, inl, inr, Option, none, some}
use bee_c.Base.{◌==◌, if◌then◌else◌, arith}
use bee_c.Msgpuck.{Msgpuck}
use bee_c.Request.{
  Op, Wire, Request, Draft, restarted, answered, send_draft, request_writeout, request_compile,
  next, draft,
}

module _ (mp : Msgpuck) {S : Type 0} (w : Wire S)
    (set-law : (s : S) (n : ℕ) → w.reqid (w.set_reqid s n) ≡ n) where
  -- The id of a stream that was restarted is neither INT64_MAX nor, as an `int64_t`, -1.
  restarted_lem : (s : S) → w.reqid (restarted mp w s (some (2 ^ 63 - 1))) % 2 ^ 63 ≢ 2 ^ 63 - 1
  restarted_lem s = elim (Bool-cases (w.reqid s % 2 ^ 63 == 2 ^ 63 - 1)) [
    | inl y ↦ rw (y, set-law) (λ e. omega (arith, e))
    | inr n ↦ rw n (λ e. absurd (ground (arith, n, e)))
  ]

  some-injective : {m n : ℕ} → some m ≡ some n → m ≡ n
  some-injective e = cc e

  -- A result is the id that was used.
  answered-id :
      (n m : ℕ) (sync : ℕ) (x : Option ℕ × S)
      → (if (answered mp w n (some sync) x).0 then (answered mp w n (some sync) x).1 else none)
        ≡ some m
      → m ≡ n
  answered-id n m sync (none, t) e = absurd (cc e)
  answered-id n m sync (some k, t) e = cc e

  send_draft-id :
      (n m : ℕ) (tp : Op) (sync : ℕ) (s : S) (d : Option Draft)
      → (if (send_draft mp w n tp (some sync) s d).0
          then (send_draft mp w n tp (some sync) s d).1
          else none)
        ≡ some m
      → m ≡ n
  unfolding send_draft
  send_draft-id n m tp sync s none e = absurd (cc e)
  send_draft-id n m tp sync s (some d) e = answered-id n m sync _ e

  -- On a stream whose id reads as it was set, the id that compiling a request returns is the id
  -- that was used, and it is neither INT64_MAX nor, as an int64_t, the -1 of an error.
  pub request_compile-id :
      (s : S) (r : Request) (m : ℕ)
      → (request_compile mp w s r).0 ≡ some m
      → ((request_compile mp w s r).1.sync ≡ m) × (m % 2 ^ 63 ≢ 2 ^ 63 - 1)
  unfolding request_compile request_writeout
  request_compile-id s r m e =
      let t = restarted mp w s (some (2 ^ 63 - 1)) in
      let same : m ≡ w.reqid t =
        send_draft-id (w.reqid t) m r.type (2 ^ 63 - 1) (next w t) (draft mp r) e in
      (sym same, λ x. restarted_lem s (ap (λ k. k % 2 ^ 63) (sym same) ∙ x))
