-- ===== src/Reply/Tests.antt =====
-- Replies in a small codec, where a number, an array and a map begin with a tag of their own.
use bee_c.Base.{ℕ, ◌≡◌, refl, true, false, some, List, [], ◌∷◌, ◌++◌, arith}
use bee_c.Msgpuck.Tagged.{tagged}
use bee_c.Reply.{reply_init, beer_reply, reply_from, reply_cb}
use bee_c.Reply.RoundTrip.{Decodes, payload, data_body, with_result}
use bee_c.Reply.Whole.{beer_reply-whole}
use bee_c.Reply.Failure.{Outcome, reply_from-Outcome}

tagged-Decodes : Decodes tagged
tagged-Decodes = record {
  uint_type = λ n rest. refl;
  uint_value = λ n rest h. refl;
  map_type = λ n rest. refl;
  map_value = λ n rest h. refl;
}

-- An array of one element.
abbrev result : List ℕ
result = 5 ∷ 1 ∷ 7 ∷ []

abbrev bytes : List ℕ
bytes = payload tagged 0 3 80 (data_body tagged result)

abbrev prefix : List ℕ
prefix = 1 ∷ 21 ∷ 0 ∷ 0 ∷ 0 ∷ []

beer_reply-whole_example :
    beer_reply tagged (λ n. true) (reply_init false) (prefix ++ (bytes ++ (9 ∷ []))) ≡ (
      some 0,
      some 26,
      with_result (record (reply_init false) { buf = some bytes; buf_size = 21 }) 0 3 80 result,
    )
unfolding reply_init
beer_reply-whole_example =
    beer_reply-whole tagged (λ n. true) tagged-Decodes (reply_init false) prefix result (9 ∷ []) 0 3
      80
      (record {
        code_fits = omega arith;
        sync_fits = omega arith;
        schema_fits = omega arith;
        head_checks = (1, refl);
        body_checks = (1, refl);
        is_array = refl;
        whole = refl;
      })
      (record {
        five = refl;
        type = λ rest. refl;
        value = λ rest. refl;
        type' = refl;
        value' = refl;
      })
      refl

-- A reply whose header has a code and a key that is none of a header's.
abbrev half : List ℕ
half = 1 ∷ 10 ∷ 0 ∷ 0 ∷ 0 ∷ 6 ∷ 2 ∷ 1 ∷ 0 ∷ 1 ∷ 9 ∷ 1 ∷ 77 ∷ 1 ∷ 4 ∷ []

reply_from-Outcome_example :
    Outcome true (reply_from tagged (reply_cb half) (λ n. true) (reply_init true) 0)
unfolding reply_init
reply_from-Outcome_example =
    reply_from-Outcome tagged (reply_cb half) (λ n. true) (reply_init true) 0
