-- ===== src/Request/Series.antt =====
-- Requests one after the other, to a memory stream and to a connection: the functions of beer/ that
-- write one request each, as a client calls them.
use bee_c.Base.{
  ℕ, ◌+◌, ◌%◌, ◌^◌, ◌<◌, ◌≡◌, refl, sym, ap, ap₂, ◌∙◌, subst, Bool, Bool-cases, inl, inr, true, not,
  ◌&&◌, Option, none, some, List, [], ◌∷◌, ◌++◌, append-nil, append_assoc, length, ◌==◌,
  if◌then◌else◌,
}
use bee_c.Msgpuck.{Msgpuck}
use bee_c.Buf.{Stream, Heap}
use bee_c.Buf.Append.{IsValid, contents}
use bee_c.Io.{StreamNet, Peer, bytes, failure, blocked, stuck}
use bee_c.Io
use bee_c.Io.Deliver.{IsValid as CanSend, Delivered, pending}
use bee_c.Request.Key
use bee_c.Request.{
  Op, Wire, ping, select, insert, replace, update, delete, call_16, eval, call, is_array, beer_ping,
  beer_select, beer_insert, beer_replace, beer_delete, beer_update, beer_call, beer_call_16,
  beer_eval,
}
use bee_c.Request.Packet.{Field, number, packet, Guarded}
use bee_c.Request.Sent.{
  ping-Sends, select-Sends, store_base-Sends, delete-Sends, update-Sends, rpc_base-Sends,
}
use bee_c.Request.Streams.{memory, Sends-Stored, connection, sent, Sends-Delivered}

-- The requests but those of an upsert and of a login, with the arguments of their functions; the name
-- of a function or an expression is not NULL.
pub data Query : Type 0 where
  pinged : Query
  selected : ℕ → ℕ → ℕ → ℕ → ℕ → List ℕ → Query
  inserted replaced : ℕ → List ℕ → Query
  deleted : ℕ → ℕ → List ℕ → Query
  updated : ℕ → ℕ → List ℕ → List ℕ → Query
  called called_16 evaluated : List ℕ → List ℕ → Query

abbrev pub op_of : Query → Op
op_of pinged = ping
op_of (selected space index limit offset iterator key) = select
op_of (inserted space tuple) = insert
op_of (replaced space tuple) = replace
op_of (deleted space index key) = delete
op_of (updated space index key ops) = update
op_of (called name args) = call
op_of (called_16 name args) = call_16
op_of (evaluated text args) = eval

module _ (mp : Msgpuck) where
  abbrev named : ℕ → List ℕ → List ℕ → List Field
  named key name args = (key, mp.encode_strl (length name) ++ name) ∷ (Key.tuple, args) ∷ []

  -- The fields of a request, as the protocol has them.
  abbrev pub fields_of_query : Query → List Field
  fields_of_query pinged = []
  fields_of_query (selected space index limit offset iterator key) =
      number mp Key.space space
      ∷ number mp Key.index index
      ∷ number mp Key.limit limit
      ∷ number mp Key.offset offset
      ∷ number mp Key.iterator iterator
      ∷ (Key.key, key)
      ∷ []
  fields_of_query (inserted space tuple) = number mp Key.space space ∷ (Key.tuple, tuple) ∷ []
  fields_of_query (replaced space tuple) = number mp Key.space space ∷ (Key.tuple, tuple) ∷ []
  fields_of_query (deleted space index key) =
      number mp Key.space space ∷ number mp Key.index index ∷ (Key.key, key) ∷ []
  fields_of_query (updated space index key ops) =
      number mp Key.space space ∷ number mp Key.index index ∷ (Key.key, key) ∷ (Key.tuple, ops) ∷ []
  fields_of_query (called name args) = named Key.function name args
  fields_of_query (called_16 name args) = named Key.function name args
  fields_of_query (evaluated text args) = named Key.expression text args

  abbrev pub packet_of : ℕ → Query → List ℕ
  packet_of id q = packet mp (op_of q) id (fields_of_query q)

  module _ {S : Type 0} (w : Wire S) where
    abbrev named_well : List ℕ → List ℕ → Bool
    named_well name args = not (length name == 0) && is_array mp w args

    -- Keys, tuples, operations and arguments that are one whole array each, and a name that is not empty.
    abbrev pub is_wellformed : Query → Bool
    is_wellformed pinged = true
    is_wellformed (selected space index limit offset iterator key) = is_array mp w key
    is_wellformed (inserted space tuple) = is_array mp w tuple
    is_wellformed (replaced space tuple) = is_array mp w tuple
    is_wellformed (deleted space index key) = is_array mp w key
    is_wellformed (updated space index key ops) = is_array mp w key && is_array mp w ops
    is_wellformed (called name args) = named_well name args
    is_wellformed (called_16 name args) = named_well name args
    is_wellformed (evaluated text args) = named_well text args

    -- The call for a request.
    unfoldable pub query : Query → S → Option ℕ × S
    unfolding beer_ping beer_select beer_insert beer_replace beer_delete beer_update beer_call
        beer_call_16 beer_eval
    query pinged s = beer_ping mp w s
    query (selected space index limit offset iterator key) s =
        beer_select mp w s space index limit offset iterator key
    query (inserted space tuple) s = beer_insert mp w s space tuple
    query (replaced space tuple) s = beer_replace mp w s space tuple
    query (deleted space index key) s = beer_delete mp w s space index key
    query (updated space index key ops) s = beer_update mp w s space index key ops
    query (called name args) s = beer_call mp w s (some name) args
    query (called_16 name args) s = beer_call_16 mp w s (some name) args
    query (evaluated text args) s = beer_eval mp w s (some text) args

    -- The calls in order, with the result of each.
    unfoldable pub queries : List Query → S → List (Option ℕ) × S
    unfolding query
    queries [] s = ([], s)
    queries (q ∷ qs) s = let (r, t) = query q s in let (rs, u) = queries qs t in (r ∷ rs, u)

    pub query-Guarded :
        (q : Query) (s : S)
        → Guarded mp w (is_wellformed q) (op_of q) (fields_of_query q) s (query q s)
    unfolding query beer_insert beer_replace beer_call beer_call_16 beer_eval
    query-Guarded pinged s = ping-Sends mp w s
    query-Guarded (selected space index limit offset iterator key) s =
        select-Sends mp w s space index limit offset iterator key
    query-Guarded (inserted space tuple) s = store_base-Sends mp w s space tuple insert
    query-Guarded (replaced space tuple) s = store_base-Sends mp w s space tuple replace
    query-Guarded (deleted space index key) s = delete-Sends mp w s space index key
    query-Guarded (updated space index key ops) s = update-Sends mp w s space index key ops
    query-Guarded (called name args) s = rpc_base-Sends mp w s name args call
    query-Guarded (called_16 name args) s = rpc_base-Sends mp w s name args call_16
    query-Guarded (evaluated text args) s = rpc_base-Sends mp w s text args eval

    -- The packets of requests from an id on: only those that are well formed have one, and each
    -- takes an id.
    abbrev pub packets : ℕ → List Query → List ℕ
    packets id [] = []
    packets id (q ∷ qs) =
        let later = packets ((id + 1) % 2 ^ 64) qs in
        let rest = packets id qs in if is_wellformed q then packet_of id q ++ later else rest

    -- Their sizes, and none for the others.
    abbrev pub sizes : ℕ → List Query → List (Option ℕ)
    sizes id [] = []
    sizes id (q ∷ qs) =
        let later = some (length (packet_of id q)) ∷ sizes ((id + 1) % 2 ^ 64) qs in
        let rest = none ∷ sizes id qs in if is_wellformed q then later else rest

module _ (mp : Msgpuck) (h : Heap) (willing : (k n : ℕ) → h.grants k n ≡ true) where
  -- What requests leave of a memory stream.
  abbrev pub Filled : Stream → List (Option ℕ) → List ℕ → List (Option ℕ) × Stream → Type 0
  Filled s rs bs x = (x.0 ≡ rs) × IsValid x.1 × (contents x.1 ≡ contents s ++ bs)

  -- Any pings, selects, inserts, replaces, deletes, updates, calls and evaluations, in any order,
  -- written to a valid memory stream with an allocator that never fails, append their packets
  -- (the length, the header with the id, the map of the fields of the request) to its contents in
  -- order, with one id after the other, and return their sizes; a request whose arguments are not
  -- whole, or whose name is empty, gives -1 and neither bytes nor an id.
  pub queries-Filled :
      (qs : List Query) (s : Stream)
      → IsValid s
      → Filled s
          (sizes mp (memory h) s.reqid qs)
          (packets mp (memory h) s.reqid qs)
          (queries mp (memory h) qs s)
  unfolding queries
  queries-Filled [] s v = (refl, v, sym (append-nil (contents s)))
  queries-Filled (q ∷ qs) s v =
      let w = memory h in
      let x = query mp w q s in
      let one = query-Guarded mp w q s in
      elim (Bool-cases (is_wellformed mp w q)) [
        | inl y ↦
            let sends = subst (λ b. Guarded mp w b (op_of q) (fields_of_query mp q) s x) y one in
            let st = Sends-Stored mp h (op_of q) (fields_of_query mp q) s x willing v sends in
            let (rs, v', bs) = queries-Filled qs x.1 st.valid in
            rw y (
              ap₂ ◌∷◌ st.result (rs ∙ ap (λ n. sizes mp w n qs) st.id),
              v',
              bs
                  ∙ ap₂ ◌++◌ st.bytes' (ap (λ n. packets mp w n qs) st.id)
                  ∙ append_assoc (contents s) (packet_of mp s.reqid q)
                      (packets mp w ((s.reqid + 1) % 2 ^ 64) qs),
            )
        | inr n ↦
            let same = subst (λ b. Guarded mp w b (op_of q) (fields_of_query mp q) s x) n one in
            rw n (
              subst
                (λ z.
                  Filled s (none ∷ sizes mp w s.reqid qs) (packets mp w s.reqid qs)
                    (z.0 ∷ (queries mp w qs z.1).0, (queries mp w qs z.1).1))
                (sym same)
                (let (rs, v', bs) = queries-Filled qs s v in (ap (λ l. none ∷ l) rs, v', bs)))
      ]

abbrev pub AllDone : List (Option ℕ) → Type 0
AllDone [] = Unit {0}
AllDone (none ∷ rs) = ⊥
AllDone (some n ∷ rs) = AllDone rs

module _ (mp : Msgpuck) where
  abbrev Link : Type 0
  Link = ℕ × StreamNet × Peer

  -- Packets of fewer than 2 ^ 63 bytes each.
  abbrev pub AllSmall : ℕ → List Query → Type 0
  AllSmall id [] = Unit {0}
  AllSmall id (q ∷ qs) = (length (packet_of mp id q) < 2 ^ 63) × AllSmall ((id + 1) % 2 ^ 64) qs

  -- What requests, none of which fails, leave of a connection.
  abbrev pub Carried :
      StreamNet
      → Peer
      → List (Option ℕ)
      → List ℕ
      → List (Option ℕ) × (ℕ × StreamNet × Peer)
      → Type 0
  Carried s p rs bs x =
      (x.0 ≡ rs) × (x.1.2.wire ++ pending x.1.1 ≡ (p.wire ++ pending s) ++ bs) × CanSend x.1.1.sbuf

  abbrev Later : List Query → ℕ → Type 0
  Later qs n =
      (s : StreamNet) (p : Peer)
      → CanSend s.sbuf
      → AllDone (queries mp connection qs (n, s, p)).0
      → Carried s p (sizes mp connection n qs) (packets mp connection n qs)
          (queries mp connection qs (n, s, p))

  -- The first request, once it was sent.
  first-Carried :
      (qs : List Query) (n : ℕ) (s : StreamNet) (p : Peer) (bs : List ℕ)
      (y : Io.Ret × StreamNet × Peer)
      → Delivered s p bs y
      → Later qs n
      → let rest = queries mp connection qs (n, y.1, y.2) in
        AllDone (sent y.0 ∷ rest.0)
        → Carried s p
            (some (length bs) ∷ sizes mp connection n qs)
            (bs ++ packets mp connection n qs)
            (sent y.0 ∷ rest.0, rest.1)
  first-Carried qs n s p bs (bytes k, t, q) (size, sum, valid, same) later done =
      let (rs, sum', valid') = later t q valid done in
      (
        ap₂ (λ j l. some j ∷ l) size rs,
        sum'
            ∙ ap (λ l. l ++ packets mp connection n qs) sum
            ∙ append_assoc (p.wire ++ pending s) bs (packets mp connection n qs),
        valid',
      )
  first-Carried qs n s p bs (failure, t, q) d later done = absurd done
  first-Carried qs n s p bs (blocked, t, q) d later done = absurd done
  first-Carried qs n s p bs (stuck, t, q) d later done = absurd done

  -- Any pings, selects, inserts, replaces, deletes, updates, calls and evaluations of fewer than
  -- 2 ^ 63 bytes each, written to a connection with a valid send buffer so that none fails, have
  -- put their packets in order, with one id after the other, behind what was sent and what waited
  -- in the buffer before, whatever the kernel took at a time; they leave a valid buffer and
  -- return their sizes.
  pub queries-Carried :
      (qs : List Query) (n : ℕ) (s : StreamNet) (p : Peer)
      → CanSend s.sbuf
      → AllSmall n qs
      → AllDone (queries mp connection qs (n, s, p)).0
      → Carried s p
          (sizes mp connection n qs)
          (packets mp connection n qs)
          (queries mp connection qs (n, s, p))
  unfolding queries
  queries-Carried [] n s p v small done = (refl, sym (append-nil (p.wire ++ pending s)), v)
  queries-Carried (q ∷ qs) n s p v (fits, small) done =
      let w = connection in
      let x = query mp w q (n, s, p) in
      let one = query-Guarded mp w q (n, s, p) in
      let id = (n + 1) % 2 ^ 64 in
      let all = λ (z : Option ℕ × Link). z.0 ∷ (queries mp w qs z.1).0 in
      elim (Bool-cases (is_wellformed mp w q)) [
        | inl y ↦
            let sends =
              subst (λ b. Guarded mp w b (op_of q) (fields_of_query mp q) (n, s, p) x) y one in
            let (z, e, d) =
              Sends-Delivered mp (op_of q) (fields_of_query mp q) n s p x v fits sends in
            let later : Later qs id = λ t r u. λ done'. queries-Carried qs id t r u small done' in
            rw y (
              subst
                (λ z'.
                  Carried s p (some (length (packet_of mp n q)) ∷ sizes mp w id qs)
                    (packet_of mp n q ++ packets mp w id qs) (all z', (queries mp w qs z'.1).1))
                (sym e)
                (first-Carried qs id s p (packet_of mp n q) z d later
                  (subst (λ z'. AllDone (all z')) e done)))
        | inr m ↦
            let same =
              subst (λ b. Guarded mp w b (op_of q) (fields_of_query mp q) (n, s, p) x) m one in
            absurd (subst (λ z. AllDone (all z)) same done)
      ]
