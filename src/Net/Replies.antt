-- ===== src/Net/Replies.antt =====
-- The count of the replies to come of a connection (beer/beer_net.c), and the loops that it ends.
use bee_c.Base.{
  ℕ, zero, suc, ◌+◌, ◌-◌, ◌%◌, ◌^◌, ◌<◌, ◌≡◌, refl, ◌∙◌, Bool, Bool-cases, inl, inr, true, false,
  not, Option, none, some, List, [], ◌∷◌, ◌==◌, if◌then◌else◌, arith,
}
use bee_c.Msgpuck.{Msgpuck, MpType}
use bee_c.Io.{Peer}
use bee_c.Reply.{
  Parsing, going, rollback, rolled_back, Reply, Receive, reply_from, sized, received, finished,
  is_type, reply_init,
}
use bee_c.Schema.{Assoc, Ival}
use bee_c.Net.{Net, counted, net_write, net_read, net_reply}
use bee_c.Net.Login.{Conn, Loop, ended, broken, stuck, reload_loop, is_null}

module _ {S : Type 0} (mp : Msgpuck) (rcv : Receive S) (granted : ℕ → Bool) (count : S → ℕ)
    (keeps : (s : S) (n : ℕ) → count (rcv s n).1 ≡ count s) where
  finished-kept :
      (s : S) (x : Parsing (ℕ × Reply)) → count (finished mp rcv granted s x).2 ≡ count s
  unfolding finished rolled_back
  finished-kept s (rollback r) = refl
  finished-kept s (going (rc, r)) = refl

  rolled_back-kept : (r : Reply) (s : S) → count (rolled_back mp rcv granted r s).2 ≡ count s
  unfolding rolled_back
  rolled_back-kept r s = refl

  received-kept :
      (r : Reply) (x : Option (List ℕ) × S) → count (received mp rcv granted r x).2 ≡ count x.1
  unfolding received
  received-kept r (none, s) = rolled_back-kept r s
  received-kept r (some buf, s) = finished-kept s _

  if-kept :
      (b : Bool) (x y : Option ℕ × Reply × S) (c : ℕ)
      → count x.2 ≡ c
      → count y.2 ≡ c
      → count (if b then x else y).2 ≡ c
  if-kept true x y c h k = h
  if-kept false x y c h k = k

  sized-kept :
      (r : Reply) (x : Option (List ℕ) × S) → count (sized mp rcv granted r x).2 ≡ count x.1
  unfolding sized
  sized-kept r (none, s) = rolled_back-kept r s
  sized-kept r (some prefix, s) =
      let size = (mp.decode_uint prefix).0 in
      let r' : Reply = record r { buf_size = size } in
      if-kept (not (is_type mp MpType.mp_uint prefix)) _ _ (count s) (rolled_back-kept r s) (
        if-kept (not (granted size)) _ _ (count s) (rolled_back-kept r' s)
          (received-kept (record r' { buf = some [] }) (rcv s size) ∙ keeps s size))

  -- Reading a reply changes nothing of the state that its receive function keeps.
  pub reply_from-kept : (r : Reply) (s : S) → count (reply_from mp rcv granted r s).2 ≡ count s
  unfolding reply_from reply_init
  reply_from-kept r s = sized-kept (reply_init r.alloc) (rcv s 5) ∙ keeps s 5

counted-sum :
    (o : Option ℕ) (c n : ℕ)
    → (counted o c + n) % 2 ^ 32 ≡ (c + (elim o [ none ↦ n | some k ↦ n + 1 ])) % 2 ^ 32
counted-sum none c n = refl
counted-sum (some k) c n = omega arith

counted-below : (o : Option ℕ) (c : ℕ) → c < 2 ^ 32 → counted o c < 2 ^ 32
counted-below none c h = h
counted-below (some k) c h = omega arith

module _ {C : Type 0} (mp : Msgpuck) (memory : ℕ → Bool) where
  -- A reply that is read is one less to come.
  net_reply-less :
      (r : Reply) (x : Net C × Peer)
      → (x.0.wrcnt == 0) ≡ false
      → (net_reply mp memory r x).2.0.wrcnt ≡ x.0.wrcnt - 1
  unfolding net_reply net_read
  net_reply-less r x n =
      let y : Net C × Peer = (record (x.0) { wrcnt = x.0.wrcnt - 1 }, x.1) in
      rw n (reply_from-kept mp net_read memory (λ (z : Net C × Peer). z.0.wrcnt) (λ s k. refl) r y)

  -- n replies, whatever each of them is.
  unfoldable pub reads : ℕ → Net C × Peer → Net C × Peer
  unfolding net_reply reply_init
  reads zero x = x
  reads (suc n) x = reads n (net_reply mp memory (reply_init false) x).2

  -- The writes, and how many of them do not fail.
  unfoldable pub writes : List (List ℕ) → Net C × Peer → ℕ × (Net C × Peer)
  unfolding net_write
  writes [] x = (0, x)
  writes (data' ∷ rest) x =
      let (r, y) = net_write x data' in
      let (n, z) = writes rest y in (elim r [ none ↦ n | some k ↦ n + 1 ], z)

  reads-drained : (n : ℕ) (x : Net C × Peer) → x.0.wrcnt ≡ n → (reads n x).0.wrcnt ≡ 0
  unfolding reads
  reads-drained zero x e = e
  reads-drained (suc n) x e =
      let more : (x.0.wrcnt == 0) ≡ false = ground arith in
      let less = net_reply-less (reply_init false) x more in
      reads-drained n (net_reply mp memory (reply_init false) x).2 (omega arith)

  writes-counted :
      (ds : List (List ℕ)) (x : Net C × Peer)
      → x.0.wrcnt < 2 ^ 32
      → (writes ds x).1.0.wrcnt ≡ (x.0.wrcnt + (writes ds x).0) % 2 ^ 32
  unfolding writes net_write
  writes-counted [] x h = omega arith
  writes-counted (d ∷ ds) x h =
      let r = (net_write x d).0 in
      let y = (net_write x d).1 in
      writes-counted ds y (counted-below r x.0.wrcnt h) ∙ counted-sum r x.0.wrcnt (writes ds y).0

  -- From a connection that waits for no reply, after any writes, fewer than 2 ^ 32, the
  -- connection waits for as many replies as writes did not fail; once so many were read, whatever
  -- they were, one more call gives 1 at once, and changes neither the connection nor the reply.
  pub writes-drained :
      (ds : List (List ℕ)) (r : Reply) (x : Net C × Peer)
      → x.0.wrcnt ≡ 0
      → (writes ds x).0 < 2 ^ 32
      → let (n, y) = writes ds x in
        (y.0.wrcnt ≡ n) × (net_reply mp memory r (reads n y) ≡ (some 1, r, reads n y))
  unfolding net_reply
  writes-drained ds r x e few =
      let (n, y) = writes ds x in
      let waits : y.0.wrcnt ≡ n = omega (arith, writes-counted ds x (omega arith)) in
      let drained = reads-drained n y waits in
      let none_left : ((reads n y).0.wrcnt == 0) ≡ true = ground arith in (waits, rw none_left refl)

module _ {SM IM : Type 0} (sm : Assoc SM ℕ) (im : Assoc IM Ival) (mp : Msgpuck)
    (fill memory : ℕ → Bool) where
  abbrev pub Ends : Loop sm im mp fill memory → Type 0
  Ends (stuck x) = ⊥
  Ends _ = Unit {0}

  if-Ends :
      (b : Bool) (x y : Loop sm im mp fill memory) → Ends x → Ends y → Ends (if b then x else y)
  if-Ends true x y h k = h
  if-Ends false x y h k = k

  round-Ends :
      (rc : Option ℕ) (sync sloaded : ℕ) (aside : Option Reply) (fine : Bool)
      (y : Conn sm im mp fill memory) (spaces indexes later : Loop sm im mp fill memory)
      → Ends spaces
      → Ends indexes
      → Ends later
      → Ends (elim rc [
        | none ↦ ended sloaded aside y
        | some code ↦
            if code == 1
            then ended sloaded aside y
            else if sync == 127
            then (if fine then spaces else broken y)
            else if sync == 128
            then (if fine then (if sloaded % 2 == 1 then indexes else later) else broken y)
            else broken y
      ])
  round-Ends none sync sloaded aside fine y spaces indexes later a b c = tt
  round-Ends (some code) sync sloaded aside fine y spaces indexes later a b c =
      let second_half : Ends
          (if fine then (if sloaded % 2 == 1 then indexes else later) else broken y) =
        if-Ends fine _ (broken y) (if-Ends (sloaded % 2 == 1) indexes later b c) tt in
      let unknown : Ends (
          if sync == 128
          then (if fine then (if sloaded % 2 == 1 then indexes else later) else broken y)
          else broken y) =
        if-Ends (sync == 128) _ (broken y) second_half tt in
      let known : Ends (
          if sync == 127
          then (if fine then spaces else broken y)
          else if sync == 128
          then (if fine then (if sloaded % 2 == 1 then indexes else later) else broken y)
          else broken y) =
        if-Ends (sync == 127) _ _ (if-Ends fine spaces (broken y) a tt) unknown in
      if-Ends (code == 1) (ended sloaded aside y) _ tt known

  -- With more fuel than there are replies to come, the loop over the replies to the two selects
  -- ends and never runs out of fuel, whatever the server sends and whether or not memory is
  -- found.
  pub reload_loop-Ends :
      (fuel sloaded : ℕ) (aside : Option Reply) (x : Conn sm im mp fill memory)
      → x.0.wrcnt < fuel
      → Ends (reload_loop sm im mp fill memory fuel sloaded aside x)
  unfolding reload_loop net_reply
  reload_loop-Ends zero sloaded aside x h = absurd (ground arith)
  reload_loop-Ends (suc fuel) sloaded aside x h = elim (Bool-cases (x.0.wrcnt == 0)) [
    | inl e ↦ rw (reload_loop, net_reply, e) tt
    | inr n ↦
        let (rc, r, y) = net_reply mp memory (reply_init false) x in
        let less = net_reply-less mp memory (reply_init false) x n in
        let left : y.0.wrcnt < fuel = ground arith in
        round-Ends rc r.sync sloaded aside (is_null r.error) y _ _ _
          (reload_loop-Ends fuel (sloaded + 1) aside _ left)
          (reload_loop-Ends fuel (sloaded + 2) aside _ left)
          (reload_loop-Ends fuel sloaded (some r) y left)
  ]
