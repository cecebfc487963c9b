-- ===== src/Io/State.antt =====
-- `enum beer_error`, `struct beer_iob`, the part of `struct beer_stream_net` that the input and
-- output functions use, and the other end of the connection.
use bee_c.Base.{ℕ, ◌+◌, ◌%◌, ◌^◌, Bool, Option, List}

pub data Error : Type 0 where
  eok efail ememory esystem ebig esize eresolve etmout ebadval elogin elast : Error

-- `buf` is NULL (`none`) in an unbuffered connection; `tx` and `txv` say whether the user's
-- callbacks are set.
pub record Iob : Type 0 where
  pub buf : Option (List ℕ)
  pub off : ℕ
  pub top : ℕ
  pub size : ℕ
  pub tx : Bool
  pub txv : Bool

-- `fd` is `none` for -1.
pub record StreamNet : Type 0 where
  pub connected : Bool
  pub fd : Option ℕ
  pub sbuf : Iob
  pub rbuf : Iob
  pub error : Error
  pub errno_ : ℕ

-- What one system call or callback answers. `taken k` moves k bytes, or as many as the call
-- offers or the peer has sent where that is less: no such call moves more. `failed e` is a
-- return of -1 with errno e.
pub data Answer : Type 0 where
  taken : ℕ → Answer
  failed : ℕ → Answer

-- The other end: the answers to come, the bytes that it got, the bytes that it has sent and no
-- call has taken yet, and the value of errno.
pub record Peer : Type 0 where
  pub answers : List Answer
  pub wire : List ℕ
  pub incoming : List ℕ
  pub errno : ℕ

-- A function's result: a count of bytes, -1, a call that no answer came to, or a loop that used
-- up its fuel.
pub data Ret : Type 0 where
  bytes : ℕ → Ret
  failure : Ret
  blocked : Ret
  stuck : Ret

abbrev pub eintr : ℕ
eintr = 4

-- `size_t` addition.
abbrev pub add_size : ℕ → ℕ → ℕ
add_size a b = (a + b) % 2 ^ 64
