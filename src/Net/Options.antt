-- ===== src/Net/Options.antt =====
-- `struct beer_opt` and beer/beer_opt.c. The parser of URIs is code of third_party.
use bee_c.Base.{ℕ, Bool, true, false, Option, none, some, List, if◌then◌else◌}
use bee_c.Io.{Error, eok, efail, ememory}
use bee_c.Io.Connect.{Hint}

-- The parts of `struct uri` that a connection uses; `none` is NULL.
pub record Uri : Type 0 where
  pub host_hint : Hint
  pub login : Option (List ℕ)
  pub password : Option (List ℕ)

-- A `struct timeval`: seconds and microseconds.
abbrev pub Timeval : Type 0
Timeval = ℕ × ℕ

-- Callbacks and their contexts are pointers, `none` for NULL.
pub record Opt : Type 0 where
  pub uristr : Option (List ℕ)
  pub uri : Uri
  pub tmout_connect : Timeval
  pub tmout_recv : Timeval
  pub tmout_send : Timeval
  pub send_cb : Option ℕ
  pub send_cbv : Option ℕ
  pub send_cb_arg : Option ℕ
  pub send_buf : ℕ
  pub recv_cb : Option ℕ
  pub recv_cb_arg : Option ℕ
  pub recv_buf : ℕ

-- `beer_opt_init`; what the fresh memory of the URI holds is a parameter, and so is whether it is
-- found.
unfoldable pub opt_init : Uri → Bool → Bool × Opt
opt_init fresh granted = (
  granted,
  record {
    uristr = none;
    uri = fresh;
    tmout_connect = (16, 0);
    tmout_recv = (0, 0);
    tmout_send = (0, 0);
    send_cb = none;
    send_cbv = none;
    send_cb_arg = none;
    send_buf = 16384;
    recv_cb = none;
    recv_cb_arg = none;
    recv_buf = 16384;
  },
)

-- An option with its argument; `unknown` is any other number.
pub data Setting : Type 0 where
  uri : List ℕ → Setting
  tmout_connect tmout_recv tmout_send : Timeval → Setting
  send_cb send_cbv send_cb_arg recv_cb recv_cb_arg : Option ℕ → Setting
  send_buf recv_buf : ℕ → Setting
  unknown : Setting

-- The parser leaves something in the URI also where it fails.
abbrev pub Parser : Type 0
Parser = Uri → List ℕ → Bool × Uri

abbrev pub parsed : Opt → Bool × Uri → Error × Opt
parsed o (true, u) = (eok, record o { uri = u })
parsed o (false, u) = (efail, record o { uri = u })

-- `granted` is whether memory is found for the copy of the string.
unfoldable pub opt_set : Parser → Bool → Opt → Setting → Error × Opt
opt_set parse granted o (Setting.uri str) =
    if granted
    then parsed (record o { uristr = some str }) (parse o.uri str)
    else (ememory, record o { uristr = none })
opt_set parse granted o (Setting.tmout_connect t) = (eok, record o { tmout_connect = t })
opt_set parse granted o (Setting.tmout_recv t) = (eok, record o { tmout_recv = t })
opt_set parse granted o (Setting.tmout_send t) = (eok, record o { tmout_send = t })
opt_set parse granted o (Setting.send_cb f) = (eok, record o { send_cb = f })
opt_set parse granted o (Setting.send_cbv f) = (eok, record o { send_cbv = f })
opt_set parse granted o (Setting.send_cb_arg x) = (eok, record o { send_cb_arg = x })
opt_set parse granted o (Setting.send_buf n) = (eok, record o { send_buf = n })
opt_set parse granted o (Setting.recv_cb f) = (eok, record o { recv_cb = f })
opt_set parse granted o (Setting.recv_cb_arg x) = (eok, record o { recv_cb_arg = x })
opt_set parse granted o (Setting.recv_buf n) = (eok, record o { recv_buf = n })
opt_set parse granted o Setting.unknown = (efail, o)
