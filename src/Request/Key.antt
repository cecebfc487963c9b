-- ===== src/Request/Key.antt =====
-- `enum beer_header_key_t` and `enum beer_body_key_t` of include/bee/beer_proto.h.
use bee_c.Base.{ℕ}

abbrev pub code : ℕ
code = 0x00

abbrev pub sync : ℕ
sync = 0x01

abbrev pub space : ℕ
space = 0x10

abbrev pub index : ℕ
index = 0x11

abbrev pub limit : ℕ
limit = 0x12

abbrev pub offset : ℕ
offset = 0x13

abbrev pub iterator : ℕ
iterator = 0x14

abbrev pub index_base : ℕ
index_base = 0x15

abbrev pub key : ℕ
key = 0x20

abbrev pub tuple : ℕ
tuple = 0x21

abbrev pub function : ℕ
function = 0x22

abbrev pub username : ℕ
username = 0x23

abbrev pub expression : ℕ
expression = 0x27

abbrev pub ops : ℕ
ops = 0x28
