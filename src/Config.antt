-- ===== src/Config.antt =====
-- src/includes/config.h.
use the_socket_exchange.Prelude.{ℕ, ◌+◌}

abbrev pub username_length : ℕ
username_length = 128

abbrev pub min_capacity : ℕ
min_capacity = 10

abbrev pub max_cmd_len : ℕ
max_cmd_len = 11

abbrev pub max_token_len : ℕ
max_token_len = 159

abbrev pub inbuf_size : ℕ
inbuf_size = max_token_len + 1

abbrev pub outbuf_size : ℕ
outbuf_size = 4096
