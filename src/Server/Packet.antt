-- ===== src/Server/Packet.antt =====
-- server/src/protocol/mod.rs: the packets of the MySQL protocol.
pub mod Codes
pub mod Headers
use virt_db.Prelude.{
  ℕ, zero, suc, ◌+◌, ◌*◌, ◌/◌, ◌%◌, ◌^◌, Option, none, some, List, [], ◌∷◌, ◌++◌, codes, length,
  get_elem?, ◌==◌, if◌then◌else◌,
}

pub data PacketType : Type 0 where
  com_sleep com_quit com_init_db com_query com_field_list com_create_db : PacketType
  com_drop_db com_refresh com_shutdown com_statistics com_process_info com_connect : PacketType
  com_process_kill com_debug com_ping com_time com_delayed_insert com_change_user : PacketType
  com_binlog_dump com_table_dump com_connect_out com_register_slave com_stmt_prepare
        com_stmt_execute :
      PacketType
  com_stmt_send_long_data com_stmt_close com_stmt_reset com_daemon com_binlog_dump_gtid
        com_reset_connection :
      PacketType

-- The discriminants of `PacketType`.
unfoldable pub packet_code : PacketType → ℕ
packet_code com_sleep = 0x00
packet_code com_quit = 0x01
packet_code com_init_db = 0x02
packet_code com_query = 0x03
packet_code com_field_list = 0x04
packet_code com_create_db = 0x05
packet_code com_drop_db = 0x06
packet_code com_refresh = 0x07
packet_code com_shutdown = 0x08
packet_code com_statistics = 0x09
packet_code com_process_info = 0x0a
packet_code com_connect = 0x0b
packet_code com_process_kill = 0x0c
packet_code com_debug = 0x0d
packet_code com_ping = 0x0e
packet_code com_time = 0x0f
packet_code com_delayed_insert = 0x10
packet_code com_change_user = 0x11
packet_code com_binlog_dump = 0x12
packet_code com_table_dump = 0x13
packet_code com_connect_out = 0x14
packet_code com_register_slave = 0x15
packet_code com_stmt_prepare = 0x16
packet_code com_stmt_execute = 0x17
packet_code com_stmt_send_long_data = 0x18
packet_code com_stmt_close = 0x19
packet_code com_stmt_reset = 0x1a
packet_code com_daemon = 0x1d
packet_code com_binlog_dump_gtid = 0x1e
packet_code com_reset_connection = 0x1f

-- The `match` of `packet_type` on the fifth byte; `none` is its `Err`.
unfoldable pub packet_type_of : ℕ → Option PacketType
packet_type_of b =
    if b == 0x00
    then some com_sleep
    else if b == 0x01
    then some com_quit
    else if b == 0x02
    then some com_init_db
    else if b == 0x03
    then some com_query
    else if b == 0x04
    then some com_field_list
    else if b == 0x05
    then some com_create_db
    else if b == 0x06
    then some com_drop_db
    else if b == 0x07
    then some com_refresh
    else if b == 0x08
    then some com_shutdown
    else if b == 0x09
    then some com_statistics
    else if b == 0x0a
    then some com_process_info
    else if b == 0x0b
    then some com_connect
    else if b == 0x0c
    then some com_process_kill
    else if b == 0x0d
    then some com_debug
    else if b == 0x0e
    then some com_ping
    else if b == 0x0f
    then some com_time
    else if b == 0x10
    then some com_delayed_insert
    else if b == 0x11
    then some com_change_user
    else if b == 0x12
    then some com_binlog_dump
    else if b == 0x13
    then some com_table_dump
    else if b == 0x14
    then some com_connect_out
    else if b == 0x15
    then some com_register_slave
    else if b == 0x16
    then some com_stmt_prepare
    else if b == 0x17
    then some com_stmt_execute
    else if b == 0x18
    then some com_stmt_send_long_data
    else if b == 0x19
    then some com_stmt_close
    else if b == 0x1a
    then some com_stmt_reset
    else if b == 0x1d
    then some com_daemon
    else if b == 0x1e
    then some com_binlog_dump_gtid
    else if b == 0x1f
    then some com_reset_connection
    else none

-- A value, or the panic of an index out of bounds.
pub data Checked {ℓ} (A : Type ℓ) : Type ℓ where
  panic : Checked A
  value : A → Checked A

abbrev pub index {ℓ} : {A : Type ℓ} → List A → ℕ → Checked A
index bytes i = elim (get_elem? bytes i) [ none ↦ panic | some b ↦ value b ]

pub record Packet : Type 0 where
  pub bytes : List ℕ

unfoldable pub packet_type : Packet → Checked (Option PacketType)
unfolding packet_type_of
packet_type p = elim (index p.bytes 4) [ panic ↦ panic | value b ↦ value (packet_type_of b) ]

unfoldable pub sequence_id : Packet → Checked ℕ
sequence_id p = index p.bytes 3

-- The `n` low bytes of a number, the lowest first.
abbrev pub le_bytes : ℕ → ℕ → List ℕ
le_bytes zero x = []
le_bytes (suc n) x = (x % 256) ∷ le_bytes n (x / 256)

-- `Vec::pop`, its result dropped.
abbrev pub pop : List ℕ → List ℕ
pop [] = []
pop (b ∷ []) = []
pop (b ∷ c ∷ rest) = b ∷ pop (c ∷ rest)

abbrev pub payload : ℕ → List ℕ → List ℕ → List ℕ
payload code state msg = (0xff ∷ le_bytes 2 code) ++ (b'#' ∷ []) ++ state ++ msg

-- `code` is a `u16`, `state` has five bytes, and `msg` is the bytes of the message.
unfoldable pub error_packet : ℕ → List ℕ → List ℕ → Packet
error_packet code state msg =
    let body = payload code state msg in
    record { bytes = (pop (le_bytes 4 (length body % 2 ^ 32)) ++ (1 ∷ [])) ++ body }
