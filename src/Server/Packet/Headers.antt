-- ===== src/Server/Packet/Headers.antt =====
-- The header of an error packet.
use virt_db.Prelude.{
  ℕ, ◌+◌, ◌*◌, ◌%◌, ◌^◌, ◌≡◌, refl, List, ◌∷◌, length, some, none, Option, drop, arith,
}
use virt_db.Server.Packet.{value, error_packet, payload, packet_type, sequence_id}

-- The length that the three first bytes of a packet announce.
abbrev pub announced : List ℕ → Option ℕ
announced (a ∷ b ∷ c ∷ rest) = some (a + b * 256 + c * 65536)
announced _ = none

-- An error packet announces the length of its payload modulo 2^24, carries sequence id 1 and the
-- payload behind the header, and its own type byte is no command.
pub error_packet-header :
    (code : ℕ) (state msg : List ℕ)
    → let p = error_packet code state msg in
      (announced p.bytes ≡ some (length (payload code state msg) % 2 ^ 24))
      × (sequence_id p ≡ value 1)
      × (drop 4 p.bytes ≡ payload code state msg)
      × (packet_type p ≡ value none)
unfolding error_packet sequence_id packet_type
error_packet-header code state msg = (ground arith, refl, refl, refl)
