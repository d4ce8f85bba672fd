-- ===== src/Server/Packet/Codes.antt =====
-- `packet_type` inverts the discriminants of `PacketType`.
use virt_db.Prelude.{ℕ, ◌≡◌, ◌↔◌, refl, some, arith, subst, sym}
use virt_db.Server.Packet.{PacketType, packet_code, packet_type_of, com_sleep}

type_of_code : (t : PacketType) → packet_type_of (packet_code t) ≡ some t
unfolding packet_type_of packet_code
type_of_code com_sleep = refl
type_of_code _ = refl

code_of_type : (b : ℕ) (t : PacketType) → packet_type_of b ≡ some t → b ≡ packet_code t
unfolding packet_type_of packet_code
code_of_type b t h = ground arith

-- A byte is read as a packet type exactly when it is the discriminant of that type.
pub packet_type_of_iff :
    (b : ℕ) (t : PacketType) → (packet_type_of b ≡ some t) ↔ (b ≡ packet_code t)
packet_type_of_iff b t =
    (code_of_type b t, λ e. subst (λ c. packet_type_of c ≡ some t) (sym e) (type_of_code t))
