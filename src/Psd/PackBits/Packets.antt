-- ===== src/Psd/PackBits/Packets.antt =====
-- The PackBits format: a scanline as a list of packets.
use zenextras.Prelude.{ℕ, ◌-◌, ◌≤◌, List, [], ◌∷◌, ◌++◌, length, replicate}
use zenextras.Prelude.Bytes.{Bytes}

-- A run of bytes as they are, a byte to be repeated, or the filler byte.
pub data Packet : Type 0 where
  literal : Bytes → Packet
  run : ℕ → ℕ → Packet
  filler : Packet

abbrev pub IsPacket : Packet → Type 0
IsPacket (literal bs) = (1 ≤ length bs) × (length bs ≤ 128)
IsPacket (run n v) = (2 ≤ n) × (n ≤ 128)
IsPacket filler = Unit {0}

abbrev pub packet_bytes : Packet → Bytes
packet_bytes (literal bs) = (length bs - 1) ∷ bs
packet_bytes (run n v) = (257 - n) ∷ v ∷ []
packet_bytes filler = 128 ∷ []

abbrev pub unpacked : Packet → Bytes
unpacked (literal bs) = bs
unpacked (run n v) = replicate n v
unpacked filler = []

abbrev pub packed : List Packet → Bytes
packed [] = []
packed (p ∷ ps) = packet_bytes p ++ packed ps

abbrev pub expanded : List Packet → Bytes
expanded [] = []
expanded (p ∷ ps) = unpacked p ++ expanded ps
