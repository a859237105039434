-- ===== src/Xgt/Packet.antt =====
-- xgt/XgtServer.cpp: the fields of a packet, the packet for an error and the response packet of
-- `processRequest`.
use v_plc_runtime.Shared.{
  ℕ, ◌+◌, ◌*◌, ◌^◌, List, [], ◌∷◌, ◌++◌, Option, some, ◌==◌, if◌then◌else◌, length, get_elem?, take,
  u16, high_byte, low_byte, ◌>>=◌, codes,
}
use v_plc_runtime.Memory.{PlcMemory}

-- `readUint16LE`
unfoldable pub read_uint16_le : List ℕ → ℕ → Option ℕ
read_uint16_le buffer i = do
  low ← get_elem? buffer i
  high ← get_elem? buffer (i + 1)
  some (low + high * 2 ^ 8)

-- `writeUint16LE`
abbrev pub uint16_le_bytes : ℕ → List ℕ
uint16_le_bytes value = low_byte value ∷ high_byte value ∷ []

-- `write_data_len`, with the value of the client library that stands for 2.
unfoldable pub fixed_data_len : ℕ → ℕ
fixed_data_len len = if len == 0x0020 then 2 else len

-- The packet for an error found before the fields are known.
unfoldable pub error_packet : ℕ → ℕ → List ℕ
error_packet command status =
    codes "LSIS-XGT"
    ++ (0
        ∷ 0
        ∷ 0
        ∷ 0
        ∷ 0
        ∷ 0x11
        ∷ 0
        ∷ 0
        ∷ (uint16_le_bytes 12
            ++ (0
                ∷ 0
                ∷ (uint16_le_bytes command
                    ++ (0 ∷ 0 ∷ 0 ∷ 0 ∷ (uint16_le_bytes status ++ (0 ∷ 0 ∷ [])))))))

abbrev pub Reply : Type 0
Reply = Option (PlcMemory × List ℕ)

unfoldable pub response_command : ℕ → ℕ
response_command command = if command == 0x0054 then 0x0055 else 0x0059

-- The response packet: the header of the request with the direction, the length and the status set.
unfoldable pub respond : PlcMemory → List ℕ → ℕ → ℕ → ℕ → ℕ → List ℕ → Reply
respond m request command data_type status block_count resp_data = do
  a ← get_elem? request 12
  b ← get_elem? request 14
  c ← get_elem? request 15
  d ← get_elem? request 18
  e ← get_elem? request 19
  some (
    m,
    take 12 request
        ++ (a
            ∷ 0x11
            ∷ b
            ∷ c
            ∷ (uint16_le_bytes (u16 (12 + length resp_data))
                ++ (d
                    ∷ e
                    ∷ (uint16_le_bytes (response_command command)
                        ++ (uint16_le_bytes data_type
                            ++ (0
                                ∷ 0
                                ∷ (uint16_le_bytes status
                                    ++ (uint16_le_bytes block_count ++ resp_data)))))))),
  )
