-- ===== src/Klib/Tests.antt =====
-- The theorems on memset and memclr at a block of 20 bytes from an odd address on, and on memcpy at
-- 20 bytes.
use bikeshed.Prelude.{◌+◌, ◌≡◌, ◌-◌, refl, inr, ◌&&◌, ltb, leb, if◌then◌else◌, arith}
use bikeshed.Machine.{Mem}
use bikeshed.Klib.Bytes.{load_byte, memclr, memset, memcpy, head}
use bikeshed.Klib.Fill.{memset-byte}
use bikeshed.Klib.Copy.{memcpy-byte}

abbrev ones : Mem
ones a = 0x0101010101010101

memset-byte_example :
    (load_byte (memset 4099 7 20 ones) 4118
      ≡ (if leb 4099 4118 && ltb 4118 (4099 + 20) then 7 else load_byte ones 4118))
    × (load_byte (memclr 4099 20 ones) 4118
        ≡ (if leb 4099 4118 && ltb 4118 (4099 + 20) then 0 else load_byte ones 4118))
unfolding head
memset-byte_example = memset-byte 4099 7 20 ones 4118 (omega arith) (omega arith) (omega arith)

memcpy-byte_example : load_byte (memcpy 8192 4096 20 ones) 8211 ≡ (
    if leb 8192 8211 && ltb 8211 (8192 + 20)
    then load_byte ones (4096 + (8211 - 8192))
    else load_byte ones 8211)
memcpy-byte_example = memcpy-byte 8192 4096 20 ones 8211 refl refl (omega arith) (inr (omega arith))
