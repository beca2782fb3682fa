-- ===== src/Psd/PackBits.antt =====
-- zenpsd/src/parser.rs, `decode_packbits_row`: one run-length coded scanline. `out` is the part of the
-- scanline that is written, so `di` is its length, and `row_bytes` is the length of `dst`. The rest of
-- `src` stands for `si`. A count is at most 128, so no `checked_add` fails.
pub mod Packets
pub mod Decode
use zenextras.Prelude.{ℕ, zero, suc, ◌+◌, ◌-◌, [], ◌∷◌, ◌++◌, length, take, drop, replicate}
use zenextras.Prelude.{ltb, ◌==◌, not, if◌then◌else◌, Result, ok, err}
use zenextras.Prelude.Bytes.{Bytes}
use zenextras.Psd.Types.{PsdError, malformed}

-- The test behind the loop.
unfoldable pub finish : ℕ → Bytes → Result PsdError Bytes
finish row_bytes out =
    if not (length out == row_bytes)
    then err (malformed "PackBits scanline decoded fewer bytes than width")
    else ok out

-- `header >= 0`: a run of `header + 1` bytes; `continue` is the rest of the loop.
unfoldable pub literal_run :
    (Bytes → Bytes → Result PsdError Bytes) → ℕ → Bytes → ℕ → Bytes → Result PsdError Bytes
literal_run continue header src row_bytes out =
    let count = header + 1 in
    if ltb (length src) count
    then err (malformed "truncated PackBits literal run in scanline")
    else if ltb row_bytes (length out + count)
    then err (malformed "PackBits literal run overflows scanline width")
    else continue (drop count src) (out ++ take count src)

-- `header` from -1 to -127, a byte from 255 down to 129: the next byte, `1 - header` times.
unfoldable pub repeat_run :
    (Bytes → Bytes → Result PsdError Bytes) → ℕ → Bytes → ℕ → Bytes → Result PsdError Bytes
repeat_run continue header [] row_bytes out =
    err (malformed "truncated PackBits repeat byte in scanline")
repeat_run continue header (val ∷ src) row_bytes out =
    let count = 257 - header in
    if ltb row_bytes (length out + count)
    then err (malformed "PackBits repeat run overflows scanline width")
    else continue src (out ++ replicate count val)

-- Each round takes a byte of `src`, so `length src` rounds are enough.
unfoldable pub decode_loop : ℕ → ℕ → Bytes → Bytes → Result PsdError Bytes
unfolding literal_run repeat_run finish
decode_loop fuel row_bytes [] out = finish row_bytes out
decode_loop zero row_bytes (header ∷ src) out = finish row_bytes out
decode_loop (suc fuel) row_bytes (header ∷ src) out =
    let skip = decode_loop fuel row_bytes src out in
    if not (ltb (length out) row_bytes)
    then finish row_bytes out
    else if ltb header 128
    then literal_run (decode_loop fuel row_bytes) header src row_bytes out
    else if not (header == 128)
    then repeat_run (decode_loop fuel row_bytes) header src row_bytes out
    else skip

unfoldable pub decode_packbits_row : Bytes → ℕ → Result PsdError Bytes
decode_packbits_row src row_bytes = decode_loop (length src) row_bytes src []
