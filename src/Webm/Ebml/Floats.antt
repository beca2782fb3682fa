-- ===== src/Webm/Ebml/Floats.antt =====
-- Float payloads: `put_float` writes the eight bytes that `float` reads.
use zenextras.Prelude.{ℕ, ◌^◌, ◌<◌, [], ◌++◌, ok, ◌≡◌, ap, arith}
use zenextras.Prelude.Bytes.{Bytes, to_be_bytes, be_bytes-to_be_bytes}
use zenextras.Webm.Ebml.{float, next, put_float}
use zenextras.Webm.Ebml.Fields.{IsId}
use zenextras.Webm.Ebml.Elements.{next-put}

-- A float element with a valid ID is read back, bit for bit, from what `put_float` wrote, whatever follows it.
pub next-put_float :
    (id bits : ℕ) (rest : Bytes)
    → IsId id
    → bits < 2 ^ 64
    → (p : Bytes) × (next (put_float [] id bits ++ rest) ≡ (ok (id, p), rest)) × (float p ≡ ok bits)
unfolding put_float float
next-put_float id bits rest w h =
    let p = to_be_bytes 8 bits in
    (
      p,
      next-put id p rest (record { valid = w; fits = omega arith }),
      ap (λ (t : ℕ). ok t) (be_bytes-to_be_bytes 8 bits h),
    )
