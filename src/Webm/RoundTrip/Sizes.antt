-- ===== src/Webm/RoundTrip/Sizes.antt =====
-- The element of a block is one that `put` can write: a bound on the size of a group.
use zenextras.Prelude.{ℕ, ◌+◌, ◌≤◌, Bool, true, false, Option, none, some, List, [], ◌∷◌, ◌++◌}
use zenextras.Prelude.{length, length-append, All, ◌≡◌, refl, ap, arith, if◌then◌else◌}
use zenextras.Prelude.Bytes.{Bytes}
use zenextras.Prelude.Int.{ℤ, i64_bits, i64_bits-lt}
use zenextras.Webm.Ebml.{put, put_id, put_size}
use zenextras.Webm.Ebml.Ids
use zenextras.Webm.Ebml.Fields.{by_width, length-put_size, put_size-SizeField}
use zenextras.Webm.Ebml.Elements.{IsElement, put_all}
use zenextras.Webm.Ebml.Integers.{uint-uint_bytes, int-int_bytes}
use zenextras.Webm.Muxer.Blocks.{
  Block, block_head, simple_entry, group_entry, put_more, is_random, is_simple, reference,
}
use zenextras.Webm.RoundTrip.Groups.{
  IsDuration, duration_part, reference_part, padding_part, additions_part,
}
use zenextras.Webm.RoundTrip.WholeGroup.{
  IsBlock, group_elements, group_entry-put_all, parts_valid, length-block_bytes,
}
use zenextras.Webm.RoundTrip.Packets.{block_element}

-- Each element takes at most twelve bytes beside its payload.
abbrev pub total : List (ℕ × Bytes) → ℕ
total [] = 0
total ((id, p) ∷ es) = length p + 12 + total es

pub length-put-le :
    (out : Bytes) (id : ℕ) (p : Bytes)
    → IsElement (id, p)
    → length (put out id p) ≤ length out + (length p + 12)
unfolding put
length-put-le out id p e =
    let f = put_size-SizeField (length p) e.fits in
    omega (
      arith,
      length-append (put_size (put_id out id) (length p)) p,
      length-put_size out id e.valid (length p) e.fits,
      e.valid.narrow,
      f.narrow,
    )

pub length-put_all-le :
    (es : List (ℕ × Bytes)) (out : Bytes)
    → All IsElement es
    → length (put_all out es) ≤ length out + total es
unfolding put_all
length-put_all-le [] out h = omega arith
length-put_all-le ((id, p) ∷ es) out h =
    omega (arith, length-put_all-le es (put out id p) h.1, length-put-le out id p h.0)

total-append : (xs ys : List (ℕ × Bytes)) → total (xs ++ ys) ≡ total xs + total ys
total-append [] ys = omega arith
total-append (x ∷ xs) ys = omega (arith, total-append xs ys)

duration_size : (o : Option ℕ) → IsDuration o → total (duration_part o) ≤ 20
duration_size none h = omega arith
duration_size (some d) h = omega (arith, uint-uint_bytes d h)

reference_size : (r : Bool) (back : ℤ) → total (reference_part r back) ≤ 20
reference_size true back = omega arith
reference_size false back = omega (arith, int-int_bytes (i64_bits back) (i64_bits-lt back))

padding_size : (o : Option ℤ) → total (padding_part o) ≤ 20
padding_size none = omega arith
padding_size (some p) = omega (arith, int-int_bytes (i64_bits p) (i64_bits-lt p))

additions_size :
    (as' : List (ℕ × Bytes)) → total (additions_part as' ++ []) ≤ length (put_more [] as') + 12
additions_size [] = omega arith
additions_size (a ∷ as') = omega arith

length-group_entry :
    (b : Block)
    → IsBlock b
    → length (group_entry b) ≤ length b.body + length (put_more [] b.additions) + 88
length-group_entry b w =
    let back = reference b.prev b.ticks in
    let r = is_random b.random_access in
    let tail : List (ℕ × Bytes) = additions_part b.additions ++ [] in
    omega (
      arith,
      ap length (group_entry-put_all b),
      length-put_all-le (group_elements b) [] (parts_valid b w),
      length-block_bytes b,
      total-append (duration_part b.duration)
          (reference_part r back ++ (padding_part b.padding ++ tail)),
      total-append (reference_part r back) (padding_part b.padding ++ tail),
      total-append (padding_part b.padding) tail,
      duration_size b.duration w.duration,
      reference_size r back,
      padding_size b.padding,
      additions_size b.additions,
    )

length-simple_entry : (b : Block) → length (simple_entry b) ≡ length b.body + 4
unfolding simple_entry block_head
length-simple_entry b = omega arith

pub block_element-IsElement : (b : Block) → IsBlock b → IsElement (block_element b)
block_element-IsElement b w = by_kind (is_simple b)
  where
    by_kind :
        (s : Bool)
        → IsElement
            (if s then (Ids.simple_block, simple_entry b) else (Ids.block_group, group_entry b))
    by_kind true = record {
      valid = by_width 0 _ refl;
      fits = omega (arith, length-simple_entry b, w.fits);
    }
    by_kind false = record {
      valid = by_width 0 _ refl;
      fits = omega (arith, length-group_entry b w, w.fits);
    }
