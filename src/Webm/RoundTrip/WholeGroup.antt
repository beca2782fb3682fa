-- ===== src/Webm/RoundTrip/WholeGroup.antt =====
-- A whole BlockGroup: its parts in the order in which they are written.
use zenextras.Prelude.{ℕ, ◌+◌, ◌<◌, not, Bool, true, false, Option, none, some, List, [], ◌∷◌, ◌++◌}
use zenextras.Prelude.{length, All, All-append, ok, ◌≡◌, refl, ap, sym, ◌∙◌, arith}
use zenextras.Prelude.Bytes.{Bytes}
use zenextras.Prelude.Int.{ℤ, i64_bits, i64_bits-lt}
use zenextras.Webm.Ebml.{put, put_uint, put_int}
use zenextras.Webm.Ebml.Ids
use zenextras.Webm.Ebml.Fields.{IsSize, by_width}
use zenextras.Webm.Ebml.Elements.{IsElement, put_all, put_all-put_all}
use zenextras.Webm.Ebml.Integers.{uint-uint_bytes, int-int_bytes}
use zenextras.Webm.Muxer.Blocks.{
  Block, block_head, group_entry, put_duration, put_reference, put_padding,
}
use zenextras.Webm.Muxer.Blocks.{put_additions, put_more, is_random, reference}
use zenextras.Webm.Demuxer.State.{GroupExtras, no_extras}
use zenextras.Webm.Demuxer.Heads.{group_child, each_placed, read_group}
use zenextras.Webm.RoundTrip.Placed.{head_size, places, placed_children-put_all}
use zenextras.Webm.RoundTrip.Heads.{IsI16}
use zenextras.Webm.RoundTrip.Groups.{IsAddition, extras, IsDuration, IsPadding, duration_part}
use zenextras.Webm.RoundTrip.Groups.{reference_part, padding_part, additions_part, duration_read}
use zenextras.Webm.RoundTrip.Groups.{reference_read, padding_read, additions_read}

-- A block that can be written: a track number of one byte, a time that 16 bits reach, sizes that fields hold.
pub record IsBlock (b : Block) : Type 0 where
  pub numbered : b.index < 126
  pub near : IsI16 b.rel
  pub duration : IsDuration b.duration
  pub padding : IsPadding b.padding
  pub additions : All IsAddition b.additions
  pub fits : IsSize (length b.body + length (put_more [] b.additions) + 200)

abbrev pub block_bytes : Block → Bytes
block_bytes b = block_head b.index b.rel ++ (0 ∷ b.body)

abbrev pub parts : Block → List (ℕ × Bytes)
parts b =
    duration_part b.duration
    ++ (reference_part (is_random b.random_access) (reference b.prev b.ticks)
        ++ (padding_part b.padding ++ (additions_part b.additions ++ [])))

abbrev pub group_elements : Block → List (ℕ × Bytes)
group_elements b = (Ids.block, block_bytes b) ∷ parts b

put-duration_part : (g : Bytes) (o : Option ℕ) → put_duration g o ≡ put_all g (duration_part o)
unfolding put_all put_uint
put-duration_part g none = refl
put-duration_part g (some d) = refl

put-reference_part :
    (g : Bytes) (r : Bool) (back : ℤ) → put_reference g r back ≡ put_all g (reference_part r back)
unfolding put_all put_int
put-reference_part g true back = refl
put-reference_part g false back = refl

put-padding_part : (g : Bytes) (o : Option ℤ) → put_padding g o ≡ put_all g (padding_part o)
unfolding put_all put_int
put-padding_part g none = refl
put-padding_part g (some p) = refl

put-additions_part :
    (g : Bytes) (as' : List (ℕ × Bytes))
    → put_additions g as' ≡ put_all g (additions_part as' ++ [])
unfolding put_all
put-additions_part g [] = refl
put-additions_part g (a ∷ as') = refl

pub group_entry-put_all : (b : Block) → group_entry b ≡ put_all [] (group_elements b)
unfolding group_entry put_all
group_entry-put_all b =
    let g0 = put [] Ids.block (block_bytes b) in
    let g1 = put_all g0 (duration_part b.duration) in
    let back = reference b.prev b.ticks in
    let g2 = put_all g1 (reference_part (is_random b.random_access) back) in
    let g3 = put_all g2 (padding_part b.padding) in
    rw
      (
        put-duration_part g0 b.duration,
        put-reference_part g1 (is_random b.random_access) back,
        put-padding_part g2 b.padding,
      )
      (put-additions_part g3 b.additions
        ∙ sym (put_all-put_all (padding_part b.padding) (additions_part b.additions ++ []) g2)
        ∙ sym (
            put_all-put_all (reference_part (is_random b.random_access) back)
              (padding_part b.padding ++ (additions_part b.additions ++ [])) g1)
        ∙ sym (
            put_all-put_all (duration_part b.duration)
              (reference_part (is_random b.random_access) back
                ++ (padding_part b.padding ++ (additions_part b.additions ++ [])))
              g0))

duration_valid : (o : Option ℕ) → IsDuration o → All IsElement (duration_part o)
duration_valid none h = tt
duration_valid (some d) h =
    (record { valid = by_width 0 _ refl; fits = omega (arith, uint-uint_bytes d h) }, tt)

reference_valid : (r : Bool) (back : ℤ) → All IsElement (reference_part r back)
reference_valid true back = tt
reference_valid false back =
    let (_, short) = int-int_bytes (i64_bits back) (i64_bits-lt back) in
    (record { valid = by_width 0 _ refl; fits = omega (arith, short) }, tt)

padding_valid : (o : Option ℤ) → All IsElement (padding_part o)
padding_valid none = tt
padding_valid (some p) =
    let (_, short) = int-int_bytes (i64_bits p) (i64_bits-lt p) in
    (record { valid = by_width 1 _ refl; fits = omega (arith, short) }, tt)

additions_valid :
    (as' : List (ℕ × Bytes))
    → IsSize (length (put_more [] as'))
    → All IsElement (additions_part as' ++ [])
additions_valid [] h = tt
additions_valid (a ∷ as') h = (record { valid = by_width 1 _ refl; fits = h }, tt)

pub length-block_bytes : (b : Block) → length (block_bytes b) ≡ length b.body + 4
unfolding block_head
length-block_bytes b = omega arith

pub parts_valid : (b : Block) → IsBlock b → All IsElement (group_elements b)
parts_valid b w = (
  record { valid = by_width 0 _ refl; fits = omega (arith, length-block_bytes b, w.fits) },
  All-append IsElement (duration_part b.duration) _ (duration_valid b.duration w.duration) (
      All-append IsElement (reference_part (is_random b.random_access) (reference b.prev b.ticks)) _
        (reference_valid (is_random b.random_access) (reference b.prev b.ticks))
        (All-append IsElement (padding_part b.padding) _ (padding_valid b.padding)
          (additions_valid b.additions (omega (arith, w.fits))))),
)

-- What the reader makes of the parts of a block.
abbrev pub extras_of : Block → GroupExtras
extras_of b = extras b.duration (not (is_random b.random_access)) b.padding b.additions

-- The Block of a group stands behind its own header.
abbrev pub block_place : Block → ℕ
block_place b = head_size Ids.block (block_bytes b)

parts_read :
    (b : Block) (block : Option (Bytes × ℕ)) (at : ℕ)
    → IsBlock b
    → each_placed group_child (block, no_extras) (places at (parts b)) ≡ ok (block, extras_of b)
parts_read b block at w =
    let r = is_random b.random_access in
    let back = reference b.prev b.ticks in
    let tail : List (ℕ × Bytes) = additions_part b.additions ++ [] in
    let (a1, e1) =
      duration_read block b.duration w.duration at
        (reference_part r back ++ (padding_part b.padding ++ tail)) in
    let (a2, e2) = reference_read block b.duration r back a1 (padding_part b.padding ++ tail) in
    let (a3, e3) = padding_read block b.duration (not r) b.padding w.padding a2 tail in
    let (a4, e4) =
      additions_read block b.duration (not r) b.padding b.additions w.additions a3 [] in
    e1 ∙ e2 ∙ e3 ∙ e4 ∙ unfold each_placed in refl

-- A group is read as the block that it was written for, at its place, with all that the group adds.
pub read_group-group_entry :
    (b : Block)
    → IsBlock b
    → read_group (group_entry b) ≡ ok ((block_bytes b, block_place b), extras_of b)
unfolding read_group
read_group-group_entry b w =
    let place = 0 + block_place b in
    let exact : place ≡ block_place b = omega arith in
    rw
      (
        group_entry-put_all b,
        placed_children-put_all (group_elements b) (parts_valid b w),
        first_read b,
        parts_read b (some (block_bytes b, place)) (0 + length (put [] Ids.block (block_bytes b)))
            w,
      )
      (ap (λ (t : ℕ). ok ((block_bytes b, t), extras_of b)) exact)
  where
    first_read :
        (b : Block)
        → each_placed group_child (none, no_extras) (places 0 (group_elements b))
          ≡ each_placed group_child
              (some (block_bytes b, 0 + block_place b), no_extras)
              (places (0 + length (put [] Ids.block (block_bytes b))) (parts b))
    first_read b = unfold each_placed group_child in refl
