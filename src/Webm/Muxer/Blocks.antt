-- ===== src/Webm/Muxer/Blocks.antt =====
-- zenwebm/src/mux.rs: a packet as a SimpleBlock or a BlockGroup.
use zenextras.Prelude.{ℕ, ◌+◌, ◌*◌, ◌/◌, ◌%◌, ◌^◌, not, ◌&&◌, ◌||◌, bit_and, bit_or}
use zenextras.Prelude.{Bool, true, false, Option, none, some, List, [], ◌∷◌, ◌++◌}
use zenextras.Prelude.{ltb, ◌==◌, if◌then◌else◌}
use zenextras.Prelude.Bytes.{Bytes, to_be_bytes}
use zenextras.Prelude.Int.{ℤ, negsuc, min_ℤ, sub_i64, i64_bits}
use zenextras.Webm.Types.{RandomAccess, yes_random, no_random, unknown}
use zenextras.Webm.Ebml.{put, put_uint, put_int}
use zenextras.Webm.Ebml.Ids

-- The loop over the size field of an OBU: the size, and what follows the field; `none` where the field does not end in
-- nine bytes.
unfoldable pub obu_size : Bytes → ℕ → ℕ → Option (ℕ × Bytes)
obu_size [] shift size = none
obu_size (byte ∷ rest) shift size =
    let joined = bit_or size (bit_and byte 0x7f * 2 ^ shift) in
    let more = obu_size rest (shift + 7) joined in
    if bit_and byte 0x80 == 0
    then some (joined, rest)
    else if ltb 56 (shift + 7)
    then none
    else more

abbrev pub empty_obu : Bytes → Option (ℕ × Bytes) → Bytes
empty_obu b none = b
empty_obu b (some (size, rest)) = if size == 0 then rest else b

-- `b.get(1)` is the extension of the header, if it has one.
abbrev pub after_extension : Bool → Bytes → Bytes
after_extension false rest = rest
after_extension true [] = []
after_extension true (_ ∷ rest) = rest

unfoldable pub without_temporal_delimiter : Bytes → Bytes
without_temporal_delimiter [] = []
without_temporal_delimiter (header ∷ rest) =
    if not (bit_and header 0x80 == 0)
      || not (bit_and (header / 2 ^ 3) 0xf == 2)
      || bit_and header 0x2 == 0
    then header ∷ rest
    else empty_obu (header ∷ rest)
        (obu_size (after_extension (not (bit_and header 0x4 == 0)) rest) 0 0)

abbrev pub is_random : RandomAccess → Bool
is_random yes_random = true
is_random no_random = false
is_random unknown = false

abbrev pub is_none {ℓ} : {A : Type ℓ} → Option A → Bool
is_none none = true
is_none (some _) = false

abbrev pub is_empty {ℓ} : {A : Type ℓ} → List A → Bool
is_empty [] = true
is_empty (_ ∷ _) = false

-- The track number with its marker, and the time that is left to the cluster's, cast to an `i16`.
unfoldable pub block_head : ℕ → ℤ → Bytes
block_head index rel =
    bit_or 0x80 ((index % 2 ^ 8 + 1) % 2 ^ 8) ∷ to_be_bytes 2 (i64_bits rel % 2 ^ 16)

-- What `write_packet` has worked out of a packet when it writes the block.
pub record Block : Type 0 where
  pub index : ℕ
  pub ticks : ℤ
  pub rel : ℤ
  pub random_access : RandomAccess
  pub body : Bytes
  pub duration : Option ℕ
  pub padding : Option ℤ
  pub additions : List (ℕ × Bytes)
  pub prev : Option ℤ

-- A Block with no ReferenceBlock is a keyframe; the others point at the track's previous block.
abbrev pub reference : Option ℤ → ℤ → ℤ
reference none ticks = negsuc 0
reference (some p) ticks = min_ℤ (sub_i64 p ticks) (negsuc 0)

abbrev pub put_duration : Bytes → Option ℕ → Bytes
put_duration g none = g
put_duration g (some d) = put_uint g Ids.block_duration d

abbrev pub put_reference : Bytes → Bool → ℤ → Bytes
put_reference g true back = g
put_reference g false back = put_int g Ids.reference_block (i64_bits back)

abbrev pub put_padding : Bytes → Option ℤ → Bytes
put_padding g none = g
put_padding g (some p) = put_int g Ids.discard_padding (i64_bits p)

unfoldable pub more_entry : ℕ → Bytes → Bytes
more_entry id payload = put (put_uint [] Ids.block_add_id id) Ids.block_additional payload

unfoldable pub put_more : Bytes → List (ℕ × Bytes) → Bytes
put_more adds [] = adds
put_more adds ((id, payload) ∷ rest) =
    put_more (put adds Ids.block_more (more_entry id payload)) rest

abbrev pub put_additions : Bytes → List (ℕ × Bytes) → Bytes
put_additions g [] = g
put_additions g (a ∷ as') = put g Ids.block_additions (put_more [] (a ∷ as'))

unfoldable pub group_entry : Block → Bytes
group_entry b =
    let g = put [] Ids.block (block_head b.index b.rel ++ (0 ∷ b.body)) in
    let g = put_duration g b.duration in
    let g = put_reference g (is_random b.random_access) (reference b.prev b.ticks) in
    put_additions (put_padding g b.padding) b.additions

unfoldable pub simple_entry : Block → Bytes
simple_entry b =
    block_head b.index b.rel ++ ((if is_random b.random_access then 0x80 else 0) ∷ b.body)

abbrev pub is_simple : Block → Bool
is_simple b = is_none b.duration && is_none b.padding && is_empty b.additions

unfoldable pub put_block : Bytes → Block → Bytes
put_block body b =
    if is_simple b
    then put body Ids.simple_block (simple_entry b)
    else put body Ids.block_group (group_entry b)
