-- ===== src/Psd/Resources/Walk.antt =====
-- The walk over the resource section: it moves on at every block, it ends, and it visits the blocks that were
-- written, each once and in order.
use zenextras.Prelude.{ℕ, zero, suc, ◌+◌, ◌-◌, ◌^◌, ◌≤◌, ◌<◌, min, true, not, Option, some}
use zenextras.Prelude.{List, [], ◌∷◌, ◌++◌, All, length, replicate, get_elem?, ltb, if◌then◌else◌}
use zenextras.Prelude.{length-append, length-replicate, inl, inr, ltb→le, lt→ltb, le→ltb}
use zenextras.Prelude.{◌≡◌, refl, ap, arith, Result, ok, ok_or}
use zenextras.Prelude.{
  >>=-eq-ok, refuse-eq-ok, ok_or-eq-ok, if_some-eq-some, ok-injective, Result-cases,
}
use zenextras.Prelude.Bytes.{Bytes, slice, to_be_bytes, length-to_be_bytes}
use zenextras.Psd.Types.{PsdError, checked_add}
use zenextras.Psd.Header.{read_u16_be, read_u32_be}
use zenextras.Psd.Metadata.{PsdMetadata, default_metadata}
use zenextras.Psd.Resources.{
  is_resource_signature, even_up, take_payload, resource_block, resource_loop,
}
use zenextras.Psd.Resources.{parse_image_resources}
use zenextras.Psd.At.{At, At-start, At-step, slice-At, read_be-At}

-- A block that is taken moves the place on by twelve bytes at least, and not past the section.
resource_block_moves :
    (xs : Bytes) (start : ℕ) (meta : PsdMetadata) {r : ℕ × PsdMetadata}
    → resource_block xs start meta ≡ ok r
    → (start + 12 ≤ r.0) × (r.0 ≤ length xs)
unfolding resource_block
resource_block_moves xs start meta {r} h =
    let (_, k0) = refuse-eq-ok (ltb (length xs) (start + 4)) _ _ h in
    let (_, k1) = refuse-eq-ok (not (is_resource_signature (slice start (start + 4) xs))) _ _ k0 in
    let (id, _, k2) = >>=-eq-ok (ok_or (read_u16_be xs (start + 4)) _) _ k1 in
    let (name_len, _, k3) = >>=-eq-ok (ok_or (get_elem? xs (start + 6)) _) _ k2 in
    let data_start = start + 6 + even_up (1 + name_len) + 4 in
    let (len, _, k4) =
      >>=-eq-ok (ok_or (read_u32_be xs (start + 6 + even_up (1 + name_len))) _) _ k3 in
    let (end, at_end, k5) = >>=-eq-ok (ok_or (checked_add data_start len) _) _ k4 in
    let (padded, at_padded, k6) = >>=-eq-ok (ok_or (checked_add data_start (even_up len)) _) _ k5 in
    let (within, k7) = refuse-eq-ok (ltb (length xs) end) _ _ k6 in
    let (_, sum) = if_some-eq-some (ltb (data_start + len) (2 ^ 64)) _ (ok_or-eq-ok _ _ at_end) in
    let (_, padded_sum) =
      if_some-eq-some (ltb (data_start + even_up len) (2 ^ 64)) _ (ok_or-eq-ok _ _ at_padded) in
    let same : min padded (length xs) ≡ r.0 = ap (λ (t : ℕ × PsdMetadata). t.0) (ok-injective k7) in
    let bound : end ≤ length xs = ltb→le (length xs) end within in
    (omega (arith, same, sum, padded_sum, bound), omega (arith, same))

-- The loop's result does not depend on the fuel, once there is a round for each byte that is left: it ends.
pub resource_loop_enough :
    (fuel fuel' : ℕ) (xs : Bytes) (start : ℕ) (meta : PsdMetadata)
    → length xs ≤ start + fuel
    → length xs ≤ start + fuel'
    → resource_loop fuel xs start meta ≡ resource_loop fuel' xs start meta
unfolding resource_loop
resource_loop_enough zero zero xs start meta h h' = refl
resource_loop_enough zero (suc fuel') xs start meta h h' =
    rw (le→ltb start (length xs) (omega arith))
resource_loop_enough (suc fuel) zero xs start meta h h' =
    rw (le→ltb start (length xs) (omega arith))
resource_loop_enough (suc fuel) (suc fuel') xs start meta h h' =
    ap (λ (t : Result PsdError PsdMetadata). if not (ltb start (length xs)) then ok meta else t)
      (elim (Result-cases (resource_block xs start meta)) [
        | inl (r, e) ↦
            let (moved, _) = resource_block_moves xs start meta e in
            rw e (
              resource_loop_enough fuel fuel' xs r.0 r.1 (omega (arith, moved))
                (omega (arith, moved)))
        | inr (x, e) ↦ rw e
      ])

-- A resource block as the format has it.
pub record Block : Type 0 where
  pub sig : Bytes
  pub id : ℕ
  pub name : Bytes
  pub payload : Bytes

-- Zeros up to the next even length.
abbrev pub pad : ℕ → Bytes
pad n = replicate (even_up n - n) 0

abbrev pub block_bytes : Block → Bytes → Bytes
block_bytes b rest =
    b.sig
    ++ (to_be_bytes 2 b.id
        ++ ((length b.name ∷ b.name ++ pad (1 + length b.name))
            ++ (to_be_bytes 4 (length b.payload)
                ++ (b.payload ++ (pad (length b.payload) ++ rest)))))

abbrev pub blocks_bytes : List Block → Bytes
blocks_bytes [] = []
blocks_bytes (b ∷ bs) = block_bytes b (blocks_bytes bs)

abbrev pub take_blocks : List Block → PsdMetadata → PsdMetadata
take_blocks [] meta = meta
take_blocks (b ∷ bs) meta = take_blocks bs (take_payload b.id b.payload meta)

pub record IsBlock (b : Block) : Type 0 where
  pub known : is_resource_signature b.sig ≡ true
  pub four : length b.sig ≡ 4
  pub id_fits : b.id < 256 ^ 2
  pub name_fits : length b.name < 256
  pub payload_fits : length b.payload < 256 ^ 4

get_elem-At : (xs ys : Bytes) (start y : ℕ) → At xs start (y ∷ ys) → get_elem? xs start ≡ some y
get_elem-At [] ys start y a = absurd (omega (arith, a.inside))
get_elem-At (x ∷ xs) ys zero y a = ap head a.rest
  where
    head : Bytes → Option ℕ
    head zs = get_elem? zs 0
get_elem-At (x ∷ xs) ys (suc start) y a =
    get_elem-At xs ys start y (record { inside = omega (arith, a.inside); rest = a.rest })

resource_block-written :
    (b : Block) (rest xs : Bytes) (start : ℕ) (meta : PsdMetadata)
    → IsBlock b
    → length xs < 2 ^ 64
    → At xs start (block_bytes b rest)
    → (next : ℕ) × At xs next rest
      × (start < next)
      × (resource_block xs start meta ≡ ok (next, take_payload b.id b.payload meta))
unfolding resource_block
resource_block-written b rest xs start meta is small a =
    let n = length b.name in
    let len = length b.payload in
    let len_offset = start + 6 + even_up (1 + n) in
    let data_start = len_offset + 4 in
    let next = data_start + even_up len in
    let at_id : At xs (start + 4) _ =
      At-step xs b.sig _ start (start + 4) a (omega (arith, is.four)) in
    let at_name : At xs (start + 6) _ =
      At-step xs (to_be_bytes 2 b.id) _ (start + 4) (start + 6) at_id
        (omega (arith, length-to_be_bytes 2 b.id)) in
    let at_len : At xs len_offset _ =
      At-step xs (n ∷ b.name ++ pad (1 + n)) _ (start + 6) len_offset at_name
        (omega (arith, length-append b.name (pad (1 + n)), length-pad (1 + n))) in
    let at_data : At xs data_start _ =
      At-step xs (to_be_bytes 4 len) _ len_offset data_start at_len
        (omega (arith, length-to_be_bytes 4 len)) in
    let at_pad : At xs (data_start + len) _ =
      At-step xs b.payload _ data_start (data_start + len) at_data refl in
    let at_next : At xs next rest =
      At-step xs (pad len) rest (data_start + len) next at_pad (omega (arith, length-pad len)) in
    let inside : next ≤ length xs = omega (arith, at_next.inside) in
    let (low, _) = even_up_bounds len in
    let (name_low, _) = even_up_bounds (1 + n) in
    (
      next,
      at_next,
      omega arith,
      rw
          (
            le→ltb (length xs) (start + 4) (omega arith),
            slice-At xs b.sig _ start (start + 4) a (omega (arith, is.four)),
            is.known,
            read_be-At 2 b.id xs _ (start + 4) at_id is.id_fits,
            get_elem-At xs _ (start + 6) n at_name,
            read_be-At 4 len xs _ len_offset at_len is.payload_fits,
            lt→ltb (data_start + len) (2 ^ 64) (omega arith),
            lt→ltb next (2 ^ 64) (omega arith),
            le→ltb (length xs) (data_start + len) (omega arith),
            slice-At xs b.payload _ data_start (data_start + len) at_data refl,
            the_least next (length xs) inside,
          )
          refl,
    )
  where
    even_up_bounds : (n : ℕ) → (n ≤ even_up n) × (even_up n ≤ n + 1)
    even_up_bounds n = (omega arith, omega arith)

    length-pad : (n : ℕ) → n + length (pad n) ≡ even_up n
    length-pad n = omega (arith, length-replicate {A = ℕ} (even_up n - n) 0)

    the_least : (a b : ℕ) → a ≤ b → min a b ≡ a
    the_least a b h = omega arith

walk_written :
    (bs : List Block) (fuel : ℕ) (xs : Bytes) (start : ℕ) (meta : PsdMetadata)
    → All IsBlock bs
    → length xs < 2 ^ 64
    → At xs start (blocks_bytes bs)
    → length xs ≤ start + fuel
    → resource_loop fuel xs start meta ≡ ok (take_blocks bs meta)
unfolding resource_loop
walk_written [] zero xs start meta is small a h = refl
walk_written [] (suc fuel) xs start meta is small a h =
    rw (le→ltb start (length xs) (omega (arith, a.inside)))
walk_written (b ∷ bs) zero xs start meta is small a h =
    let long : 0 < length (block_bytes b (blocks_bytes bs)) = omega (
      arith,
      length-append b.sig (
          to_be_bytes 2 b.id
          ++ ((length b.name ∷ b.name ++ pad (1 + length b.name))
              ++ (to_be_bytes 4 (length b.payload)
                  ++ (b.payload ++ (pad (length b.payload) ++ blocks_bytes bs))))),
      is.0.four,
    ) in
    absurd (omega (arith, a.inside))
walk_written (b ∷ bs) (suc fuel) xs start meta is small a h =
    let (next, at_next, moved, taken) =
      resource_block-written b (blocks_bytes bs) xs start meta is.0 small a in
    let inside : start < length xs = omega (arith, at_next.inside) in
    rw (lt→ltb start (length xs) inside, taken)
      (walk_written bs fuel xs next (take_payload b.id b.payload meta) is.1 small at_next
        (omega arith))

-- A section of blocks with known signatures, and with identifiers, names and data that their fields can hold, each
-- padded to an even length, is read as its blocks' data taken in one after the other; nothing is left out.
pub parse_image_resources-blocks_bytes :
    (bs : List Block)
    → All IsBlock bs
    → length (blocks_bytes bs) < 2 ^ 64
    → parse_image_resources (blocks_bytes bs) ≡ ok (take_blocks bs default_metadata)
unfolding parse_image_resources
parse_image_resources-blocks_bytes bs is small =
    walk_written bs (length (blocks_bytes bs)) (blocks_bytes bs) 0 default_metadata is small
      (At-start (blocks_bytes bs)) (omega arith)
