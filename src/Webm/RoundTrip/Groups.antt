-- ===== src/Webm/RoundTrip/Groups.antt =====
-- A BlockGroup: what `group_entry` writes, `read_group` reads.
use zenextras.Prelude.{ℕ, ◌+◌, ◌<◌, ◌^◌, not, Bool, true, false, Option, none, some}
use zenextras.Prelude.{
  List, [], ◌∷◌, ◌++◌, map, length, All, ok, ◌≡◌, refl, ap, sym, ◌∙◌, arith, append_assoc,
  append-nil,
}
use zenextras.Prelude.Bytes.{Bytes}
use zenextras.Prelude.Int.{ℤ, IsI64, i64_bits, i64_bits-lt, as_i64-i64_bits}
use zenextras.Webm.Ebml.{put, put_uint, uint, children}
use zenextras.Webm.Ebml.Ids
use zenextras.Webm.Ebml.Fields.{IsSize, by_width}
use zenextras.Webm.Ebml.Elements.{IsElement, put_all, children-put_all}
use zenextras.Webm.Ebml.Integers.{uint_bytes, uint-uint_bytes, int_bytes, int-int_bytes}
use zenextras.Webm.Muxer.Blocks.{put_more, more_entry}
use zenextras.Webm.Demuxer.State.{GroupExtras}
use zenextras.Webm.Demuxer.Tracks.{each}
use zenextras.Webm.Demuxer.Heads.{more_child, addition_child, Group, group_child, each_placed}
use zenextras.Webm.RoundTrip.Placed.{places}

-- An addition that can be written: its number and the size of its bytes.
pub record IsAddition (a : ℕ × Bytes) : Type 0 where
  pub number : a.0 < 2 ^ 64
  pub fits : IsSize (length a.1)
  pub whole : IsSize (length (more_entry a.0 a.1))

abbrev more_elements : ℕ → Bytes → List (ℕ × Bytes)
more_elements id p = (Ids.block_add_id, uint_bytes id) ∷ (Ids.block_additional, p) ∷ []

read_more :
    (id : ℕ) (p : Bytes)
    → IsAddition (id, p)
    → each more_child (1, none) (children (more_entry id p)) ≡ ok (id, some p)
unfolding more_entry put_all put_uint
read_more id p a =
    let (number, short) = uint-uint_bytes id a.number in
    let elements : All IsElement (more_elements id p) = (
      record { valid = by_width 0 _ refl; fits = omega (arith, short) },
      (record { valid = by_width 0 _ refl; fits = a.fits }, tt),
    ) in
    rw (children-put_all (more_elements id p) elements) (two number)
  where
    two :
        uint (uint_bytes id) ≡ ok id
        → each more_child (1, none) (map ok (more_elements id p)) ≡ ok (id, some p)
    two number = unfold each more_child in rw number

abbrev addition_elements : List (ℕ × Bytes) → List (ℕ × Bytes)
addition_elements [] = []
addition_elements ((id, p) ∷ as') = (Ids.block_more, more_entry id p) ∷ addition_elements as'

put_more-put_all :
    (as' : List (ℕ × Bytes)) (out : Bytes) → put_more out as' ≡ put_all out (addition_elements as')
unfolding put_more put_all
put_more-put_all [] out = refl
put_more-put_all ((id, p) ∷ as') out =
    put_more-put_all as' (put out Ids.block_more (more_entry id p))

are_elements : (as' : List (ℕ × Bytes)) → All IsAddition as' → All IsElement (addition_elements as')
are_elements [] h = tt
are_elements (a ∷ as') h =
    (record { valid = by_width 0 _ refl; fits = h.0.whole }, are_elements as' h.1)

each-additions :
    (as' before : List (ℕ × Bytes))
    → All IsAddition as'
    → each addition_child before (map ok (addition_elements as')) ≡ ok (before ++ as')
unfolding each addition_child
each-additions [] before h = ap ok (sym (append-nil before))
each-additions ((id, p) ∷ as') before h = rw (read_more id p h.0) (
    each-additions as' (before ++ ((id, p) ∷ [])) h.1
    ∙ ap ok (append_assoc before ((id, p) ∷ []) as'))

read_additions :
    (as' : List (ℕ × Bytes))
    → All IsAddition as'
    → each addition_child [] (children (put_more [] as')) ≡ ok as'
read_additions as' h =
    ap (λ (t : Bytes). each addition_child [] (children t)) (put_more-put_all as' [])
    ∙ ap (each addition_child []) (children-put_all (addition_elements as') (are_elements as' h))
    ∙ each-additions as' [] h

abbrev pub extras : Option ℕ → Bool → Option ℤ → List (ℕ × Bytes) → GroupExtras
extras d r p a = record { duration = d; referenced = r; discard_padding = p; additions = a }

-- The elements of a group behind its Block, part by part.
abbrev pub duration_part : Option ℕ → List (ℕ × Bytes)
duration_part none = []
duration_part (some d) = (Ids.block_duration, uint_bytes d) ∷ []

abbrev pub reference_part : Bool → ℤ → List (ℕ × Bytes)
reference_part true back = []
reference_part false back = (Ids.reference_block, int_bytes (i64_bits back)) ∷ []

abbrev pub padding_part : Option ℤ → List (ℕ × Bytes)
padding_part none = []
padding_part (some p) = (Ids.discard_padding, int_bytes (i64_bits p)) ∷ []

abbrev pub additions_part : List (ℕ × Bytes) → List (ℕ × Bytes)
additions_part [] = []
additions_part (a ∷ as') = (Ids.block_additions, put_more [] (a ∷ as')) ∷ []

-- Reading a part in front of any elements takes the group `g` to `g'`, wherever it stands.
abbrev pub Reads : Group → Group → List (ℕ × Bytes) → Type 0
Reads g g' part =
    (at : ℕ) (es : List (ℕ × Bytes))
    → (at' : ℕ) × (each_placed group_child g (places at (part ++ es))
        ≡ each_placed group_child g' (places at' es))

abbrev pub IsDuration : Option ℕ → Type 0
IsDuration none = Unit {0}
IsDuration (some d) = d < 2 ^ 64

abbrev pub IsPadding : Option ℤ → Type 0
IsPadding none = Unit {0}
IsPadding (some p) = IsI64 p

module _ (block : Option (Bytes × ℕ)) where
  pub duration_read :
      (o : Option ℕ)
      → IsDuration o
      → Reads (block, extras none false none []) (block, extras o false none []) (duration_part o)
  unfolding each_placed group_child
  duration_read none h at es = (at, refl)
  duration_read (some d) h at es =
      let (number, _) = uint-uint_bytes d h in
      (at + length (put [] Ids.block_duration (uint_bytes d)), rw number)

  pub reference_read :
      (d : Option ℕ) (random : Bool) (back : ℤ)
      → Reads
          (block, extras d false none [])
          (block, extras d (not random) none [])
          (reference_part random back)
  unfolding each_placed group_child
  reference_read d true back at es = (at, refl)
  reference_read d false back at es =
      (at + length (put [] Ids.reference_block (int_bytes (i64_bits back))), refl)

  pub padding_read :
      (d : Option ℕ) (r : Bool) (o : Option ℤ)
      → IsPadding o
      → Reads (block, extras d r none []) (block, extras d r o []) (padding_part o)
  unfolding each_placed group_child
  padding_read d r none h at es = (at, refl)
  padding_read d r (some p) h at es =
      let (bits, _) = int-int_bytes (i64_bits p) (i64_bits-lt p) in
      (
        at + length (put [] Ids.discard_padding (int_bytes (i64_bits p))),
        rw (bits, as_i64-i64_bits p h),
      )

  pub additions_read :
      (d : Option ℕ) (r : Bool) (p : Option ℤ) (as' : List (ℕ × Bytes))
      → All IsAddition as'
      → Reads (block, extras d r p []) (block, extras d r p as') (additions_part as')
  unfolding each_placed group_child
  additions_read d r p [] h at es = (at, refl)
  additions_read d r p (a ∷ as') h at es = (
    at + length (put [] Ids.block_additions (put_more [] (a ∷ as'))),
    rw (read_additions (a ∷ as') h),
  )
