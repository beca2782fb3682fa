-- ===== src/Webm/Demuxer/Heads.antt =====
-- zenwebm/src/demux.rs: the head of a block, and the children of a BlockGroup.
use zenextras.Prelude.{ℕ, zero, suc, ◌+◌, ◌-◌, ◌^◌, not}
use zenextras.Prelude.{Bool, true, false, Option, none, some, List, [], ◌∷◌, ◌++◌, length}
use zenextras.Prelude.{
  get_or, ltb, ◌==◌, if◌then◌else◌, Result, ok, err, ◌>>=◌, ◌>>◌, ok_or, refuse,
}
use zenextras.Prelude.Bytes.{Bytes, slice, be_bytes}
use zenextras.Prelude.Int.{ℤ, pos, negsuc}
use zenextras.Webm.Error.{bad_block}
use zenextras.Webm.Types.{SessionError, codec}
use zenextras.Webm.Ebml.{Child, next, vint, int, children}
use zenextras.Webm.Ebml.Ids
use zenextras.Webm.Demuxer.State.{GroupExtras, no_extras}
use zenextras.Webm.Demuxer.Tracks.{of_codec, each, with_uint, map_ok}

-- The place of a number in a list: the track with a number.
unfoldable pub position : ℕ → List ℕ → Option ℕ
position number [] = none
position number (n ∷ ns) =
    if n == number
    then some 0
    else elim (position number ns) [ none ↦ none | some i ↦ some (suc i) ]

-- The integer that an `i16`'s bits stand for.
abbrev pub as_i16 : ℕ → ℤ
as_i16 w = if ltb w (2 ^ 15) then pos w else negsuc (2 ^ 16 - 1 - w)

-- `len` is the length of the track number; the frames begin three bytes behind it.
pub record BlockHead : Type 0 where
  pub number : ℕ
  pub len : ℕ
  pub rel : ℤ
  pub flags : ℕ

unfoldable pub read_head : Bytes → Result SessionError BlockHead
read_head body = do
  field ← of_codec (vint body 8 false)
  v ← ok_or field (codec bad_block)
  refuse (ltb (length body) (v.1 + 3)) (codec bad_block)
  ok (record {
    number = v.0;
    len = v.1;
    rel = as_i16 (be_bytes (slice v.1 (v.1 + 2) body));
    flags = get_or body (v.1 + 2) 0;
  })

-- The length of what a child holds.
abbrev pub child_len : Child → ℕ
child_len (ok (id, p)) = length p
child_len (err e) = 0

-- The children of a payload of `len` bytes with the offsets of their own payloads in it.
unfoldable pub placed_from : ℕ → ℕ → Bytes → List (ℕ × Child)
placed_from fuel len [] = []
placed_from zero len (b ∷ bs) = []
placed_from (suc fuel) len (b ∷ bs) =
    let (child, rest) = next (b ∷ bs) in
    (len - length rest - child_len child, child) ∷ placed_from fuel len rest

unfoldable pub placed_children : Bytes → List (ℕ × Child)
placed_children body = placed_from (length body) (length body) body

-- `each` over placed children.
unfoldable pub each_placed :
    {A : Type 0}
    → (A → ℕ → ℕ → Bytes → Result SessionError A)
    → A
    → List (ℕ × Child)
    → Result SessionError A
each_placed round a [] = ok a
each_placed round a ((at, err e) ∷ cs) = err (codec e)
each_placed round a ((at, ok (id, p)) ∷ cs) = round a at id p >>= λ b. each_placed round b cs

-- A BlockMore: its number, which defaults to 1, and its bytes.
unfoldable pub more_child : ℕ × Option Bytes → ℕ → Bytes → Result SessionError (ℕ × Option Bytes)
more_child (add_id, bytes) id p =
    if id == Ids.block_add_id
    then with_uint p (λ n. (n, bytes))
    else if id == Ids.block_additional
    then ok (add_id, some p)
    else ok (add_id, bytes)

abbrev pub add_more : List (ℕ × Bytes) → ℕ × Option Bytes → List (ℕ × Bytes)
add_more additions (add_id, none) = additions
add_more additions (add_id, some p) = additions ++ ((add_id, p) ∷ [])

unfoldable pub addition_child :
    List (ℕ × Bytes) → ℕ → Bytes → Result SessionError (List (ℕ × Bytes))
addition_child additions id p =
    if not (id == Ids.block_more)
    then ok additions
    else map_ok (add_more additions) (each more_child (1, none) (children p))

-- The Block of a group with its offset, and what the group adds to it.
abbrev pub Group : Type 0
Group = Option (Bytes × ℕ) × GroupExtras

unfoldable pub group_child : Group → ℕ → ℕ → Bytes → Result SessionError Group
group_child (block, extras) at id p =
    if id == Ids.block
    then ok (some (p, at), extras)
    else if id == Ids.block_duration
    then with_uint p (λ d. (block, record extras { duration = some d }))
    else if id == Ids.reference_block
    then ok (block, record extras { referenced = true })
    else if id == Ids.discard_padding
    then map_ok (λ n. (block, record extras { discard_padding = some n })) (of_codec (int p))
    else if id == Ids.block_additions
    then map_ok (λ a. (block, record extras { additions = a }))
        (each addition_child extras.additions (children p))
    else ok (block, extras)

unfoldable pub read_group : Bytes → Result SessionError ((Bytes × ℕ) × GroupExtras)
read_group body = do
  group ← each_placed group_child (none, no_extras) (placed_children body)
  block ← ok_or group.0 (codec bad_block)
  ok (block, group.1)

-- What a scan reads of a group: its Block, and whether it refers to another.
unfoldable pub scanned_child :
    Option Bytes × Bool → ℕ → Bytes → Result SessionError (Option Bytes × Bool)
scanned_child (block, referenced) id p =
    if id == Ids.block
    then ok (some p, referenced)
    else if id == Ids.reference_block
    then ok (block, true)
    else ok (block, referenced)

unfoldable pub scan_group : Bytes → Result SessionError (Bytes × Bool)
scan_group body = do
  group ← each scanned_child (none, false) (children body)
  block ← ok_or group.0 (codec bad_block)
  ok (block, not group.1)
