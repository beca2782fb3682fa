-- ===== src/Webm/Demuxer/Blocks.antt =====
-- zenwebm/src/demux.rs: blocks and block groups, and the packets that they hold.
use zenextras.Prelude.{ℕ, zero, suc, ◌+◌, ◌-◌, ◌/◌, ◌%◌, ◌^◌, not, ◌&&◌, ◌||◌, bit_and}
use zenextras.Prelude.{Bool, true, false, Option, none, some, List, [], ◌∷◌, ◌++◌, length, drop}
use zenextras.Prelude.{get_or, ltb, ◌==◌, if◌then◌else◌, ok_or, refuse}
use zenextras.Prelude.Bytes.{Bytes, slice}
use zenextras.Prelude.Int.{ℤ, pos, negsuc, ◌+ℤ◌, is_i64}
use zenextras.Webm.Error.{undeclared_track, block_before_timestamp, timestamp_overflow}
use zenextras.Webm.Error.{empty_frame, bad_integer}
use zenextras.Webm.Types.{codec, limit, FrameDuration, RandomAccess, yes_random}
use zenextras.Webm.Types.{no_random, Discard, Packet, TimeBase}
use zenextras.Webm.Action.{Action, ◌>>=◌, ◌>>◌, give, read, lift, change}
use zenextras.Webm.Demuxer.State.{WebmDemuxer, Cluster, GroupExtras, Library, ns_per_second}
use zenextras.Webm.Demuxer.Heads.{position, read_head, read_group}
use zenextras.Webm.Demuxer.Lacing.{unlace}

abbrev pub is_set : ℕ → ℕ → Bool
is_set flags mask = not (bit_and flags mask == 0)

-- A SimpleBlock says itself whether it is a keyframe; a Block is one unless it refers to another.
abbrev pub block_access : Bool → Bool → Bool → RandomAccess
block_access true key referenced = if key then yes_random else no_random
block_access false key referenced = if referenced then no_random else yes_random

-- What the frames of one block share: `n` is how many there are.
pub record Frames : Type 0 where
  pub track : ℕ
  pub pts : ℤ
  pub access : RandomAccess
  pub n : ℕ
  pub bytes : Bytes
  pub offset : ℕ
  pub extras : GroupExtras

abbrev pub seconds : ℕ → FrameDuration
seconds ns = record { numerator = ns; denominator = ns_per_second }

-- Positive padding trims the end of the last frame, negative padding the start of the first.
abbrev pub discard_of : Option ℤ → Bool → Bool → Option Discard
discard_of none first last = none
discard_of (some (pos zero)) first last = none
discard_of (some (pos (suc n))) first last =
    if last then some (record { start = none; end = some (seconds (suc n)) }) else none
discard_of (some (negsuc n)) first last =
    if first then some (record { start = some (seconds (suc n)); end = none }) else none

-- Whether `FrameDuration::new` takes the nanoseconds of a discard.
unfoldable pub takes : Library → Option Discard → Bool
takes lib none = true
takes lib (some d) = elim d.start [
  | some s ↦ lib.frame_duration_new s.numerator ns_per_second
  | none ↦ elim d.end [ some e ↦ lib.frame_duration_new e.numerator ns_per_second | none ↦ true ]
]

abbrev pub has_wide_id : List (ℕ × Bytes) → Bool
has_wide_id [] = false
has_wide_id ((id, _) ∷ rest) = not (ltb id (2 ^ 32)) || has_wide_id rest

-- The next number of a track is used up.
abbrev pub bump : List ℕ → ℕ → ℕ → List ℕ
bump [] track by = []
bump (o ∷ os) zero by = (o + by) ∷ os
bump (o ∷ os) (suc track) by = o ∷ bump os track by

-- Later frames of a lace have no recorded time.
unfoldable pub frame_packet : Library → TimeBase → Frames → ℕ → ℕ → ℕ → ℕ → Packet
frame_packet lib base f ordinal i start len = record {
  track = f.track;
  config_epoch = lib.epoch;
  ordinal = ordinal;
  input_offset = some (f.offset + start);
  pts = if i == 0 then some (record { ticks = f.pts; base = base }) else none;
  duration_ticks = if f.n == 1 then f.extras.duration else none;
  discard = discard_of f.extras.discard_padding (i == 0) (i == f.n - 1);
  random_access = f.access;
  payload = some (slice start (start + len) f.bytes);
  additions = if i == 0 then f.extras.additions else [];
}

-- Frame `i` of a block, at `start` in its bytes.
unfoldable pub push_frame : Library → Frames → ℕ → ℕ → ℕ → Action WebmDemuxer (Unit {0})
push_frame lib f i start len = do
  lift (refuse (len == 0) (codec empty_frame))
  lift (refuse (not (lib.check_packet_bytes len)) limit)
  lift (refuse (not (lib.reserve len)) limit)
  ordinal ← read (λ d. get_or d.ordinals f.track 0)
  change (λ d. record d { ordinals = bump d.ordinals f.track 1 })
  base ← read (λ d. d.time_base)
  lift (refuse (i == 0 && has_wide_id f.extras.additions) (codec bad_integer))
  lift (
      refuse (not (takes lib (discard_of f.extras.discard_padding (i == 0) (i == f.n - 1))))
        (codec timestamp_overflow))
  change
      (λ d. record d { pending = d.pending ++ (frame_packet lib base f ordinal i start len ∷ []) })

unfoldable pub push_frames : Library → Frames → ℕ → List (ℕ × ℕ) → Action WebmDemuxer (Unit {0})
push_frames lib f i [] = give tt
push_frames lib f i ((start, len) ∷ rest) = do
  push_frame lib f i start len
  push_frames lib f (i + 1) rest

-- The timestamp of the cluster that is open.
abbrev pub cluster_time : Option Cluster → Option ℤ
cluster_time none = none
cluster_time (some c) = c.timestamp

-- `base.checked_add(rel)`
abbrev pub add_i64 : ℤ → ℤ → Option ℤ
add_i64 a b = if is_i64 (a +ℤ b) then some (a +ℤ b) else none

-- A SimpleBlock or Block that stands at `body_offset`.
unfoldable pub block : Library → Bytes → ℕ → Bool → GroupExtras → Action WebmDemuxer (Unit {0})
block lib body body_offset simple extras = do
  h ← lift (read_head body)
  numbers ← read (λ d. d.numbers)
  track ← lift (ok_or (position h.number numbers) (codec undeclared_track))
  cluster ← read (λ d. d.cluster)
  base ← lift (ok_or (cluster_time cluster) (codec block_before_timestamp))
  pts ← lift (ok_or (add_i64 base h.rel) (codec timestamp_overflow))
  let bytes = drop (h.len + 3) body
  frames ← lift (unlace bytes (h.flags / 2 % 4))
  push_frames lib
      (record {
        track = track;
        pts = pts;
        access = block_access simple (is_set h.flags 0x80) extras.referenced;
        n = length frames;
        bytes = bytes;
        offset = body_offset + (h.len + 3);
        extras = extras;
      })
      0 frames

unfoldable pub block_group : Library → Bytes → ℕ → Action WebmDemuxer (Unit {0})
block_group lib body body_offset = do
  group ← lift (read_group body)
  block lib group.0.0 (body_offset + group.0.1) false group.1
