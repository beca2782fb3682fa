-- ===== src/Webm/Ebml/Fields.antt =====
-- What the writers of IDs and sizes put down, and that `header` reads it back.
use native.Mathlib.Nat.{pow-suc}
use zenextras.Prelude.{ltb, leb, ◌&&◌, &&-true, ltb→lt, leb→le}
use zenextras.Prelude.{ℕ, zero, suc, ◌+◌, ◌-◌, ◌*◌, ◌/◌, ◌^◌, ◌≤◌, ◌<◌, max, bit_or, none, some}
use zenextras.Prelude.{[], ◌++◌, length, drop, append_assoc, drop-append, length-append, ok}
use zenextras.Prelude.{true, false, ◌≡◌, refl, ap, ◌∙◌, arith}
use zenextras.Prelude.Bits.{bit_or_disjoint}
use zenextras.Prelude.Bytes.{Bytes, to_be_bytes, length-to_be_bytes, drop-to_be_bytes}
use zenextras.Webm.Ebml.{Header, of_fields, leading_zeros, header, put_id, put_size}
use zenextras.Webm.Ebml.{size_len, put_unknown_size}
use zenextras.Webm.Ebml.Shift.{leading_zeros-eq}
use zenextras.Webm.Ebml.Vint.{marker, marker-eq, vint_field}

-- An ID that carries its own length marker: `width + 1` bytes, at most four.
pub record IsId (id : ℕ) : Type 0 where
  pub width : ℕ
  pub narrow : width < 4
  pub from : marker width ≤ id
  pub below : id < 2 * marker width

-- An ID is checked by evaluation.
pub by_width : (n id : ℕ) → (ltb n 4 && leb (marker n) id && ltb id (2 * marker n)) ≡ true → IsId id
by_width n id h =
    let (low, below) = &&-true (ltb n 4 && leb (marker n) id) (ltb id (2 * marker n)) h in
    let (narrow, from) = &&-true (ltb n 4) (leb (marker n) id) low in
    record {
      width = n;
      narrow = ltb→lt n 4 narrow;
      from = leb→le (marker n) id from;
      below = ltb→lt id (2 * marker n) below;
    }

-- A size that a field can record: the unknown-size pattern of eight bytes is out of reach.
abbrev pub IsSize : ℕ → Type 0
IsSize size = size < 2 ^ 56 - 1

pub put_id_field :
    (out : Bytes) (id : ℕ) (w : IsId id) → put_id out id ≡ out ++ to_be_bytes (suc w.width) id
unfolding put_id
put_id_field out id w =
    let n = w.width in
    let e : marker n ≡ 2 ^ (7 * (n + 1)) = marker-eq n (omega (arith, w.narrow)) in
    let zeros : leading_zeros 32 id ≡ 24 - 7 * n =
      leading_zeros-eq (24 - 7 * n) (7 * (n + 1)) 32 id (omega (arith, w.narrow))
        (omega (arith, w.from)) (omega (arith, w.below, pow-suc 2 (7 * (n + 1)))) in
    let len : max (4 - (24 - 7 * n) / 8) 1 ≡ suc n = omega (arith, w.narrow) in
    rw (zeros, len)
      (ap (◌++◌ out) (drop-to_be_bytes 4 (4 - suc n) (suc n) id (omega (arith, w.narrow))))

size_len_fits :
    (fuel len size : ℕ)
    → len + fuel ≡ 8
    → IsSize size
    → (len ≤ size_len fuel len size)
      × (size_len fuel len size ≤ 8)
      × (size < 2 ^ (7 * size_len fuel len size) - 1)
unfolding size_len
size_len_fits zero len size e h = let eight : len ≡ 8 = omega arith in rw eight (omega arith)
size_len_fits (suc fuel) len size e h =
    ground (arith, size_len_fits fuel (len + 1) size (omega arith) h)

-- The width that `put_size` chooses.
pub record SizeField (size : ℕ) : Type 0 where
  pub width : ℕ
  pub narrow : width < 8
  pub known : size + 1 < marker width
  pub written :
      (out : Bytes) → put_size out size ≡ out ++ to_be_bytes (suc width) (marker width + size)

pub put_size-SizeField : (size : ℕ) → IsSize size → SizeField size
unfolding put_size
put_size-SizeField size h = field (size_len 7 1 size) refl (size_len_fits 7 1 size refl h)
  where
    field :
        (len : ℕ)
        → size_len 7 1 size ≡ len
        → (1 ≤ len) × (len ≤ 8) × (size < 2 ^ (7 * len) - 1)
        → SizeField size
    field zero e (one, eight, room) = elim one [ ]
    field (suc n) e (one, eight, room) =
        let power : marker n ≡ 2 ^ (7 * suc n) =
          marker-eq n (omega arith) ∙ ap (λ (t : ℕ). 2 ^ (7 * t)) (plus n) in
        let joined : bit_or (1 * 2 ^ (7 * suc n)) size ≡ marker n + size =
          bit_or_disjoint (7 * suc n) 1 size (omega arith) ∙ omega arith in
        let kept : drop (8 - suc n) (to_be_bytes 8 (marker n + size))
            ≡ to_be_bytes (suc n) (marker n + size) =
          drop-to_be_bytes 8 (8 - suc n) (suc n) _ (omega arith) in
        record {
          width = n;
          narrow = omega arith;
          known = omega arith;
          written = λ out. rw (e, joined) (ap (◌++◌ out) kept);
        }
      where
        plus : (n : ℕ) → n + 1 ≡ suc n
        plus n = omega arith

header-Fields :
    (i v n w : ℕ) (rest : Bytes)
    → i < 4
    → marker i ≤ v
    → v < 2 * marker i
    → n < 8
    → marker n ≤ w
    → w < 2 * marker n
    → header (to_be_bytes (suc i) v ++ (to_be_bytes (suc n) w ++ rest))
      ≡ ok (some (of_fields (v, i + 1) (w - marker n, n + 1)))
unfolding header
header-Fields i v n w rest hi lo_v hi_v hn lo_w hi_w =
    let behind : drop (i + 1) (to_be_bytes (suc i) v ++ (to_be_bytes (suc n) w ++ rest))
        ≡ to_be_bytes (suc n) w ++ rest =
      drop-append (to_be_bytes (suc i) v) _ (i + 1) (length-to_be_bytes (suc i) v ∙ omega arith) in
    rw
      (
        vint_field i v (omega arith) lo_v hi_v 4 true (to_be_bytes (suc n) w ++ rest) hi,
        behind,
        vint_field n w hn lo_w hi_w 8 false rest hn,
      )
      refl

-- An ID below 2 ^ 32, so the cast to `u32` keeps it.
IsId-lt : (id : ℕ) → IsId id → id < 2 ^ 32
IsId-lt id w = small w.width w.narrow w.below
  where
    small : (n : ℕ) → n < 4 → id < 2 * marker n → id < 2 ^ 32
    small zero h b = omega arith
    small (suc zero) h b = omega arith
    small (suc (suc zero)) h b = omega arith
    small (suc (suc (suc zero))) h b = omega arith
    small (suc (suc (suc (suc n)))) h b = absurd (omega arith)

-- How many bytes the header of an element takes.
abbrev pub header_len : {id : ℕ} → IsId id → (size : ℕ) → IsSize size → ℕ
header_len w size h = (w.width + 1) + ((put_size-SizeField size h).width + 1)

of_fields_known :
    (id i raw n : ℕ)
    → id < 2 ^ 32
    → raw + 1 < 2 ^ (7 * n)
    → of_fields (id, i) (raw, n) ≡ record { id = id; size = some raw; len = i + n }
of_fields_known id i raw n lo hi = ground arith

-- `header` reads back what `put` writes in front of a payload.
pub header_written :
    (id : ℕ) (w : IsId id) (size : ℕ) (h : IsSize size) (rest : Bytes)
    → header (put_size (put_id [] id) size ++ rest)
      ≡ ok (some (record { id = id; size = some size; len = header_len w size h }))
header_written id w size h rest =
    let f = put_size-SizeField size h in
    let wide : header (
          to_be_bytes (suc w.width) id
          ++ (to_be_bytes (suc f.width) (marker f.width + size) ++ rest))
        ≡ ok (
            some
              (of_fields (id, w.width + 1) (marker f.width + size - marker f.width, f.width + 1))) =
      header-Fields w.width id f.width (marker f.width + size) rest w.narrow w.from w.below f.narrow
        (omega arith) (omega (arith, f.known)) in
    let sized : marker f.width + size - marker f.width ≡ size = omega arith in
    let room : size + 1 < 2 ^ (7 * (f.width + 1)) =
      omega (arith, f.known, marker-eq f.width f.narrow) in
    rw
      (
        f.written (put_id [] id),
        put_id_field [] id w,
        append_assoc (to_be_bytes (suc w.width) id)
            (to_be_bytes (suc f.width) (marker f.width + size)) rest,
      )
      (wide
        ∙ rw sized (
            ap (λ (t : Header). ok (some t))
              (of_fields_known id (w.width + 1) size (f.width + 1) (IsId-lt id w) room)))

pub length-put_size :
    (out : Bytes) (id : ℕ) (w : IsId id) (size : ℕ) (h : IsSize size)
    → length (put_size (put_id out id) size) ≡ length out + header_len w size h
length-put_size out id w size h =
    let f = put_size-SizeField size h in
    rw (f.written (put_id out id), put_id_field out id w)
      (omega (
        arith,
        length-append (out ++ to_be_bytes (suc w.width) id)
            (to_be_bytes (suc f.width) (marker f.width + size)),
        length-append out (to_be_bytes (suc w.width) id),
        length-to_be_bytes (suc w.width) id,
        length-to_be_bytes (suc f.width) (marker f.width + size),
      ))

-- The eight-byte field of ones that the muxer puts behind its Segment ID reads as an unknown size.
pub header_unknown_size :
    (id : ℕ) (w : IsId id) (rest : Bytes)
    → header (put_unknown_size (put_id [] id) ++ rest)
      ≡ ok (some (record { id = id; size = none; len = w.width + 9 }))
unfolding put_unknown_size
header_unknown_size id w rest =
    let ones = 2 ^ 57 - 1 in
    let read : header (to_be_bytes (suc w.width) id ++ (to_be_bytes 8 ones ++ rest))
        ≡ ok (some (of_fields (id, w.width + 1) (ones - marker 7, 8))) =
      header-Fields w.width id 7 ones rest w.narrow w.from w.below (omega arith) (omega arith)
        (omega arith) in
    let fields : of_fields (id, w.width + 1) (ones - marker 7, 8)
        ≡ record { id = id; size = none; len = w.width + 9 } =
      ground (arith, IsId-lt id w) in
    rw (put_id_field [] id w, append_assoc (to_be_bytes (suc w.width) id) (to_be_bytes 8 ones) rest)
      (read ∙ ap (λ (t : Header). ok (some t)) fields)
