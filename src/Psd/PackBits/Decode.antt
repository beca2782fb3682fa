-- ===== src/Psd/PackBits/Decode.antt =====
-- The decoder takes exactly the packet lists that fill the scanline.
use zenextras.Prelude.{ℕ, zero, suc, ◌+◌, ◌-◌, ◌≤◌, ◌<◌, ◌≢◌, List, [], ◌∷◌, ◌++◌, All, false}
use zenextras.Prelude.{length, take, drop, replicate, length-append, length-replicate, length-take}
use zenextras.Prelude.{take-append, drop-append, take-append-drop, append_assoc, append-nil}
use zenextras.Prelude.{ltb, ◌==◌, ltb→lt, ltb→le, lt→ltb, le→ltb, ==→eq, Bool-cases, inl, inr}
use zenextras.Prelude.{
  if_err-eq-ok, ok-injective, ok, Result, ◌≡◌, refl, sym, ap, ◌∙◌, arith, All-drop,
}
use zenextras.Prelude.Bytes.{Bytes, AllBytes, IsByte}
use zenextras.Psd.Types.{PsdError}
use zenextras.Psd.PackBits.{finish, literal_run, repeat_run, decode_loop, decode_packbits_row}
use zenextras.Psd.PackBits.Packets.{
  Packet, literal, run, filler, IsPacket, packet_bytes, unpacked, packed,
}
use zenextras.Psd.PackBits.Packets.{expanded}

-- A full scanline ends the loop, whatever is left of the input.
loop_full :
    (fuel : ℕ) (src : Bytes) (row_bytes : ℕ) (out : Bytes)
    → length out ≡ row_bytes
    → decode_loop fuel row_bytes src out ≡ ok out
unfolding decode_loop
loop_full fuel [] row_bytes out e = ground arith
loop_full zero (h ∷ src) row_bytes out e = ground arith
loop_full (suc fuel) (h ∷ src) row_bytes out e = ground arith

loop_literal :
    (fuel : ℕ) (bs rest : Bytes) (row_bytes : ℕ) (out : Bytes)
    → 1 ≤ length bs
    → length bs ≤ 128
    → length out + length bs ≤ row_bytes
    → decode_loop (suc fuel) row_bytes ((length bs - 1) ∷ (bs ++ rest)) out
      ≡ decode_loop fuel row_bytes rest (out ++ bs)
unfolding decode_loop
loop_literal fuel bs rest row_bytes out lo hi room =
    let count : length bs - 1 + 1 ≡ length bs = omega arith in
    rw
      (
        lt→ltb (length out) row_bytes (omega arith),
        lt→ltb (length bs - 1) 128 (omega arith),
        count,
        le→ltb (length (bs ++ rest)) (length bs) (omega (arith, length-append bs rest)),
        le→ltb row_bytes (length out + length bs) room,
        take-append bs rest (length bs) refl,
        drop-append bs rest (length bs) refl,
      )
      refl

loop_run :
    (fuel n v : ℕ) (rest : Bytes) (row_bytes : ℕ) (out : Bytes)
    → 2 ≤ n
    → n ≤ 128
    → length out + n ≤ row_bytes
    → decode_loop (suc fuel) row_bytes ((257 - n) ∷ v ∷ rest) out
      ≡ decode_loop fuel row_bytes rest (out ++ replicate n v)
unfolding decode_loop
loop_run fuel n v rest row_bytes out lo hi room =
    let count : 257 - (257 - n) ≡ n = omega arith in
    let is_run : ((257 - n) == 128) ≡ false = ground arith in
    rw
      (
        lt→ltb (length out) row_bytes (omega arith),
        le→ltb (257 - n) 128 (omega arith),
        is_run,
        count,
        le→ltb row_bytes (length out + n) room,
      )
      refl

loop_filler :
    (fuel : ℕ) (rest : Bytes) (row_bytes : ℕ) (out : Bytes)
    → length out < row_bytes
    → decode_loop (suc fuel) row_bytes (128 ∷ rest) out ≡ decode_loop fuel row_bytes rest out
unfolding decode_loop
loop_filler fuel rest row_bytes out room = rw (lt→ltb (length out) row_bytes room) refl

-- A packet that fits is appended.
loop_packet :
    (fuel : ℕ) (p : Packet) (rest : Bytes) (row_bytes : ℕ) (out : Bytes)
    → IsPacket p
    → length out < row_bytes
    → length out + length (unpacked p) ≤ row_bytes
    → decode_loop (suc fuel) row_bytes (packet_bytes p ++ rest) out
      ≡ decode_loop fuel row_bytes rest (out ++ unpacked p)
loop_packet fuel (literal bs) rest row_bytes out v room fits =
    loop_literal fuel bs rest row_bytes out v.0 v.1 fits
loop_packet fuel (run n x) rest row_bytes out v room fits =
    loop_run fuel n x rest row_bytes out v.0 v.1 (omega (arith, length-replicate n x))
loop_packet fuel filler rest row_bytes out v room fits =
    loop_filler fuel rest row_bytes out room ∙ rw (append-nil out)

packet_bytes_some : (p : Packet) → 1 ≤ length (packet_bytes p)
packet_bytes_some (literal bs) = omega arith
packet_bytes_some (run n v) = omega arith
packet_bytes_some filler = omega arith

empty_of_length : (xs : Bytes) → length xs ≡ 0 → xs ≡ []
empty_of_length [] e = refl
empty_of_length (x ∷ xs) e = absurd (omega arith)

loop_packed :
    (ps : List Packet) (fuel : ℕ) (junk : Bytes) (row_bytes : ℕ) (out : Bytes)
    → All IsPacket ps
    → length out + length (expanded ps) ≡ row_bytes
    → length (packed ps ++ junk) ≤ fuel
    → decode_loop fuel row_bytes (packed ps ++ junk) out ≡ ok (out ++ expanded ps)
loop_packed [] fuel junk row_bytes out v e le =
    loop_full fuel junk row_bytes out (omega arith) ∙ ap ok (sym (append-nil out))
loop_packed (p ∷ ps) zero junk row_bytes out v e le = absurd (
    omega (
      arith,
      packet_bytes_some p,
      length-append (packet_bytes p ++ packed ps) junk,
      length-append (packet_bytes p) (packed ps),
    ))
loop_packed (p ∷ ps) (suc fuel) junk row_bytes out v e le =
    let split = length-append (unpacked p) (expanded ps) in
    elim (Bool-cases (ltb (length out) row_bytes)) [
      | inl more ↦
          let room = ltb→lt (length out) row_bytes more in
          let whole = append_assoc (packet_bytes p) (packed ps) junk in
          ap (λ (t : Bytes). decode_loop (suc fuel) row_bytes t out) whole
          ∙ loop_packet fuel p (packed ps ++ junk) row_bytes out v.0 room (omega arith)
          ∙ loop_packed ps fuel junk row_bytes (out ++ unpacked p) v.1
              (omega (arith, length-append out (unpacked p)))
              (omega (
                arith,
                ap length whole,
                packet_bytes_some p,
                length-append (packet_bytes p) (packed ps ++ junk),
              ))
          ∙ ap ok (append_assoc out (unpacked p) (expanded ps))
      | inr full ↦
          let enough : row_bytes ≤ length out = ltb→le (length out) row_bytes full in
          loop_full (suc fuel) _ row_bytes out (omega arith)
          ∙ ap ok (rw (empty_of_length (expanded (p ∷ ps)) (omega arith)) (sym (append-nil out)))
    ]

-- A scanline that is coded by packets, in any way and with anything behind it, is decoded to what the
-- packets expand to, if that fills the scanline.
pub decode_packbits_row-packed :
    (ps : List Packet) (junk : Bytes) (row_bytes : ℕ)
    → All IsPacket ps
    → length (expanded ps) ≡ row_bytes
    → decode_packbits_row (packed ps ++ junk) row_bytes ≡ ok (expanded ps)
unfolding decode_packbits_row
decode_packbits_row-packed ps junk row_bytes v e =
    loop_packed ps _ junk row_bytes [] v (omega arith) (omega arith)

-- What an accepted scanline is.
pub record IsRow (src : Bytes) (row_bytes : ℕ) (out row : Bytes) : Type 0 where
  pub packets : List Packet
  pub junk : Bytes
  pub split : src ≡ packed packets ++ junk
  pub valid : All IsPacket packets
  pub made : row ≡ out ++ expanded packets
  pub full : length row ≡ row_bytes

finish-IsRow :
    (src : Bytes) (row_bytes : ℕ) (out row : Bytes)
    → finish row_bytes out ≡ ok row
    → IsRow src row_bytes out row
unfolding finish
finish-IsRow src row_bytes out row e = elim (Bool-cases (length out == row_bytes)) [
  | inl same ↦
      let same_row : out ≡ row = ok-injective (rw same at e) in
      record {
        packets = [];
        junk = src;
        split = refl;
        valid = tt;
        made = sym same_row ∙ sym (append-nil out);
        full = ap length (sym same_row) ∙ ==→eq (length out) row_bytes same;
      }
  | inr other ↦ cc (rw other at e)
]

-- A packet in front of an accepted rest.
packet-IsRow :
    (p : Packet) (src rest : Bytes) (row_bytes : ℕ) (out row : Bytes)
    → IsPacket p
    → src ≡ packet_bytes p ++ rest
    → IsRow rest row_bytes (out ++ unpacked p) row
    → IsRow src row_bytes out row
packet-IsRow p src rest row_bytes out row v e r = record {
  packets = p ∷ r.packets;
  junk = r.junk;
  split =
      e
      ∙ ap (◌++◌ (packet_bytes p)) r.split
      ∙ sym (append_assoc (packet_bytes p) (packed r.packets) r.junk);
  valid = (v, r.valid);
  made = r.made ∙ append_assoc out (unpacked p) (expanded r.packets);
  full = r.full;
}

not_eq : (h : ℕ) → (h == 128) ≡ false → h ≢ 128
not_eq h e q = ground arith

-- The rest of the loop gives rows of the rest of the source.
abbrev Continues : (Bytes → Bytes → Result PsdError Bytes) → ℕ → Bytes → Type 0
Continues continue row_bytes row =
    (rest o : Bytes) → AllBytes rest → continue rest o ≡ ok row → IsRow rest row_bytes o row

literal-IsRow :
    (continue : Bytes → Bytes → Result PsdError Bytes) (h : ℕ) (src : Bytes) (row_bytes : ℕ)
    (out row : Bytes)
    → AllBytes (h ∷ src)
    → Continues continue row_bytes row
    → h < 128
    → literal_run continue h src row_bytes out ≡ ok row
    → IsRow (h ∷ src) row_bytes out row
unfolding literal_run
literal-IsRow continue h src row_bytes out row all later low e =
    let (in_src, e1) = if_err-eq-ok (ltb (length src) (h + 1)) _ _ e in
    let (in_row, e2) = if_err-eq-ok (ltb row_bytes (length out + (h + 1))) _ _ e1 in
    let bs = take (h + 1) src in
    let inside : h + 1 ≤ length src = ltb→le (length src) (h + 1) in_src in
    let long : length bs ≡ h + 1 = omega (arith, length-take (h + 1) src) in
    let head : h ≡ length bs - 1 = omega arith in
    packet-IsRow (literal bs) (h ∷ src) (drop (h + 1) src) row_bytes out row
      (omega arith, omega arith)
      (ap (◌∷◌ h) (sym (take-append-drop (h + 1) src))
        ∙ ap (λ (t : ℕ). t ∷ (bs ++ drop (h + 1) src)) head)
      (later (drop (h + 1) src) (out ++ bs) (All-drop IsByte (h + 1) src all.1) e2)

repeat-IsRow :
    (continue : Bytes → Bytes → Result PsdError Bytes) (h : ℕ) (src : Bytes) (row_bytes : ℕ)
    (out row : Bytes)
    → AllBytes (h ∷ src)
    → Continues continue row_bytes row
    → 129 ≤ h
    → repeat_run continue h src row_bytes out ≡ ok row
    → IsRow (h ∷ src) row_bytes out row
unfolding repeat_run
repeat-IsRow continue h [] row_bytes out row all later high e = cc
repeat-IsRow continue h (v ∷ rest) row_bytes out row all later high e =
    let (in_row, e1) = if_err-eq-ok _ _ _ e in
    let head : h ≡ 257 - (257 - h) = omega (arith, all.0) in
    packet-IsRow (run (257 - h) v) (h ∷ v ∷ rest) rest row_bytes out row
      (omega (arith, all.0), omega arith) (ap (λ (t : ℕ). t ∷ v ∷ rest) head)
      (later rest (out ++ replicate (257 - h) v) all.1.1 e1)

loop-IsRow :
    (fuel : ℕ) (src : Bytes) (row_bytes : ℕ) (out row : Bytes)
    → AllBytes src
    → decode_loop fuel row_bytes src out ≡ ok row
    → IsRow src row_bytes out row
unfolding decode_loop
loop-IsRow fuel [] row_bytes out row all e = finish-IsRow [] row_bytes out row e
loop-IsRow zero (h ∷ src) row_bytes out row all e = finish-IsRow (h ∷ src) row_bytes out row e
loop-IsRow (suc fuel) (h ∷ src) row_bytes out row all e =
    let later = λ (rest o : Bytes). loop-IsRow fuel rest row_bytes o row in
    elim (Bool-cases (ltb (length out) row_bytes)) [
      | inr full ↦ finish-IsRow (h ∷ src) row_bytes out row (rw full at e)
      | inl room ↦ elim (Bool-cases (ltb h 128)) [
        | inl low ↦
            literal-IsRow (decode_loop fuel row_bytes) h src row_bytes out row all later
              (ltb→lt h 128 low) (rw (room, low) at e)
        | inr high ↦ elim (Bool-cases (h == 128)) [
          | inl filled ↦
              packet-IsRow filler (h ∷ src) src row_bytes out row tt
                (ap (λ (t : ℕ). t ∷ src) (==→eq h 128 filled))
                (rw append-nil (later src out all.1 (rw (room, high, filled) at e)))
          | inr repeated ↦
              repeat-IsRow (decode_loop fuel row_bytes) h src row_bytes out row all later
                (omega (arith, ltb→le h 128 high, not_eq h repeated))
                (rw (room, high, repeated) at e)
        ]
      ]
    ]

-- An accepted scanline has the length asked for, and is what the packets in front of its source expand
-- to.
pub decode_packbits_row_sound :
    (src : Bytes) (row_bytes : ℕ) (row : Bytes)
    → AllBytes src
    → decode_packbits_row src row_bytes ≡ ok row
    → IsRow src row_bytes [] row
unfolding decode_packbits_row
decode_packbits_row_sound src row_bytes row all e = loop-IsRow _ src row_bytes [] row all e
