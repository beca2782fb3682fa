-- ===== src/Psd/Merged/Inflate.antt =====
-- The loop that inflates the planes: it ends, and it stays inside the payload.
use zenextras.Prelude.{
  ℕ, zero, suc, ◌+◌, ◌-◌, ◌*◌, ◌%◌, ◌≤◌, ◌<◌, min, Bool, true, false, not, ◌&&◌, some,
}
use zenextras.Prelude.{◌++◌, length, drop, length-drop, ltb, ◌==◌, ltb→lt, if◌then◌else◌, if-cong}
use zenextras.Prelude.{
  Bool-cases, Option-cases, inl, inr, ◌≡◌, refl, arith, Result, ok, err, ok-injective, subst,
}
use zenextras.Prelude.{if-elim, length-append, ltb→le, ==→eq}
use zenextras.Prelude.Bytes.{Bytes}
use zenextras.Psd.Types.{PsdError, stopped, malformed, unexpected_eof}
use zenextras.Psd.Merged.{Inflated, Inflater, Planes, zip_loop}

-- A state in which no stream has begun: a stream that ends has taken a byte at least.
abbrev pub IsFresh : (z : Inflater) → z.Z → Type 0
IsFresh z s =
    (input : Bytes) (room : ℕ) (r : Inflated z.Z)
    → z.decompress s input room ≡ some r
    → r.stream_end ≡ true
    → 0 < r.consumed

-- What flate2 documents: a call takes no more than its input and makes no more than its room, and a new or a reset
-- inflater is fresh.
pub record IsInflater (z : Inflater) : Type 0 where
  pub takes :
      (s : z.Z) (input : Bytes) (room : ℕ) (r : Inflated z.Z)
      → z.decompress s input room ≡ some r
      → r.consumed ≤ length input
  pub makes :
      (s : z.Z) (input : Bytes) (room : ℕ) (r : Inflated z.Z)
      → z.decompress s input room ≡ some r
      → length r.produced ≤ room
  pub new_is_fresh : IsFresh z z.fresh
  pub reset_is_fresh : (s : z.Z) → IsFresh z (z.reset s)

progress : (a b : ℕ) → (a == 0 && b == 0) ≡ false → 0 < a + b
progress a b h = ground arith

reset_rounds : (begun consumed : ℕ) → (begun ≡ 0 → 0 < consumed) → 0 < begun + consumed
reset_rounds zero consumed h = omega (arith, h refl)
reset_rounds (suc b) consumed h = omega arith

module _ (z : Inflater) (stop : ℕ → Bool) (payload : Bytes)
    (plane_bytes used_total all_total : ℕ) where
  -- The rounds that are left: two for each byte, and one in a stream that was begun.
  abbrev rounds : ℕ → ℕ → ℕ
  rounds in_pos out_pos = 2 * ((length payload - in_pos) + (all_total - out_pos))

  abbrev room_at : ℕ → ℕ
  room_at out_pos =
      if ltb out_pos used_total then used_total - out_pos else min (all_total - out_pos) 8192

  room_within : used_total ≤ all_total → (out_pos : ℕ) → room_at out_pos ≤ all_total - out_pos
  room_within h out_pos = elim (Bool-cases (ltb out_pos used_total)) [
    | inl e ↦ rw e (omega arith)
    | inr e ↦ rw e (omega arith)
  ]

  -- The result does not depend on the fuel, once there are two rounds for each byte that is left of the payload and of the
  -- planes, and one more in a stream that was begun: for an inflater that behaves as documented the loop ends.
  pub zip_loop_enough :
      IsInflater z
      → used_total ≤ all_total
      → (fuel fuel' begun : ℕ) (state : z.Z) (n in_pos out_pos : ℕ) (out : Bytes)
      → (begun ≡ 0 → IsFresh z state)
      → rounds in_pos out_pos + begun < fuel
      → rounds in_pos out_pos + begun < fuel'
      → zip_loop z stop payload plane_bytes used_total all_total fuel state n in_pos out_pos out
        ≡ zip_loop z stop payload plane_bytes used_total all_total fuel' state n in_pos out_pos out
  unfolding zip_loop
  zip_loop_enough law used zero fuel' begun state n in_pos out_pos out fresh h h' =
      absurd (omega arith)
  zip_loop_enough law used (suc fuel) zero begun state n in_pos out_pos out fresh h h' =
      absurd (omega arith)
  zip_loop_enough law used (suc fuel) (suc fuel') begun state n in_pos out_pos out fresh h h' =
      if-cong (not (ltb out_pos all_total)) (λ e. refl)
        (λ more.
          if-cong (stop n) (λ e. refl)
            (λ go.
              elim (Option-cases (z.decompress state (drop in_pos payload) (room_at out_pos))) [
                | inl e ↦ rw e refl
                | inr (r, e) ↦
                    let taken : r.consumed ≤ length payload - in_pos =
                      omega (arith, law.takes state _ _ r e, length-drop in_pos payload) in
                    let made : length r.produced ≤ all_total - out_pos =
                      omega (arith, law.makes state _ _ r e, room_within used out_pos) in
                    let continue : (b : ℕ) (s : z.Z) (o : Bytes)
                        → (b ≡ 0 → IsFresh z s)
                        → rounds (in_pos + r.consumed) (out_pos + length r.produced) + b < fuel
                        → rounds (in_pos + r.consumed) (out_pos + length r.produced) + b < fuel'
                        → zip_loop z stop payload plane_bytes used_total all_total fuel s (n + 1)
                            (in_pos + r.consumed) (out_pos + length r.produced) o
                          ≡ zip_loop z stop payload plane_bytes used_total all_total fuel' s (n + 1)
                              (in_pos + r.consumed) (out_pos + length r.produced) o =
                      λ b s o f k k'.
                        zip_loop_enough law used fuel fuel' b s (n + 1) (in_pos + r.consumed)
                          (out_pos + length r.produced) o f k k' in
                    rw e (
                      if-cong r.stream_end
                        (λ ended.
                          if-cong (out_pos + length r.produced == all_total) (λ _. refl)
                            (λ _.
                              if-cong
                                (ltb 0 plane_bytes
                                  && (out_pos + length r.produced) % plane_bytes == 0)
                                (λ _.
                                  let left =
                                    reset_rounds begun r.consumed (λ b. fresh b _ _ r e ended) in
                                  continue 0 (z.reset r.state) _ (λ _. law.reset_is_fresh r.state)
                                    (omega (arith, left, taken, made))
                                    (omega (arith, left, taken, made)))
                                (λ _. refl)))
                        (λ going.
                          if-cong (r.consumed == 0 && length r.produced == 0) (λ _. refl)
                            (λ moved.
                              let some_moved = progress r.consumed (length r.produced) moved in
                              continue 1 r.state _ (λ none_begun. absurd (omega arith))
                                (omega (arith, some_moved, taken, made))
                                (omega (arith, some_moved, taken, made)))))
              ]))

  -- What is written, when the places are `in_pos` and `out_pos`.
  pub record Written (in_pos out_pos : ℕ) (out : Bytes) : Type 0 where
    pub inside : in_pos ≤ length payload
    pub bounded : out_pos ≤ all_total
    pub filled : length out ≡ min out_pos used_total

  abbrev pub Filled : Result PsdError Planes → Type 0
  Filled r =
      (p : Planes) → r ≡ ok p → (p.consumed ≤ length payload) × (length p.planes ≡ used_total)

  fail-Filled : (e : PsdError) → Filled (err e)
  fail-Filled e p h = cc

  Written-step :
      (r : Inflated z.Z) (in_pos out_pos : ℕ) (out : Bytes)
      → Written in_pos out_pos out
      → used_total ≤ all_total
      → r.consumed ≤ length payload - in_pos
      → length r.produced ≤ room_at out_pos
      → Written
          (in_pos + r.consumed)
          (out_pos + length r.produced)
          (if ltb out_pos used_total then out ++ r.produced else out)
  Written-step r in_pos out_pos out w used taken made = elim (Bool-cases (ltb out_pos used_total)) [
    | inl e ↦
        let room : room_at out_pos ≡ used_total - out_pos = rw e refl in
        let before : out_pos < used_total = ltb→lt out_pos used_total e in
        record {
          inside = omega (arith, w.inside);
          bounded = omega (arith, room, before);
          filled = rw e (omega (arith, length-append out r.produced, w.filled, room, before));
        }
    | inr e ↦
        let room : room_at out_pos ≡ min (all_total - out_pos) 8192 = rw e refl in
        let behind : used_total ≤ out_pos = ltb→le out_pos used_total e in
        record {
          inside = omega (arith, w.inside);
          bounded = omega (arith, room, w.bounded);
          filled = rw e (omega (arith, w.filled, behind));
        }
  ]

  pub zip_loop-Filled :
      IsInflater z
      → used_total ≤ all_total
      → (fuel : ℕ) (state : z.Z) (n in_pos out_pos : ℕ) (out : Bytes) → Written in_pos out_pos out
      → Filled
          (zip_loop z stop payload plane_bytes used_total all_total fuel state n in_pos out_pos out)
  unfolding zip_loop
  zip_loop-Filled law used zero state n in_pos out_pos out w = fail-Filled unexpected_eof
  zip_loop-Filled law used (suc fuel) state n in_pos out_pos out w =
      if-elim Filled (not (ltb out_pos all_total))
        (λ e. returned in_pos out_pos out n w (at_the_end out_pos all_total e))
        (λ more.
          if-elim Filled (stop n) (λ _. fail-Filled stopped)
            (λ go.
              elim (Option-cases (z.decompress state (drop in_pos payload) (room_at out_pos))) [
                | inl e ↦ rw e (fail-Filled (malformed "corrupt zlib stream in PSD image data"))
                | inr (r, e) ↦
                    let w' =
                      Written-step r in_pos out_pos out w used
                        (omega (arith, law.takes state _ _ r e, length-drop in_pos payload))
                        (law.makes state _ _ r e) in
                    rw e (
                      if-elim Filled r.stream_end
                        (λ ended.
                          if-elim Filled (out_pos + length r.produced == all_total)
                            (λ full.
                              returned _ _ _ (n + 1) w'
                                (omega (arith, ==→eq (out_pos + length r.produced) all_total full)))
                            (λ _.
                              if-elim Filled
                                (ltb 0 plane_bytes
                                  && (out_pos + length r.produced) % plane_bytes == 0)
                                (λ _.
                                  zip_loop-Filled law used fuel (z.reset r.state) (n + 1) _ _ _ w')
                                (λ _. fail-Filled (
                                  malformed
                                    "zlib stream ended before all PSD channel scanlines were decoded"))))
                        (λ going.
                          if-elim Filled (r.consumed == 0 && length r.produced == 0)
                            (λ _. fail-Filled unexpected_eof)
                            (λ _. zip_loop-Filled law used fuel r.state (n + 1) _ _ _ w')))
              ]))
    where
      at_the_end : (a b : ℕ) → not (ltb a b) ≡ true → b ≤ a
      at_the_end a b h = ground arith

      returned :
          (in_pos out_pos : ℕ) (out : Bytes) (n : ℕ)
          → Written in_pos out_pos out
          → all_total ≤ out_pos
          → Filled (ok (record { planes = out; consumed = in_pos; checks = n }))
      returned in_pos out_pos out n w h p same =
          let the_same : record { planes = out; consumed = in_pos; checks = n } ≡ p =
            ok-injective same in
          subst (λ (q : Planes). (q.consumed ≤ length payload) × (length q.planes ≡ used_total))
            the_same (w.inside, omega (arith, w.filled))
