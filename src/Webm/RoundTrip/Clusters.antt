-- ===== src/Webm/RoundTrip/Clusters.antt =====
-- What the writer keeps in an open cluster: the elements of blocks, each with its time relative to the cluster's.
use zenextras.Prelude.{ℕ, ◌+◌, ◌-◌, ◌<◌, ◌^◌, ◌%◌, Bool, true, false, Option, none, some, ◌||◌}
use zenextras.Prelude.{
  List, [], ◌∷◌, ◌++◌, length, All, All-append, map, Result, ok, err, if◌then◌else◌,
}
use zenextras.Prelude.{
  ◌≡◌, refl, ap, sym, ◌∙◌, arith, Bool-cases, inl, inr, if_err-eq-ok, ok-injective, if-elim, ok_or,
  subst,
}
use mathlib.Core.List.{map-append}
use zenextras.Webm.Ebml.{put}
use zenextras.Prelude.Bytes.{Bytes}
use zenextras.Prelude.Int.{max_ℤ, ltb_ℤ, ◌-ℤ◌}
use zenextras.Prelude.Int.{ℤ, pos, negsuc, IsI64, sub_i64, i64_bits, pos_part, neg_part}
use zenextras.Webm.Types.{SessionError, Packet, RandomAccess}
use zenextras.Webm.Action.{Ensures, continue-Ensures, lift-Ensures}
use zenextras.Webm.Ebml.Fields.{IsSize}
use zenextras.Webm.Ebml.Elements.{put_all, put_all-put_all}
use zenextras.Webm.Muxer.State.{WebmMuxer, OpenCluster, MuxTrack}
use zenextras.Webm.Muxer.Blocks.{Block, put_block, put_more}
use zenextras.Webm.Muxer.Delimiter.{length-without_temporal_delimiter}
use zenextras.Webm.Action.{continue, change, give}
use zenextras.Webm.Types.{panicked}
use zenextras.Webm.Muxer.{should_roll, roll_in, open_cluster, block_in, add_block, into_cluster}
use zenextras.Webm.Muxer.Clusters.{close_cluster}
use zenextras.Webm.RoundTrip.Heads.{IsI16}
use zenextras.Webm.RoundTrip.Groups.{IsAddition, IsDuration, IsPadding}
use zenextras.Webm.RoundTrip.WholeGroup.{IsBlock}
use zenextras.Webm.RoundTrip.Packets.{block_element, put_block-block_element}

-- A cluster that holds the blocks `bs`, in order.
pub record Carries (c : OpenCluster) (bs : List Block) : Type 0 where
  pub from_zero : neg_part c.base ≡ 0
  pub base_range : pos_part c.base < 2 ^ 63
  pub written : c.body ≡ put_all [] (map block_element bs)
  pub blocks : All IsBlock bs

abbrev pub IsOpen : Option OpenCluster → Type 0
IsOpen none = Unit {0}
IsOpen (some c) = (bs : List Block) × Carries c bs

-- A packet whose sizes fields can hold.
pub record IsPacket (packet : Packet) (payload : Bytes) : Type 0 where
  pub additions : All IsAddition packet.additions
  pub fits : IsSize (length payload + length (put_more [] packet.additions) + 200)

-- The block goes behind the others.
added :
    (c : OpenCluster) (bs : List Block) (b : Block) (n : ℕ)
    → Carries c bs
    → IsBlock b
    → Carries (record c { body = put_block c.body b; blocks = n }) (bs ++ (b ∷ []))
added c bs b n h w = record {
  from_zero = h.from_zero;
  base_range = h.base_range;
  written =
      put_block-block_element c.body b
      ∙ ap (λ (t : Bytes). put t (block_element b).0 (block_element b).1) h.written
      ∙ one_more
      ∙ ap (put_all []) (sym (map-append block_element bs (b ∷ [])));
  blocks = All-append IsBlock bs (b ∷ []) h.blocks (w, tt);
}
  where
    one_more :
        put (put_all [] (map block_element bs)) (block_element b).0 (block_element b).1
        ≡ put_all [] (map block_element bs ++ (block_element b ∷ []))
    one_more = sym (put_all-put_all (map block_element bs) (block_element b ∷ []) [] ∙ last)
      where
        last :
            put_all (put_all [] (map block_element bs)) (block_element b ∷ [])
            ≡ put (put_all [] (map block_element bs)) (block_element b).0 (block_element b).1
        last = unfold put_all in refl

abbrev pub fresh : ℤ → OpenCluster
fresh at = record { base = max_ℤ at (pos 0); body = []; blocks = 0 }

fresh-Carries : (at : ℤ) → IsI64 at → Carries (fresh at) []
unfolding put_all
fresh-Carries at h = record {
  from_zero = ground arith;
  base_range = ground arith;
  written = refl;
  blocks = tt;
}

-- A time that a new cluster takes is at most 2 ^ 15 before the cluster's.
fresh-near :
    (at : ℤ)
    → IsI64 at
    → ltb_ℤ at (negsuc (2 ^ 15 - 1)) ≡ false
    → IsI16 (sub_i64 at (fresh at).base)
unfolding sub_i64 ◌-ℤ◌ i64_bits
fresh-near (pos n) h e = ground arith
fresh-near (negsuc n) h e = ground arith

closed : (m : WebmMuxer) → (close_cluster m).cluster ≡ none
unfolding close_cluster
closed m = ground arith

open_cluster-fresh :
    (at : ℤ) (m : WebmMuxer)
    → Ensures
        (λ _ m'. (m'.cluster ≡ some (fresh at)) × (ltb_ℤ at (negsuc (2 ^ 15 - 1)) ≡ false))
        (λ m'. m'.cluster ≡ none)
        (open_cluster at m)
unfolding open_cluster
open_cluster-fresh at m = elim (Bool-cases (ltb_ℤ at (negsuc (2 ^ 15 - 1)))) [
  | inl low ↦ rw low (closed m)
  | inr high ↦ rw high (refl, refl)
]

near_of :
    (z : ℤ) → ltb_ℤ z (negsuc (2 ^ 15 - 1)) ≡ false → ltb_ℤ (pos (2 ^ 15 - 1)) z ≡ false → IsI16 z
near_of (pos n) low high = ground arith
near_of (negsuc n) low high = ground arith

||-false : (a b : Bool) → (a || b) ≡ false → a ≡ false
||-false true b e = cc
||-false false b e = refl

-- Where a block stays in its cluster, its time is one that 16 bits hold.
kept-near :
    (m : WebmMuxer) (c : OpenCluster) (video : Bool) (access : RandomAccess) (at : ℤ)
    → roll_in m video access at (some c) ≡ ok false
    → IsI16 (sub_i64 at c.base)
kept-near m c video access at kept =
    let rel = sub_i64 at c.base in
    let (low, rest) = if_err-eq-ok (ltb_ℤ rel (negsuc (2 ^ 15 - 1))) _ _ kept in
    near_of rel low (||-false _ _ (||-false _ _ (||-false _ _ (ok-injective rest))))

module _ (track : MuxTrack) (packet : Packet) (at : ℤ) (duration : Option ℕ) (padding : Option ℤ)
    (payload : Bytes) where
  -- The block that a cluster is given.
  abbrev pub given : OpenCluster → Block
  given c = block_in c track packet at duration padding payload

  -- The cluster holds the packet's block behind the blocks of before, or alone.
  abbrev pub Holding : WebmMuxer → Type 0
  Holding m =
      (c : OpenCluster) × (bs : List Block) × (m.cluster ≡ some c)
      × Carries c (bs ++ (given c ∷ []))

  module _ (numbered : packet.track < 126) (time : IsI64 at) (lasting : IsDuration duration)
      (padded : IsPadding padding) (sized : IsPacket packet payload) where
    given-IsBlock : (c : OpenCluster) → IsI16 (sub_i64 at c.base) → IsBlock (given c)
    unfolding block_in
    given-IsBlock c near = record {
      numbered = numbered;
      near = near;
      duration = lasting;
      padding = padded;
      additions = sized.additions;
      fits =
          if-elim (λ (t : Bytes). IsSize (length t + length (put_more [] packet.additions) + 200))
            track.av1 (λ _. omega (arith, length-without_temporal_delimiter payload, sized.fits))
            (λ _. sized.fits);
    }

    -- The block goes into the cluster that is open.
    add-Holding :
        (m : WebmMuxer) (o : Option OpenCluster) (c : OpenCluster) (bs : List Block)
        → o ≡ some c
        → Carries c bs
        → IsI16 (sub_i64 at c.base)
        → Ensures
            (λ _ m'. Holding m')
            (λ m'. IsOpen m'.cluster)
            (continue (m, ok_or o panicked) (λ c. change (add_block c (given c))))
    unfolding block_in
    add-Holding m o c bs e h near = rw e (
      record (c) { body = put_block c.body (given c); blocks = (c.blocks + 1) % 2 ^ 32 },
      bs,
      unfold add_block in refl,
      added c bs (given c) ((c.blocks + 1) % 2 ^ 32) h (given-IsBlock c near),
    )

    new_cluster :
        (m : WebmMuxer)
        → Ensures
            (λ _ m'. Holding m')
            (λ m'. IsOpen m'.cluster)
            (continue
              (open_cluster at m)
              (λ _ m. continue (m, ok_or m.cluster panicked) (λ c. change (add_block c (given c)))))
    new_cluster m =
        continue-Ensures
          (λ _ m'. (m'.cluster ≡ some (fresh at)) × (ltb_ℤ at (negsuc (2 ^ 15 - 1)) ≡ false))
          (λ _ m'. Holding m') (λ m'. IsOpen m'.cluster) (open_cluster at m) _
          (weaken (open_cluster at m) (open_cluster-fresh at m))
          (λ _ m' opened.
            add-Holding m' m'.cluster (fresh at) [] opened.0 (fresh-Carries at time)
              (fresh-near at time opened.1))
      where
        weaken :
            (r : WebmMuxer × Result SessionError (Unit {0}))
            → Ensures
                (λ _ m'. (m'.cluster ≡ some (fresh at)) × (ltb_ℤ at (negsuc (2 ^ 15 - 1)) ≡ false))
                (λ m'. m'.cluster ≡ none)
                r
            → Ensures
                (λ _ m'. (m'.cluster ≡ some (fresh at)) × (ltb_ℤ at (negsuc (2 ^ 15 - 1)) ≡ false))
                (λ m'. IsOpen m'.cluster)
                r
        weaken (m', ok a) h = h
        weaken (m', err e) h = subst IsOpen (sym h) tt

    pub into_cluster-Holding :
        (m : WebmMuxer)
        → IsOpen m.cluster
        → Ensures
            (λ _ m'. Holding m')
            (λ m'. IsOpen m'.cluster)
            (into_cluster track packet at duration padding payload m)
    unfolding into_cluster should_roll
    into_cluster-Holding m h =
        lift-Ensures (λ _ m'. Holding m') (λ m'. IsOpen m'.cluster)
          (roll_in m track.video packet.random_access at m.cluster) m _ h
          (λ roll answer. decide roll answer)
      where
        decide :
            (roll : Bool)
            → roll_in m track.video packet.random_access at m.cluster ≡ ok roll
            → Ensures
                (λ _ m'. Holding m')
                (λ m'. IsOpen m'.cluster)
                (continue ((if roll then open_cluster at else give tt) m) (λ _ m.
                  continue (m, ok_or m.cluster panicked) (λ c. change (add_block c (given c)))))
        decide true answer = new_cluster m
        decide false answer = stays m.cluster refl answer h
          where
            stays :
                (o : Option OpenCluster)
                → m.cluster ≡ o
                → roll_in m track.video packet.random_access at o ≡ ok false
                → IsOpen o
                → Ensures
                    (λ _ m'. Holding m')
                    (λ m'. IsOpen m'.cluster)
                    (continue (m, ok_or m.cluster panicked) (λ c. change (add_block c (given c))))
            stays none same answer h = cc
            stays (some c) same answer (bs, carries) =
                add-Holding m m.cluster c bs same carries
                  (kept-near m c track.video packet.random_access at answer)
