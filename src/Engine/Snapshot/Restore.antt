-- ===== src/Engine/Snapshot/Restore.antt =====
-- include/lob/engine.hpp: the invariant of the book through `restore`, for any source.
use orderbooks.Bitmap.{l3_words}
use orderbooks.Engine.Snapshot.Replay.{replay_record-cfg, replay_record-BookInv}
use orderbooks.Engine.Snapshot.Empty.{clear_state-empty}
use orderbooks.Engine.Snapshot.Clear.{clear_state-BookInv, clear_state-cfg}
use orderbooks.Engine.Invariant.{BookInv}
use orderbooks.Engine.Submit.{IsValidTemplate}
use orderbooks.Engine.Snapshot.{
  fresh_from, is_for_this_engine, replay_record, clear_state, SnapshotHeader, seed_presence,
  SnapshotOrderRecord, Source, adopt_header, restore, replay_all, restore_from,
}
use orderbooks.Prelude.{
  ◌≤◌, none, false, ◌≡◌, zero, Bool-cases, inr, inl, suc, Option-cases, ◌^◌, ◌<◌, List, ℕ, [], ◌∷◌,
}
use orderbooks.Types.{Template}
use orderbooks.Engine.{best_ask, best_bid, Engine}

module _ (c : Template) where
  pub replay_all-BookInv :
      (n : ℕ) (recs : List SnapshotOrderRecord) (e : Engine)
      → IsValidTemplate c
      → e.cfg.max_order_qty < 2 ^ 64
      → BookInv c e.book
      → BookInv c (replay_all c n recs e).1.book
  unfolding replay_all
  replay_all-BookInv zero recs e valid capped v = v
  replay_all-BookInv (suc n) [] e valid capped v = clear_state-BookInv c e valid.shallow v
  replay_all-BookInv (suc n) (rec ∷ recs) e valid capped v =
      let e' = (replay_record c rec e).1 in
      let v' = replay_record-BookInv c rec e valid.some_room capped v in
      elim (Bool-cases (replay_record c rec e).0) [
        | inl done ↦
            rw (done, replay_all)
              (replay_all-BookInv n recs e' valid (rw (replay_record-cfg c rec e) capped) v')
        | inr refused ↦ rw (refused, replay_all) (clear_state-BookInv c e' valid.shallow v')
      ]

  restore_from-BookInv :
      (hdr : SnapshotHeader) (recs : List SnapshotOrderRecord) (e : Engine)
      → IsValidTemplate c
      → e.cfg.max_order_qty < 2 ^ 64
      → BookInv c e.book
      → BookInv c (restore_from c hdr recs e).1.book
  unfolding restore_from adopt_header seed_presence
  restore_from-BookInv hdr recs e valid capped v =
      let e' = adopt_header c hdr (clear_state c e) in
      let v' =
        replay_all-BookInv hdr.num_orders recs e' valid (rw (clear_state-cfg c e) capped)
          (clear_state-BookInv c e valid.shallow v) in
      elim (Bool-cases (replay_all c hdr.num_orders recs e').0) [
        | inl done ↦ rw done v'
        | inr failed ↦ rw failed v'
      ]

  -- On a valid template whose quantity cap fits 64 bits, whatever the source holds, and whether
  -- restore accepts it or not, it leaves a sound book sound.
  pub restore-BookInv :
      (src : Source) (e : Engine)
      → IsValidTemplate c
      → e.cfg.max_order_qty < 2 ^ 64
      → BookInv c e.book
      → BookInv c (restore c src e).1.book
  unfolding restore
  restore-BookInv src e valid capped v = elim (Option-cases src.header) [
    | inl short ↦ rw short (clear_state-BookInv c e valid.shallow v)
    | inr (hdr, got) ↦ elim (Bool-cases (is_for_this_engine c hdr)) [
      | inl ours ↦ rw (got, ours) (restore_from-BookInv hdr src.records e valid capped v)
      | inr other ↦ rw (got, other) (clear_state-BookInv c e valid.shallow v)
    ]
  ]

  -- No price is left on either side and the state is that of a new engine.
  pub record IsCleared (e : Engine) : Type 0 where
    pub no_bids : best_bid e ≡ none
    pub no_asks : best_ask e ≡ none
    pub fresh : e.state ≡ fresh_from c e

  clear_state-IsCleared :
      (e : Engine) → l3_words c.ticks ≤ 1 → BookInv c e.book → IsCleared (clear_state c e)
  clear_state-IsCleared e fits v =
      let empty = clear_state-empty c e fits v in
      record { no_bids = empty.0; no_asks = empty.1; fresh = rw (clear_state-cfg c e) (empty.2) }

  replay_all-fails-IsCleared :
      (n : ℕ) (recs : List SnapshotOrderRecord) (e : Engine)
      → IsValidTemplate c
      → e.cfg.max_order_qty < 2 ^ 64
      → BookInv c e.book
      → (replay_all c n recs e).0 ≡ false
      → IsCleared (replay_all c n recs e).1
  unfolding replay_all
  replay_all-fails-IsCleared zero recs e valid capped v failed = cc
  replay_all-fails-IsCleared (suc n) [] e valid capped v failed =
      clear_state-IsCleared e valid.shallow v
  replay_all-fails-IsCleared (suc n) (rec ∷ recs) e valid capped v failed =
      let e' = (replay_record c rec e).1 in
      let v' = replay_record-BookInv c rec e valid.some_room capped v in
      elim (Bool-cases (replay_record c rec e).0) [
        | inl done ↦
            rw (done, replay_all)
              (replay_all-fails-IsCleared n recs e' valid (rw (replay_record-cfg c rec e) capped) v'
                (rw (done, replay_all) at failed))
        | inr refused ↦ rw (refused, replay_all) (clear_state-IsCleared e' valid.shallow v')
      ]

  restore_from-fails-IsCleared :
      (hdr : SnapshotHeader) (recs : List SnapshotOrderRecord) (e : Engine)
      → IsValidTemplate c
      → e.cfg.max_order_qty < 2 ^ 64
      → BookInv c e.book
      → (restore_from c hdr recs e).0 ≡ false
      → IsCleared (restore_from c hdr recs e).1
  unfolding restore_from adopt_header
  restore_from-fails-IsCleared hdr recs e valid capped v failed =
      let e' = adopt_header c hdr (clear_state c e) in
      elim (Bool-cases (replay_all c hdr.num_orders recs e').0) [
        | inl done ↦ absurd (cc (rw done at failed))
        | inr stopped ↦ rw stopped (
            replay_all-fails-IsCleared hdr.num_orders recs e' valid
              (rw (clear_state-cfg c e) capped) (clear_state-BookInv c e valid.shallow v) stopped)
      ]

  -- On a valid template whose quantity cap fits 64 bits, a restore that returns false on a sound
  -- book, for whatever reason, leaves no best price on either side and the state of a new engine.
  pub restore-fails-IsCleared :
      (src : Source) (e : Engine)
      → IsValidTemplate c
      → e.cfg.max_order_qty < 2 ^ 64
      → BookInv c e.book
      → (restore c src e).0 ≡ false
      → IsCleared (restore c src e).1
  unfolding restore
  restore-fails-IsCleared src e valid capped v failed = elim (Option-cases src.header) [
    | inl short ↦ rw short (clear_state-IsCleared e valid.shallow v)
    | inr (hdr, got) ↦ elim (Bool-cases (is_for_this_engine c hdr)) [
      | inl ours ↦
          rw (got, ours)
            (restore_from-fails-IsCleared hdr src.records e valid capped v
              (rw (got, ours) at failed))
      | inr other ↦ rw (got, other) (clear_state-IsCleared e valid.shallow v)
    ]
  ]
