-- ===== src/Engine/Snapshot/Replay.antt =====
-- include/lob/engine.hpp: the invariant of the book through `replay_record_`, for any record.
use orderbooks.Engine.Frame.{mark_top-book}
use orderbooks.BookSide.{side_of, add}
use orderbooks.BookSide.Levels.{Rests}
use orderbooks.IdIndex
use orderbooks.Arena.{holds, allocate}
use orderbooks.Engine.Invariant.{with_index-BookInv, BookInv}
use orderbooks.Engine.Resting.{place-BookInv, allocated-book, BookOpen}
use orderbooks.Engine.Match.{place}
use orderbooks.Engine.Snapshot.{
  tif_from, side_from, SnapshotOrderRecord, replay_record, is_replayable, replay_at,
}
use orderbooks.Prelude.{
  subst, refl, Option-cases, if◌then◌else◌, inl, Bool, inr, ◌≤◌, Bool-cases, ◌^◌, ◌<◌, ◌≡◌, arith,
  true, false,
}
use orderbooks.Types.{Order, Ptr, Template, is_by_handle}
use orderbooks.Engine.{with_side_of, write_order, with_book, Engine}

module _ (c : Template) where
  replay_at-BookInv :
      (rec : SnapshotOrderRecord) (p : Ptr) (e : Engine)
      → rec.px < c.ticks
      → 0 < rec.remaining
      → rec.remaining < 2 ^ 64
      → BookOpen c e.book p
      → BookInv c (replay_at c rec p e).book
  unfolding replay_at place
  replay_at-BookInv rec p e lt pos small v =
      let o : Order = record {
        id = rec.id;
        remaining = rec.remaining;
        px = rec.px;
        s = side_from rec.s;
        t = tif_from rec.t;
        account_id = rec.account_id;
      } in
      let rests : Rests o.s o.px (holds o) = record {
        live = refl;
        side = refl;
        price = refl;
        positive = pos;
        bounded = small;
      } in
      let e' = write_order p o e in
      let e'' = with_side_of o.s (add c.ticks o.s (side_of o.s e'.book) p o) e' in
      let placed : BookInv c e''.book =
        subst (BookInv c) (mark_top-book o.s o.px e'') (place-BookInv c p o o.s e lt rests v) in
      by_mode (is_by_handle c) e'' placed
    where
      by_mode :
          (handled : Bool) (e : Engine)
          → BookInv c e.book
          → BookInv c
              (if◌then◌else◌ {A = Engine} handled e
                (with_book (record e.book { index = IdIndex.insert e.book.index rec.id p }) e)).book
      by_mode true e v = v
      by_mode false e v = with_index-BookInv c (IdIndex.insert e.book.index rec.id p) v

  replayable_numbers :
      (e : Engine) (rec : SnapshotOrderRecord)
      → is_replayable c e rec ≡ true
      → (rec.px < c.ticks) × (0 < rec.remaining) × (rec.remaining ≤ e.cfg.max_order_qty)
  unfolding is_replayable
  replayable_numbers e rec h = (ground (arith, h), ground (arith, h), ground (arith, h))

  -- Whatever a record holds, replaying it keeps a sound book sound, whether it is refused or comes to
  -- rest, on a valid template.
  pub replay_record-BookInv :
      (rec : SnapshotOrderRecord) (e : Engine)
      → 0 < c.max_orders
      → e.cfg.max_order_qty < 2 ^ 64
      → BookInv c e.book
      → BookInv c (replay_record c rec e).1.book
  unfolding replay_record
  replay_record-BookInv rec e room capped v = elim (Bool-cases (is_replayable c e rec)) [
    | inr bad_record ↦ rw bad_record v
    | inl good ↦
        let numbers = replayable_numbers e rec good in
        let e' =
          with_book
            (record e.book { arena = (allocate c.max_orders (is_by_handle c) e.book.arena).1 }) e in
        elim (allocated-book c e.book room v) [
          | inl (full, v') ↦ rw (good, full) v'
          | inr (p, got, v') ↦
              rw (good, got)
                (replay_at-BookInv rec p e' numbers.0 numbers.1 (omega (arith, numbers.2, capped))
                  v')
        ]
  ]

  replay_at-cfg :
      (rec : SnapshotOrderRecord) (p : Ptr) (e : Engine) → (replay_at c rec p e).cfg ≡ e.cfg
  unfolding replay_at
  replay_at-cfg rec p e = elim (Bool-cases (is_by_handle c)) [
    | inl handled ↦ rw handled refl
    | inr by_id ↦ rw by_id refl
  ]

  pub replay_record-cfg :
      (rec : SnapshotOrderRecord) (e : Engine) → (replay_record c rec e).1.cfg ≡ e.cfg
  unfolding replay_record
  replay_record-cfg rec e = elim (Bool-cases (is_replayable c e rec)) [
    | inr bad_record ↦ rw bad_record refl
    | inl good ↦ elim (Option-cases (allocate c.max_orders (is_by_handle c) e.book.arena).0) [
      | inl full ↦ rw (good, full) refl
      | inr (p, got) ↦
          let arena = (allocate c.max_orders (is_by_handle c) e.book.arena).1 in
          rw (good, got) (replay_at-cfg rec p (with_book (record e.book { arena = arena }) e))
    ]
  ]
