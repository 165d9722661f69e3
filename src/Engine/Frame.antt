-- ===== src/Engine/Frame.antt =====
-- include/lob/engine.hpp: the top of book, whose functions touch no order.
use orderbooks.Types.{Side}
use orderbooks.Engine.{
  affects_top, top_unchanged, Engine, publish_top_if_changed, mark_top, refresh_top,
}
use orderbooks.Prelude.{◌==◌, ◌||◌, inl, not, ◌&&◌, inr, Bool-cases, ◌≡◌, ℕ}

pub mark_top-book : (s : Side) (px : ℕ) (e : Engine) → (mark_top s px e).book ≡ e.book
unfolding mark_top
mark_top-book s px e = elim (Bool-cases (not e.cfg.top_throttle || affects_top e s px)) [
  | inl marked ↦ rw marked
  | inr not_marked ↦ rw not_marked
]

refresh_top-book : (e : Engine) → (refresh_top e).book ≡ e.book
unfolding refresh_top
refresh_top-book e = elim (Bool-cases (e.cfg.top_throttle && top_unchanged e)) [
  | inl quiet ↦ rw quiet
  | inr changed ↦ rw changed
]

pub publish_top_if_changed-book : (e : Engine) → (publish_top_if_changed e).book ≡ e.book
unfolding publish_top_if_changed
publish_top_if_changed-book e = elim (Bool-cases e.state.top_dirty) [
  | inr clean ↦ simp clean
  | inl dirty ↦ elim (Bool-cases (e.state.suppress_top_depth == 0)) [
    | inl open_top ↦ simp (dirty, open_top) (refresh_top-book e)
    | inr suppressed ↦ simp (dirty, suppressed)
  ]
]
