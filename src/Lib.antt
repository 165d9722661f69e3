-- ===== src/Lib.antt =====
-- The matching core of the order book: include/lob of the repository, a header-only C++ library. An
-- engine for one symbol takes submit, cancel and modify commands, matches by price and time, keeps what
-- rests, and publishes fills, trades, self trades, rejects and tops of book.
--
-- The parts, from the bottom up, and the files that model them:
-- + Types, Messages: include/lob/types.hpp, order.hpp, config.hpp and messages.hpp. Template arguments
--   of the engine are the record `Template`; a pointer to an order is the number of its arena slot.
-- + Level: include/lob/level.hpp. The intrusive FIFO is the list of its slots, front first.
-- + Bitmap: include/lob/bitmap.hpp, the four tiers of words. Bitmap/Search has the two searches from a
--   position; Bitmap/Forward and Bitmap/Next, Bitmap/Backward and Bitmap/Prev their proofs, and
--   Bitmap/Words, Bitmap/Invariant, Bitmap/Extremes and Bitmap/Queries those of the other members.
-- + Arena: include/lob/arena.hpp, the slab with its free list overlaid on free slots.
-- + Hash, IdIndex: include/lob/hash.hpp and id_index.hpp, the open-addressed table from ids to orders.
-- + BookSide: include/lob/book.hpp, a ladder of levels with its bitmap and cached best. `add`, `remove`
--   and `notify_level_emptied` are the members of those names.
-- + Engine: include/lob/engine.hpp. Engine/Match has `match_against_opposite_`, `handle_self_cross_` and
--   `rest_`; Engine/Fok has `can_fully_fill_`; Engine/Handlers has `on_submit`, `on_cancel`, `on_modify`
--   and the command dispatch of include/lob/shard_worker.hpp. The other children have the proofs.
--   Engine/Priority states matching by price and time on the list of the orders of one side; its children
--   Ladder, Effects, Round, Loop, Resting and Refine relate the engine's loops to that. Lists states a whole
--   submit on the lists of both sides, and Insert, Rest, Submit and Tally are about it; Without and Cancel are about
--   a cancel. Engine/Fok/Enough says when a list of orders supplies a quantity; its siblings are about the
--   walk of `can_fully_fill_`.
--   Engine/Snapshot has `snapshot`, `restore` and `clear_state_`, and the records of
--   include/lob/snapshot.hpp.
-- + Ring: include/lob/spsc_ring.hpp. Ring.antt has the operations run whole, Ring/Steps the memory
--   accesses of `try_push` and `try_pop` one at a time, and the schedules of the two threads.
-- + Fix: include/lob/fix_parser.hpp. Fix.antt has `read_field` and `to_uint`, Fix/Parse `parse` in its
--   stages; a stage that returns early gives its `error`. Fix/Layout and Fix/Commands print messages as
--   the protocol lays them out; the repository has no such printer, and the round trips use it.
-- + Gateway: apps/gateway/wire.hpp, validation, dispatch and acks of one wire order.
-- + Shard: include/lob/shard_router.hpp, shard_runtime.hpp, shard_egress_runtime.hpp and the worker loop
--   of shard_worker.hpp. A shard is a ring of commands, an engine and two counters.
-- + Egress: include/lob/ring_publisher.hpp and egress_merger.hpp, from the engines' publishers through
--   their rings to the numbered stream.
-- + Histogram: include/lob/latency_histogram.hpp, over HdrHistogram_c, whose calls are the fields of the
--   record `HdrHistogram`; Histogram/Counts names what is taken from its documentation.
-- + Prelude: Booleans, lists, arrays, bits and 64-bit words that the parts share.
-- + Tests: runs at concrete inputs.
--
-- Numbers are natural numbers; a sum or a difference of std::uint64_t keeps its wrap-around, `% 2 ^ 64`.
-- The publisher is the list of the events that it was given. Prefetches write nothing and are left out.
-- The invariant of the book (Engine/Invariant) says that each level's FIFO has distinct live slots of its
-- side and price with positive quantity, that its aggregate is their sum, that the bitmap marks the levels
-- that have orders, that the cached best is the best marked price, that the free list, once built, has every free
-- slot once, and that each live slot stands in the FIFO of its side and price.
--
-- Loops take fuel. The inner matching loop has a round for each order of its level and one more, the
-- outer one a round for each price and one more, a probe of the id index a round for each slot. The loops
-- of `clear_state_` take a round for each order of a level and for each price and one more, the loop over
-- the fields of a FIX body one for each byte. The loops inside a field walk the bytes that are left.
--
-- In Ring/Steps a store is seen at once and a thread takes its accesses in the order of the code; the
-- acquire and release orders of the source are what makes this so. A capacity is 2 ^ k, k below 64.
--
-- Shard and Egress take the calls of the threads as a sequence of whole calls; Ring has the interleavings
-- inside them.
--
-- Not modelled: the bytes of a snapshot, the starting, pinning, spinning and joining of threads, the JSON
-- recorder, the shared-memory segment, the other parts of the applications, and what only calls the
-- platform. Padding, alignment and cache-line layout carry no
-- behaviour and are left out.
pub mod Prelude
pub mod Types
pub mod Messages
pub mod Level
pub mod Hash
pub mod Bitmap
pub mod Arena
pub mod IdIndex
pub mod BookSide
pub mod Engine
pub mod Ring
pub mod Gateway
pub mod Shard
pub mod Egress
pub mod Histogram
pub mod Fix
pub mod Tests
