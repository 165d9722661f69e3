-- ===== src/Egress/Merge.antt =====
-- include/lob/egress_merger.hpp: the merged stream, for any order of publishing and merging.
use orderbooks.Ring.Positions.{next_cursor}
use orderbooks.Prelude.Word.{add_u64}
use orderbooks.Ring.{try_push, consume_claim}
use orderbooks.Ring.Refine.{new_ring-IsRing, try_push_refines, IsRing}
use orderbooks.Messages.{Event}
use orderbooks.Egress.{
  merge_round, new_egress, publish_event, poll_shards, EgressTurn, drain_round, run_egress,
  Forwarded, push_event, Egress, poll_shard, stamp,
}
use orderbooks.Prelude.{
  length-append, append-nil, append_assoc, sym, refl, update, zero, ==_iff, suc, ltb, ◌^◌, ◌≤◌,
  subst, ap, length, ◌++◌, min, ◌==◌, ◌≡◌, if◌then◌else◌, Bool, Bool-cases, ◌+◌, ◌%◌, ◌<◌, List, ℕ,
  arith, [], ◌∷◌, ◌∙◌, true, false, inl, inr,
}
use orderbooks.Ring.Claim.{consume_claim_refines}
use orderbooks.Prelude.Bytes.{drop, take-drop}

-- The events of one shard in the merged stream.
abbrev pub of_shard : ℕ → List Forwarded → List Event
of_shard s [] = []
of_shard s (f ∷ fs) = if f.shard == s then f.event ∷ of_shard s fs else of_shard s fs

-- The stream is numbered from `n` on without a gap.
abbrev pub IsNumbered : ℕ → List Forwarded → Type 0
IsNumbered n [] = Unit
IsNumbered n (f ∷ fs) = (f.merge_seq ≡ n % 2 ^ 64) × IsNumbered (n + 1) fs

of_shard-append :
    (s : ℕ) (xs ys : List Forwarded) → of_shard s (xs ++ ys) ≡ of_shard s xs ++ of_shard s ys
of_shard-append s [] ys = refl
of_shard-append s (x ∷ xs) ys = elim (Bool-cases (x.shard == s)) [
  | inl here ↦ rw here (ap (λ t. x.event ∷ t) (of_shard-append s xs ys))
  | inr other ↦ rw other (of_shard-append s xs ys)
]

of_shard-stamp : (s n : ℕ) (evs : List Event) → of_shard s (stamp s n evs) ≡ evs
unfolding stamp
of_shard-stamp s n [] = refl
of_shard-stamp s n (ev ∷ evs) =
    rw ((==_iff s s).1 refl) (ap (λ t. ev ∷ t) (of_shard-stamp s (add_u64 n 1) evs))

of_other-stamp : (r s n : ℕ) (evs : List Event) → (s == r) ≡ false → of_shard r (stamp s n evs) ≡ []
unfolding stamp
of_other-stamp r s n [] ne = refl
of_other-stamp r s n (ev ∷ evs) ne = rw ne (of_other-stamp r s (add_u64 n 1) evs ne)

IsNumbered-append :
    (n : ℕ) (xs ys : List Forwarded)
    → IsNumbered n xs
    → IsNumbered (n + length xs) ys
    → IsNumbered n (xs ++ ys)
IsNumbered-append n [] ys h h' = subst (λ m. IsNumbered m ys) {x = n + 0} {y = n} (omega arith) h'
IsNumbered-append n (x ∷ xs) ys h h' = (
  h.0,
  IsNumbered-append (n + 1) xs ys h.1 (
      subst (λ m. IsNumbered m ys) {x = n + suc (length xs)} {y = n + 1 + length xs} (omega arith)
        h'),
)

stamp-IsNumbered : (s n : ℕ) (evs : List Event) → IsNumbered n (stamp s (n % 2 ^ 64) evs)
unfolding stamp
stamp-IsNumbered s n [] = tt
stamp-IsNumbered s n (ev ∷ evs) = (refl, rw (next_cursor n 1) (stamp-IsNumbered s (n + 1) evs))

length-stamp : (s n : ℕ) (evs : List Event) → length (stamp s n evs) ≡ length evs
unfolding stamp
length-stamp s n [] = refl
length-stamp s n (ev ∷ evs) = ap suc (length-stamp s (add_u64 n 1) evs)

module _ (k : ℕ) (narrow : k < 64) where
  record EgressInv (g : Egress) : Type 0 where
    waiting : ℕ → List Event
    position : ℕ → ℕ
    ring : (r : ℕ) → IsRing k (g.rings r) (position r) (waiting r)
    kept : (r : ℕ) → g.accepted r ≡ of_shard r g.sent ++ waiting r
    numbered : IsNumbered 0 g.sent
    counted : g.seq ≡ length g.sent % 2 ^ 64

  new_egress-EgressInv : (empty : Event) → EgressInv (new_egress empty)
  new_egress-EgressInv empty = record {
    waiting = λ r. [];
    position = λ r. 0;
    ring = λ r. new_ring-IsRing k narrow empty;
    kept = λ r. refl;
    numbered = tt;
    counted = refl;
  }

  push_event-EgressInv :
      (s : ℕ) (ev : Event) (g : Egress) → EgressInv g → EgressInv (push_event k s ev g)
  unfolding push_event
  push_event-EgressInv s ev g v =
      let (answer, ring) =
        try_push_refines k narrow (g.rings s) (v.position s) (v.waiting s) ev (v.ring s) in
      elim (Bool-cases (ltb (length (v.waiting s)) (2 ^ k))) [
        | inl room ↦
            let yes : (try_push k ev (g.rings s)).0 ≡ true = rw room at answer in
            rw yes (record {
              waiting = update v.waiting s (v.waiting s ++ (ev ∷ []));
              position = v.position;
              ring = λ r. elim (Bool-cases (s == r)) [
                | inl here ↦
                    let at = (==_iff _ _).0 here in
                    rw here (
                      subst
                        (λ q.
                          IsRing k (try_push k ev (g.rings s)).1 (v.position q)
                            (v.waiting s ++ (ev ∷ [])))
                        at (rw room at ring))
                | inr other ↦ rw other (v.ring r)
              ];
              kept = λ r. elim (Bool-cases (s == r)) [
                | inl here ↦
                    let at = (==_iff _ _).0 here in
                    rw here (
                      ap (λ xs. xs ++ (ev ∷ [])) (v.kept s)
                      ∙ append_assoc (of_shard s g.sent) (v.waiting s) (ev ∷ [])
                      ∙ ap (λ q. of_shard q g.sent ++ (v.waiting s ++ (ev ∷ []))) at)
                | inr other ↦ rw other (v.kept r)
              ];
              numbered = v.numbered;
              counted = v.counted;
            })
        | inr full ↦
            let no : (try_push k ev (g.rings s)).0 ≡ false = rw full at answer in
            rw no (record {
              waiting = v.waiting;
              position = v.position;
              ring = λ r. elim (Bool-cases (s == r)) [
                | inl here ↦
                    let at = (==_iff _ _).0 here in
                    rw here (
                      subst
                        (λ q. IsRing k (try_push k ev (g.rings s)).1 (v.position q) (v.waiting q))
                        at (rw full at ring))
                | inr other ↦ rw other (v.ring r)
              ];
              kept = v.kept;
              numbered = v.numbered;
              counted = v.counted;
            })
      ]

  poll_shard-EgressInv :
      (batch_max s : ℕ) (g : Egress) → EgressInv g → EgressInv (poll_shard k batch_max s g)
  unfolding poll_shard
  poll_shard-EgressInv batch_max s g v =
      let n = min batch_max (length (v.waiting s)) in
      let (got, ring) =
        consume_claim_refines k narrow (g.rings s) (v.position s) (v.waiting s) batch_max
          (v.ring s) in
      let evs = (consume_claim k batch_max (g.rings s)).0 in
      let more = stamp s g.seq evs in
      record {
        waiting = update v.waiting s (drop n (v.waiting s));
        position = update v.position s (v.position s + n);
        ring = λ r. elim (Bool-cases (s == r)) [
          | inl here ↦ rw here ring
          | inr other ↦ rw other (v.ring r)
        ];
        kept = λ r. elim (Bool-cases (s == r)) [
          | inl here ↦
              let at = (==_iff _ _).0 here in
              rw here (
                subst (λ q. g.accepted q ≡ of_shard q (g.sent ++ more) ++ drop n (v.waiting s)) at
                  (v.kept s
                    ∙ ap (λ xs. of_shard s g.sent ++ xs)
                        (sym (take-drop n (v.waiting s))
                          ∙ ap (λ xs. xs ++ drop n (v.waiting s)) (sym got))
                    ∙ sym (append_assoc (of_shard s g.sent) evs (drop n (v.waiting s)))
                    ∙ ap (λ xs. (of_shard s g.sent ++ xs) ++ drop n (v.waiting s))
                        (sym (of_shard-stamp s g.seq evs))
                    ∙ ap (λ xs. xs ++ drop n (v.waiting s)) (sym (of_shard-append s g.sent more))))
          | inr other ↦ rw other (
              v.kept r
              ∙ ap (λ xs. xs ++ v.waiting r)
                  (sym (append-nil (of_shard r g.sent))
                    ∙ ap (λ xs. of_shard r g.sent ++ xs) (sym (of_other-stamp r s g.seq evs other))
                    ∙ sym (of_shard-append r g.sent more)))
        ];
        numbered = IsNumbered-append 0 g.sent more v.numbered (
            rw v.counted (
              subst (λ m. IsNumbered m (stamp s (length g.sent % 2 ^ 64) evs)) {x = length g.sent}
                {y = 0 + length g.sent} (omega arith) (stamp-IsNumbered s (length g.sent) evs)));
        counted = omega (arith, v.counted, length-append g.sent more, length-stamp s g.seq evs);
      }

  poll_shards-EgressInv :
      (left batch_max s : ℕ) (any : Bool) (g : Egress)
      → EgressInv g
      → EgressInv (poll_shards k left batch_max s any g).1
  unfolding poll_shards
  poll_shards-EgressInv zero batch_max s any g v = v
  poll_shards-EgressInv (suc left) batch_max s any g v =
      poll_shards-EgressInv left batch_max (s + 1) _ (poll_shard k batch_max s g)
        (poll_shard-EgressInv batch_max s g v)

  drain_round-EgressInv :
      (num_shards batch_max : ℕ) (g : Egress)
      → EgressInv g
      → EgressInv (drain_round k num_shards batch_max g).1
  unfolding drain_round
  drain_round-EgressInv num_shards batch_max g v =
      let v' = poll_shards-EgressInv num_shards batch_max 0 false g v in
      elim (Bool-cases (poll_shards k num_shards batch_max 0 false g).0) [
        | inl any ↦ rw any (record {
          waiting = v'.waiting;
          position = v'.position;
          ring = v'.ring;
          kept = v'.kept;
          numbered = v'.numbered;
          counted = v'.counted;
        })
        | inr nothing ↦ rw nothing v'
      ]

  run_egress-EgressInv :
      (num_shards batch_max : ℕ) (ts : List EgressTurn) (g : Egress)
      → EgressInv g
      → EgressInv (run_egress k num_shards batch_max ts g)
  unfolding run_egress
  run_egress-EgressInv n b [] g v = v
  run_egress-EgressInv n b (publish_event s ev ∷ ts) g v =
      run_egress-EgressInv n b ts (push_event k s ev g) (push_event-EgressInv s ev g v)
  run_egress-EgressInv n b (merge_round ∷ ts) g v =
      run_egress-EgressInv n b ts (drain_round k n b g).1 (drain_round-EgressInv n b g v)

  -- With rings of at most 2 ^ 63 slots, after any order of publishing and merge rounds from the
  -- start, the merged stream is numbered from zero without a gap, and has of each shard the first
  -- events that its ring accepted, in order, with at most a ring of them to come.
  pub run_egress-delivers :
      (num_shards batch_max : ℕ) (ts : List EgressTurn) (empty : Event)
      → let g = run_egress k num_shards batch_max ts (new_egress empty) in
        IsNumbered 0 g.sent
        × ((r : ℕ)
            → (rest : List Event) × (g.accepted r ≡ of_shard r g.sent ++ rest)
              × (length rest ≤ 2 ^ k))
  run_egress-delivers n b ts empty =
      let v = run_egress-EgressInv n b ts (new_egress empty) (new_egress-EgressInv empty) in
      (v.numbered, λ r. (v.waiting r, v.kept r, (v.ring r).window.room))
