-- ===== src/Ingest/Rounds.antt =====
-- The loop of `fetchAndStoreEvents` ends, and what its rounds keep.
use Prim.Native.String.{String}
use attest_so.Prelude.{
  ℕ, zero, suc, ◌+◌, ◌≤◌, ◌<◌, ◌≡◌, refl, List, [], ◌∷◌, ◌++◌, map, Option, length, ap, subst,
  arith, Bool-cases, ◌&&◌, inl, inr, leb,
}
use attest_so.Ingest.Cycle.{
  RpcEvent, BatchItem, Rpc, Cycle, Turn, ends, goes_on, fails, turn, on_empty, on_events, advance,
  CycleEnd, finished, threw, out_of_fuel, run_cycle, EventsReply, fetch_failed, rpc_error, page,
  batch_item, request_of, with_batch, has_text, same_text, stale_count,
}

-- How many events have been handed to the database.
abbrev pub flushed_events : List (List BatchItem) → ℕ
flushed_events [] = 0
flushed_events (b ∷ bs) = length b + flushed_events bs

-- `c'` comes after `c` in the same loop.
pub record After (c c' : Cycle) : Type 0 where
  pub iteration : c.iteration ≤ c'.iteration
  pub ledger : c.last_ledger_processed ≤ c'.last_ledger_processed
  pub accounted :
      c'.total_events_fetched + flushed_events c.flushed
      ≡ c.total_events_fetched + flushed_events c'.flushed

-- What a round says of the loop.
abbrev TurnIs : Cycle → Turn → Type 0
TurnIs c (ends c') = After c c'
TurnIs c (fails m c') = After c c'
TurnIs c (goes_on c') = After c c' × (c'.iteration ≡ suc c.iteration) × (c'.iteration ≤ 1000)

advance-TurnIs :
    (latest : ℕ) (cursor : Option String) (c₀ c : Cycle)
    → c.iteration ≡ suc c₀.iteration
    → After c₀ c
    → TurnIs c₀ (advance latest cursor c)
unfolding advance
advance-TurnIs latest cursor c₀ c i a = ground arith

flushed_events-push :
    (bs : List (List BatchItem)) (b : List BatchItem)
    → flushed_events (bs ++ b ∷ []) ≡ flushed_events bs + length b
flushed_events-push [] b = omega arith
flushed_events-push (x ∷ bs) b = omega (arith, flushed_events-push bs b)

length-batch : (rpc : Rpc) (es : List RpcEvent) → length (map (batch_item rpc) es) ≡ length es
length-batch rpc [] = refl
length-batch rpc (e ∷ es) = ap suc (length-batch rpc es)

on_empty-TurnIs :
    (latest : ℕ) (cursor : Option String) (c₀ c : Cycle)
    → c.iteration ≡ suc c₀.iteration
    → After c₀ c
    → TurnIs c₀ (on_empty latest cursor c)
unfolding on_empty
on_empty-TurnIs latest cursor c₀ c i a = elim (Bool-cases (has_text cursor)) [
  | inr none_left ↦ rw none_left (advance-TurnIs latest cursor c₀ c i a)
  | inl some_left ↦
      elim (Bool-cases (same_text c.prev_cursor cursor && leb 3 (stale_count c cursor))) [
        | inl stuck ↦
            rw (some_left, stuck)
              record { iteration = a.iteration; ledger = a.ledger; accounted = a.accounted }
        | inr moving ↦ rw (some_left, moving) (advance-TurnIs latest cursor c₀ _ i (carried a))
      ]
]
  where
    carried : After c₀ c → After c₀ (record c { stale_cursor_count = stale_count c cursor })
    carried b = record { iteration = b.iteration; ledger = b.ledger; accounted = b.accounted }

on_events-TurnIs :
    (rpc : Rpc) (latest : ℕ) (e : RpcEvent) (es : List RpcEvent) (cursor : Option String)
    (c₀ c : Cycle)
    → c.iteration ≡ suc c₀.iteration
    → After c₀ c
    → TurnIs c₀ (on_events rpc latest e es cursor c)
unfolding on_events
on_events-TurnIs rpc latest e es cursor c₀ c i a =
    advance-TurnIs latest cursor c₀ (with_batch rpc e es c) i (record {
      iteration = a.iteration;
      ledger = omega (arith, a.ledger);
      accounted = omega (
        arith,
        a.accounted,
        flushed_events-push c.flushed (map (batch_item rpc) (e ∷ es)),
        length-batch rpc (e ∷ es),
      );
    })

turn-TurnIs : (rpc : Rpc) (latest : ℕ) (c : Cycle) → TurnIs c (turn rpc latest c)
unfolding turn
turn-TurnIs rpc latest c = go (rpc.get_events (c.iteration + 1) (request_of c)) refl
  where
    start : After c (record c { iteration = c.iteration + 1 })
    start = record { iteration = omega arith; ledger = omega arith; accounted = refl }

    go :
        (r : EventsReply)
        → rpc.get_events (c.iteration + 1) (request_of c) ≡ r
        → TurnIs c (turn rpc latest c)
    go (fetch_failed m) e = rw (e, turn) start
    go (rpc_error m) e = rw (e, turn) start
    go (page [] cursor) e = rw (e, turn) (on_empty-TurnIs latest cursor c _ (omega arith) start)
    go (page (v ∷ vs) cursor) e =
        rw (e, turn) (on_events-TurnIs rpc latest v vs cursor c _ (omega arith) start)

After-trans : {a b c : Cycle} → After a b → After b c → After a c
After-trans p q = record {
  iteration = omega (arith, p.iteration, q.iteration);
  ledger = omega (arith, p.ledger, q.ledger);
  accounted = omega (arith, p.accounted, q.accounted);
}

-- What the end of the loop says of the state in which it began.
abbrev pub EndIs : Cycle → CycleEnd → Type 0
EndIs c (finished c') = After c c'
EndIs c (threw m c') = After c c'
EndIs c (out_of_fuel c') = ⊥

EndIs-trans : {a b : Cycle} → After a b → (e : CycleEnd) → EndIs b e → EndIs a e
EndIs-trans p (finished c) q = After-trans p q
EndIs-trans p (threw m c) q = After-trans p q
EndIs-trans p (out_of_fuel c) q = q

-- With fuel for a thousand and one rounds in all, the loop ends; and it ends after its start.
pub run_cycle-EndIs :
    (rpc : Rpc) (latest fuel : ℕ) (c : Cycle)
    → c.iteration ≤ 1000
    → 1000 < c.iteration + fuel
    → EndIs c (run_cycle rpc latest fuel c)
unfolding run_cycle
run_cycle-EndIs rpc latest zero c low enough = absurd (omega arith)
run_cycle-EndIs rpc latest (suc fuel) c low enough =
    go (turn rpc latest c) refl (turn-TurnIs rpc latest c) (run_cycle-EndIs rpc latest fuel)
  where
    go :
        (t : Turn)
        → turn rpc latest c ≡ t
        → TurnIs c (turn rpc latest c)
        → ((d : Cycle)
            → d.iteration ≤ 1000
            → 1000 < d.iteration + fuel
            → EndIs d (run_cycle rpc latest fuel d))
        → EndIs c (run_cycle rpc latest (suc fuel) c)
    go (ends d) e h ih = rw (e, run_cycle) (subst (TurnIs c) e h)
    go (fails m d) e h ih = rw (e, run_cycle) (subst (TurnIs c) e h)
    go (goes_on d) e h ih =
        let k = subst (TurnIs c) e h in
        rw (e, run_cycle)
          (EndIs-trans k.0 (run_cycle rpc latest fuel d) (ih d k.2 (omega (arith, k.1))))
