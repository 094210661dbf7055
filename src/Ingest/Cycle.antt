-- ===== src/Ingest/Cycle.antt =====
-- apps/horizon/src/repository/events.repository.ts: the loop of `fetchAndStoreEvents`. The RPC
-- node is a function of the number of the request and of the request. Of an event the model has its
-- id, the number of its ledger and the hash of its transaction.
use Prim.Native.String.{String}
use attest_so.Prelude.{
  ℕ, zero, suc, ◌+◌, max, Bool, true, false, not, ◌&&◌, List, [], ◌∷◌, ◌++◌, map, Option, none,
  some, length, ltb, leb, ◌is◌, truthy, if◌then◌else◌, ◌&◌,
}

pub record RpcEvent : Type 0 where
  pub id : String
  pub ledger : ℕ
  pub tx_hash : Option String

-- `transactionDetails` is null where there is no hash, or where its fetch failed.
pub record BatchItem : Type 0 where
  pub event : RpcEvent
  pub transaction_details : Option String

-- Where a request begins: a cursor, or a ledger.
pub data EventsRequest : Type 0 where
  from_cursor : String → EventsRequest
  from_ledger : ℕ → EventsRequest

pub data EventsReply : Type 0 where
  fetch_failed : String → EventsReply
  rpc_error : String → EventsReply
  page : List RpcEvent → Option String → EventsReply

-- The node and the transactions that it knows.
pub record Rpc : Type 0 where
  pub get_events : ℕ → EventsRequest → EventsReply
  pub get_transaction : String → Option String

abbrev pub has_text : Option String → Bool
has_text none = false
has_text (some s) = truthy s

abbrev pub same_text : Option String → Option String → Bool
same_text none none = true
same_text none (some t) = false
same_text (some s) none = false
same_text (some s) (some t) = s is t

-- The variables of the loop. `flushed` are the batches given to `storeEventsAndTransactionsInDB`.
pub record Cycle : Type 0 where
  pub current_ledger_to_query : ℕ
  pub next_cursor : Option String
  pub last_ledger_processed : ℕ
  pub total_events_fetched : ℕ
  pub iteration : ℕ
  pub prev_cursor : Option String
  pub stale_cursor_count : ℕ
  pub flushed : List (List BatchItem)

abbrev pub request_of : Cycle → EventsRequest
request_of c = elim c.next_cursor [
  | none ↦ from_ledger (max 1 c.current_ledger_to_query)
  | some cursor ↦
      if truthy cursor then from_cursor cursor else from_ledger (max 1 c.current_ledger_to_query)
]

abbrev pub batch_item : Rpc → RpcEvent → BatchItem
batch_item rpc e = record {
  event = e;
  transaction_details = elim e.tx_hash [
    | none ↦ none
    | some h ↦ if truthy h then rpc.get_transaction h else none
  ];
}

-- `events[events.length - 1].ledger`, for the events after a first one.
abbrev last_ledger : RpcEvent → List RpcEvent → ℕ
last_ledger e [] = e.ledger
last_ledger e (f ∷ fs) = last_ledger f fs

pub data Turn : Type 0 where
  ends goes_on : Cycle → Turn
  fails : String → Cycle → Turn

-- From the assignment of `nextCursor` to the end of the body, and the test of the loop.
unfoldable pub advance : ℕ → Option String → Cycle → Turn
advance latest cursor c =
    let more = has_text cursor in
    let current = if more then c.current_ledger_to_query else c.last_ledger_processed + 1 in
    let c' = record c { next_cursor = cursor; current_ledger_to_query = current } in
    let c'' = record c' { prev_cursor = cursor } in
    if not more && ltb latest current
    then ends c'
    else if ltb (latest + 1) current && not more
    then ends c''
    else if ltb 1000 c.iteration
    then fails "Exceeded maximum fetch iterations." c''
    else if more
    then goes_on c''
    else ends c''

-- `staleCursorCount` after an empty page with the cursor given.
abbrev pub stale_count : Cycle → Option String → ℕ
stale_count c cursor = if same_text c.prev_cursor cursor then c.stale_cursor_count + 1 else 0

-- A page without events.
unfoldable pub on_empty : ℕ → Option String → Cycle → Turn
on_empty latest cursor c =
    let stale = stale_count c cursor in
    let c' = record c { stale_cursor_count = stale } in
    if has_text cursor
    then (if same_text c.prev_cursor cursor && leb 3 stale
        then ends (record c' { next_cursor = none })
        else advance latest cursor c')
    else advance latest cursor c

-- A page with events: the batch is flushed at once.
abbrev pub with_batch : Rpc → RpcEvent → List RpcEvent → Cycle → Cycle
with_batch rpc e es c = record c {
  total_events_fetched = c.total_events_fetched + length (e ∷ es);
  last_ledger_processed = max c.last_ledger_processed (last_ledger e es);
  flushed = c.flushed ++ map (batch_item rpc) (e ∷ es) ∷ [];
  stale_cursor_count = 0;
}

unfoldable pub on_events : Rpc → ℕ → RpcEvent → List RpcEvent → Option String → Cycle → Turn
on_events rpc latest e es cursor c = advance latest cursor (with_batch rpc e es c)

-- One round of the loop.
unfoldable pub turn : Rpc → ℕ → Cycle → Turn
unfolding on_empty on_events advance
turn rpc latest c₀ =
    let c = record c₀ { iteration = c₀.iteration + 1 } in
    elim (rpc.get_events c.iteration (request_of c)) [
      | fetch_failed m ↦ fails ("Failed to fetch events via fetch: " & m) c
      | rpc_error m ↦ fails ("RPC error for getEvents: " & m) c
      | page events cursor ↦ elim events [
        | [] ↦ on_empty latest cursor c
        | e ∷ es ↦ on_events rpc latest e es cursor c
      ]
    ]

-- How the loop ends. The fuel is the number of rounds allowed.
pub data CycleEnd : Type 0 where
  finished : Cycle → CycleEnd
  threw : String → Cycle → CycleEnd
  out_of_fuel : Cycle → CycleEnd

unfoldable pub run_cycle : Rpc → ℕ → ℕ → Cycle → CycleEnd
run_cycle rpc latest zero c = out_of_fuel c
run_cycle rpc latest (suc fuel) c = elim (turn rpc latest c) [
  | ends c' ↦ finished c'
  | fails m c' ↦ threw m c'
  | goes_on c' ↦ run_cycle rpc latest fuel c'
]
