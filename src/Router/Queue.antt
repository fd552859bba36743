-- ===== src/Router/Queue.antt =====
-- router/queue.go: the requests that wait for a server. The queue is a list in the order of arrival;
-- a pointer to an item is its number. A result channel holds one result: what is sent in it is in
-- the list of deliveries. Instants are nanoseconds.
use llm_bridge.Backend.Pool.{Context, Pool, Conn}
use llm_bridge.Discovery.State.{Discovery}
use llm_bridge.Router.Best.{Float64}
use llm_bridge.Router.Route.{Sort, Outcome, connected, no_servers, all_busy, queued, Routed, route}
use llm_bridge.Base.{
  ℕ, ◌+◌, ◌*◌, String, Bool, true, false, Option, none, some, List, [], ◌∷◌, ◌++◌, map, ◌==◌,
  if◌then◌else◌, Dict,
}
use llm_bridge.Base.Int.{ℤ, pos, negsuc, ◌+ℤ◌, ltb_ℤ, wrap64}

pub record QueueItem : Type 0 where
  pub number : ℕ
  pub model : String
  pub deadline : ℤ

pub data QueueResult : Type 0 where
  answer : Conn → QueueResult
  queue_timeout canceled_result : QueueResult

-- `signalled` says whether the channel of signals, which holds one, is full.
pub record QueueManager : Type 0 where
  pub queue : List QueueItem
  pub signalled : Bool
  pub started : Bool

abbrev pub new_queue_manager : QueueManager
new_queue_manager = record { queue = []; signalled = false; started = false }

-- `time.Duration(sec) * time.Second`.
abbrev pub nanoseconds : ℤ → ℤ
nanoseconds (pos n) = wrap64 (pos (n * 1000000000))
nanoseconds (negsuc n) = wrap64 (negsuc (n * 1000000000 + 999999999))

-- The deadline of a request: the longest wait of the configuration, or the context's, if earlier.
unfoldable pub deadline_of : ℤ → ℤ → Option ℤ → ℤ
deadline_of now timeout_sec none = now +ℤ nanoseconds timeout_sec
deadline_of now timeout_sec (some d) =
    if ltb_ℤ d (now +ℤ nanoseconds timeout_sec) then d else now +ℤ nanoseconds timeout_sec

unfoldable pub ensure_started : QueueManager → QueueManager
ensure_started qm = record qm { started = true }

unfoldable pub notify : QueueManager → QueueManager
notify qm = record qm { signalled = true }

unfoldable pub push_item : QueueItem → QueueManager → QueueManager
push_item item qm = record qm { queue = qm.queue ++ item ∷ [] }

-- `enqueue`, up to the wait for the result.
unfoldable pub enqueue : QueueItem → QueueManager → QueueManager
unfolding ensure_started push_item notify
enqueue item qm = notify (push_item item (ensure_started qm))

unfoldable pub without : ℕ → List QueueItem → List QueueItem
without n [] = []
without n (it ∷ items) = let rest = without n items in if it.number == n then items else it ∷ rest

unfoldable pub remove_item : QueueItem → QueueManager → QueueManager
unfolding without
remove_item item qm = record qm { queue = without item.number qm.queue }

abbrev pub Delivery : Type 0
Delivery = QueueItem × QueueResult

-- What the retry of an item sees: the strategy, the item's context and the discovery.
pub record Seen : Type 0 where
  pub strategy : String
  pub context : Context
  pub discovery : Discovery

-- The indices and the pool, what has been sent, and what stays.
pub record Processed : Type 0 where
  pub rr_index : Dict ℕ
  pub pool : Pool
  pub deliveries : List Delivery
  pub remaining : List QueueItem

abbrev pub deliver : QueueItem → QueueResult → Processed → Processed
deliver item res r = record r { deliveries = (item, res) ∷ r.deliveries }

abbrev pub keep_item : QueueItem → Processed → Processed
keep_item item r = record r { remaining = item ∷ r.remaining }

abbrev pub conn_of : Outcome → Option Conn
conn_of (connected c) = some c
conn_of no_servers = none
conn_of all_busy = none
conn_of queued = none

abbrev pub is_overdue : ℤ → QueueItem → Bool
is_overdue now item = ltb_ℤ item.deadline now

module _ (float : Float64) (sort : Sort) where
  -- The call of `route` for an item, which may not queue it again.
  abbrev pub retry : Seen → QueueItem → Dict ℕ → Pool → Routed
  retry seen item rr p =
      route float sort seen.strategy false seen.context item.model seen.discovery rr p

  -- The loop of `processQueue`.
  unfoldable pub process_items : ℤ → (QueueItem → Seen) → List QueueItem → Dict ℕ → Pool → Processed
  process_items now seen [] rr p = record {
    rr_index = rr;
    pool = p;
    deliveries = [];
    remaining = [];
  }
  process_items now seen (item ∷ items) rr p =
      let r = retry (seen item) item rr p in
      let late = process_items now seen items rr p in
      let rest = process_items now seen items r.rr_index r.pool in
      if is_overdue now item then deliver item queue_timeout late else (elim (conn_of r.outcome) [
        | some c ↦ deliver item (answer c) rest
        | none ↦ keep_item item rest
      ])

  abbrev pub processed : ℤ → (QueueItem → Seen) → QueueManager → Dict ℕ → Pool → Processed
  processed now seen qm rr p = process_items now seen qm.queue rr p

  unfoldable pub process_queue :
      ℤ → (QueueItem → Seen) → QueueManager → Dict ℕ → Pool → QueueManager × Processed
  process_queue now seen qm rr p =
      let r = processed now seen qm rr p in (record qm { queue = r.remaining }, r)

unfoldable pub drain : QueueManager → QueueManager × List Delivery
drain qm = (record qm { queue = [] }, map (λ item. (item, canceled_result)) qm.queue)
