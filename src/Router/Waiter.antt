-- ===== src/Router/Waiter.antt =====
-- router/queue.go: one call of `enqueue` from its wait to its return, interleaved with the loop that
-- answers the queue. Both run under the lock where they touch the queue, so a step is what happens
-- between two points at which the other may run.
use llm_bridge.Backend.Pool.{Conn}
use llm_bridge.Router.Queue.{QueueResult, answer, queue_timeout, canceled_result}
use llm_bridge.Base.{
  ◌≡◌, refl, sym, ◌∙◌, ◌⊎◌, inl, inr, Bool, true, false, Option, none, some, List, [], ◌∷◌,
  Option-cases,
}

-- `removing`: the context is done and the channel was empty, and `removeItem` has not run.
pub data Phase : Type 0 where
  waiting removing : Phase
  returned : Option Conn → Phase

-- `queued`: the item is in the queue. `delivered` records what was ever sent in the channel, which
-- the code does not keep; `released` what the call has given back to the pool.
pub record Waiter : Type 0 where
  pub phase : Phase
  pub queued : Bool
  pub channel : Option QueueResult
  pub released : List Conn
  pub delivered : Option QueueResult

abbrev pub enqueued : Waiter
enqueued = record {
  phase = waiting;
  queued = true;
  channel = none;
  released = [];
  delivered = none;
}

abbrev pub conn_in : QueueResult → Option Conn
conn_in (answer c) = some c
conn_in queue_timeout = none
conn_in canceled_result = none

abbrev pub conns_in : QueueResult → List Conn
conns_in (answer c) = c ∷ []
conns_in queue_timeout = []
conns_in canceled_result = []

-- `processQueue` or `drain` takes the item out of the queue and sends the result.
abbrev pub send : QueueResult → Waiter → Waiter
send res w = record w { queued = false; channel = some res; delivered = some res }

-- The case of the select that receives.
abbrev pub receive : QueueResult → Waiter → Waiter
receive res w = record w { phase = returned (conn_in res); channel = none }

-- The case of the select on a context that is done: the result that is in the channel, or none.
abbrev pub cancel_with : Option QueueResult → Waiter → Waiter
cancel_with (some res) w = record w {
  phase = returned none;
  channel = none;
  released = conns_in res;
}
cancel_with none w = record w { phase = removing }

unfoldable pub cancel : Waiter → Waiter
cancel w = cancel_with w.channel w

abbrev pub finish : Waiter → Waiter
finish w = record w { phase = returned none; queued = false }

pub data WaiterStep (w : Waiter) : Waiter → Type 0 where
  sends : (res : QueueResult) → w.queued ≡ true → WaiterStep w (send res w)
  receives :
      (res : QueueResult) → w.phase ≡ waiting → w.channel ≡ some res → WaiterStep w (receive res w)
  cancels : w.phase ≡ waiting → WaiterStep w (cancel w)
  finishes : w.phase ≡ removing → WaiterStep w (finish w)

pub data WaiterRun (w : Waiter) : Waiter → Type 0 where
  begin : WaiterRun w w
  next : {t u : Waiter} → WaiterRun w t → WaiterStep t u → WaiterRun w u

data IsSound (w : Waiter) : Type 0 where
  pending : w.delivered ≡ none → w.channel ≡ none → w.released ≡ [] → IsSound w
  boxed :
      (res : QueueResult)
      → w.queued ≡ false
      → w.delivered ≡ some res
      → w.channel ≡ some res
      → IsSound w
  taken :
      (res : QueueResult)
      → w.queued ≡ false
      → w.delivered ≡ some res
      → w.phase ≡ returned (conn_in res)
      → IsSound w
  given_back :
      (res : QueueResult)
      → w.queued ≡ false
      → w.delivered ≡ some res
      → w.phase ≡ returned none
      → w.released ≡ conns_in res
      → IsSound w

cancel-cases :
    (w : Waiter)
    → ((w.channel ≡ none) × (cancel w ≡ record w { phase = removing }))
      ⊎ ((res : QueueResult) × (w.channel ≡ some res)
          × (cancel w
              ≡ record w { phase = returned none; channel = none; released = conns_in res }))
unfolding cancel
cancel-cases w = elim (Option-cases w.channel) [
  | inl e ↦ inl (e, rw e refl)
  | inr (res, e) ↦ inr (res, e, rw e refl)
]

WaiterStep-IsSound : {w t : Waiter} → IsSound w → WaiterStep w t → IsSound t
WaiterStep-IsSound (pending d c r) (sends res q) = boxed res refl refl refl
WaiterStep-IsSound (pending d c r) (receives res p e) = absurd (cc)
WaiterStep-IsSound {w} (pending d c r) (cancels p) = elim (cancel-cases w) [
  | inl (e, k) ↦ rw k (pending d c r)
  | inr (res, e, k) ↦ absurd (cc)
]
WaiterStep-IsSound (pending d c r) (finishes p) = pending d c r
WaiterStep-IsSound (boxed res q d c) (sends res' q') = absurd (cc)
WaiterStep-IsSound (boxed res q d c) (receives res' p e) = taken res q d (cc)
WaiterStep-IsSound {w} (boxed res q d c) (cancels p) = elim (cancel-cases w) [
  | inl (e, k) ↦ absurd (cc)
  | inr (res', e, k) ↦ rw k (given_back res q d refl (cc))
]
WaiterStep-IsSound (boxed res q d c) (finishes p) = boxed res refl d c
WaiterStep-IsSound (taken res q d p) (sends res' q') = absurd (cc)
WaiterStep-IsSound (taken res q d p) (receives res' p' e) = absurd (cc)
WaiterStep-IsSound (taken res q d p) (cancels p') = absurd (cc)
WaiterStep-IsSound (taken res q d p) (finishes p') = absurd (cc)
WaiterStep-IsSound (given_back res q d p r) (sends res' q') = absurd (cc)
WaiterStep-IsSound (given_back res q d p r) (receives res' p' e) = absurd (cc)
WaiterStep-IsSound (given_back res q d p r) (cancels p') = absurd (cc)
WaiterStep-IsSound (given_back res q d p r) (finishes p') = absurd (cc)

WaiterRun-IsSound : {w t : Waiter} → IsSound w → WaiterRun w t → IsSound t
WaiterRun-IsSound s begin = s
WaiterRun-IsSound s (next r m) = WaiterStep-IsSound (WaiterRun-IsSound s r) m

-- At every moment a connection that was sent to a call is in its channel, or returned by it, or
-- released by it.
pub WaiterRun-fate :
    (c : Conn) (t : Waiter)
    → WaiterRun enqueued t
    → t.delivered ≡ some (answer c)
    → (t.channel ≡ some (answer c))
      ⊎ (t.phase ≡ returned (some c))
      ⊎ ((t.phase ≡ returned none) × (t.released ≡ c ∷ []))
WaiterRun-fate c t r sent = elim (WaiterRun-IsSound (pending refl refl refl) r) [
  | pending d e f ↦ absurd (cc)
  | boxed res q d e ↦ inl (e ∙ sym d ∙ sent)
  | taken res q d p ↦ inr (inl (p ∙ cc))
  | given_back res q d p f ↦ inr (inr (p, f ∙ cc))
]

IsLost : Conn → Waiter → Type 0
IsLost c t =
    (t.phase ≡ returned none)
    × (t.queued ≡ false)
    × (t.channel ≡ some (answer c))
    × (t.released ≡ [])

WaiterStep-IsLost : (c : Conn) {w t : Waiter} → IsLost c w → WaiterStep w t → IsLost c t
unfolding IsLost
WaiterStep-IsLost c (a, b, d, f) (sends res q) = absurd (cc)
WaiterStep-IsLost c (a, b, d, f) (receives res p e) = absurd (cc)
WaiterStep-IsLost c (a, b, d, f) (cancels p) = absurd (cc)
WaiterStep-IsLost c (a, b, d, f) (finishes p) = absurd (cc)

WaiterRun-IsLost : (c : Conn) {w t : Waiter} → IsLost c w → WaiterRun w t → IsLost c t
WaiterRun-IsLost c l begin = l
WaiterRun-IsLost c l (next r m) = WaiterStep-IsLost c (WaiterRun-IsLost c l r) m

-- The context is done and the channel is empty; then the connection is sent; then the item is taken
-- out of the queue, where it is no more.
abbrev pub canceled_late : Conn → Waiter
canceled_late c = finish (send (answer c) (cancel enqueued))

WaiterRun-trans : {w t u : Waiter} → WaiterRun w t → WaiterRun t u → WaiterRun w u
WaiterRun-trans r begin = r
WaiterRun-trans r (next s m) = next (WaiterRun-trans r s) m

-- A connection can be lost: a call that finds its channel empty when its context is done, and is sent
-- the connection before it has taken its item out of the queue, has returned without a connection in
-- every run from there on, and the connection stays in the channel and is not released. These runs
-- continue runs from the start of the call.
pub WaiterRun-canceled_late :
    (c : Conn) (t : Waiter)
    → WaiterRun (canceled_late c) t
    → WaiterRun enqueued t
      × (t.phase ≡ returned none)
      × (t.channel ≡ some (answer c))
      × (t.released ≡ [])
unfolding cancel IsLost
WaiterRun-canceled_late c t r =
    let (a, b, d, f) = WaiterRun-IsLost c (refl, refl, refl, refl) r in
    let first = next (next (next begin (cancels refl)) (sends (answer c) refl)) (finishes refl) in
    (WaiterRun-trans first r, a, d, f)
