-- ===== src/Main/Tests.antt =====
-- Tests of cmd/llm-bridge/main.go's model, and its theorems at concrete inputs.
use llm_bridge.Config.Types.{default_config}
use llm_bridge.Config.Env.{Env}
use llm_bridge.Config.Store.{Yaml, readable, written, Store, new_store, load, load_file, load_text}
use llm_bridge.Router.Models.{by_insertion, millionths}
use llm_bridge.Router.Queue.{QueueItem}
use llm_bridge.Router.Loop.{new_queue_system}
use llm_bridge.Backend.Pool.{new_pool}
use llm_bridge.Discovery.Poller.{context_done}
use llm_bridge.Discovery.State.{
  new_discovery, decoded, visit_reply, set_servers as set_discovery_servers,
}
use llm_bridge.Server.Admin.{ServerState, urls_of, sync_servers}
use llm_bridge.Metrics.Collector.{new_collector}
use llm_bridge.Main.Boot.{parse_flags, new_server, boot}
use llm_bridge.Config.Accepted.{IsUsable}
use llm_bridge.Discovery.State.{servers_for_model}
use llm_bridge.Router.Models.{millionths-IsIeee}
use llm_bridge.Router.Select.{collect}
use llm_bridge.Router.Route.{route}
use llm_bridge.Router.Chosen.{IsChosen}
use llm_bridge.Server.System.{Operation, visits, acquires, operate_all}
use llm_bridge.Main.Routing.{route-boot}
use llm_bridge.Main.Ready.{IsReady, boot-IsReady}
use llm_bridge.Main.Shutdown.{InOrder, IsOrdered, ordered, program_run-IsOrdered}
use llm_bridge.Discovery.State.{RawMessage, Reply}
use llm_bridge.Discovery.Poller.{WorkerPhase, stop_poller, end_parent, worker_step}
use llm_bridge.Metrics.Collector.{Reals}
use llm_bridge.Metrics.Worker.{worker_event, sees_end}
use llm_bridge.Router.Loop.{enqueues, queue_step}
use llm_bridge.Main.Lifecycle.{
  MainPhase, serving, waiting_discovery, finished, Program, World, alive, dead, ProgramEvent,
  signals, listener_fails, proceeds, polls_models, collects, queues, main_step, program_step,
  program_run,
}
use llm_bridge.Base.{
  ℕ, String, ◌≡◌, refl, inl, inr, Bool, true, false, Option, none, some, List, [], ◌∷◌, All, arith,
  str_eq, if◌then◌else◌,
}
use llm_bridge.Base.Int.{pos}

abbrev no_reals : Reals
no_reals = record { Real = ℕ; zero_real = 0; rate = λ n dt. 0; time_sub = λ a b. pos 0 }

abbrev saves : Yaml
saves = record {
  unmarshal = λ s. some (record default_config {
    servers = record { url = "a"; distance = pos 1; max_concurrent_requests = pos 2 } ∷ [];
  });
  marshal = λ cfg. some "saved";
}

abbrev unset : Env
unset key = if str_eq key "PORT" then "9090" else ""

flags_test :
    parse_flags unset (some "my.yaml") none ≡ record { config_path = "my.yaml"; port = "9090" }
unfolding parse_flags
flags_test = refl

abbrev any_url : String → Bool
any_url text = true

abbrev name_of : RawMessage → Option String
name_of raw = some raw

abbrev smart : Reply
smart = decoded ("smart" ∷ [])

abbrev item : QueueItem
item = record { number = 0; model = "m"; deadline = pos 90 }

abbrev polling_program : Program no_reals
polling_program = record {
  phase = serving;
  listening = true;
  shut = false;
  poller = record {
    discovery = record new_discovery { servers = "a" ∷ [] };
    started = true;
    cancel = true;
    done = false;
    phase = WorkerPhase.asking "a" [];
  };
  worker = record {
    collector = new_collector no_reals;
    urls = "a" ∷ [];
    context_done = false;
    stop_closed = false;
    running = true;
  };
  queue = new_queue_system new_pool;
}

abbrev run : List (ProgramEvent no_reals) → World no_reals
run es = program_run no_reals millionths by_insertion name_of es (alive polling_program)

-- A request comes in after the signals.
abbrev signalled : List (ProgramEvent no_reals)
signalled = polls_models context_done smart ∷ queues (enqueues item) ∷ signals ∷ proceeds ∷ []

abbrev phase_of : World no_reals → Option MainPhase
phase_of dead = none
phase_of (alive p) = some p.phase

-- The turns of the two goroutines that the shutdown waits for, between the steps of `main`.
abbrev shutdown_events : List (ProgramEvent no_reals)
shutdown_events =
    proceeds
    ∷ polls_models context_done smart
    ∷ polls_models context_done smart
    ∷ polls_models context_done smart
    ∷ proceeds
    ∷ proceeds
    ∷ collects sees_end
    ∷ proceeds
    ∷ proceeds
    ∷ proceeds
    ∷ proceeds
    ∷ []

main_tests :
    (phase_of (run (signals ∷ signalled)) ≡ some serving)
    × (phase_of (run (listener_fails ∷ proceeds ∷ proceeds ∷ [])) ≡ some waiting_discovery)
    × (phase_of (run (listener_fails ∷ shutdown_events)) ≡ some finished)
unfolding program_run program_step main_step worker_step stop_poller end_parent worker_event
    queue_step visit_reply
main_tests = (refl, refl, refl)

start-InOrder : InOrder polling_program
start-InOrder = record {
  listens = inr refl;
  discovery = inl (omega arith);
  collector = inl (omega arith);
  server = inl refl;
}

program_run-IsOrdered_example : IsOrdered no_reals (run (listener_fails ∷ shutdown_events))
program_run-IsOrdered_example =
    program_run-IsOrdered no_reals millionths by_insertion name_of
      (listener_fails ∷ shutdown_events) (alive polling_program) (ordered start-InOrder)

abbrev with_file : Store
with_file = new_store (some "saved")

abbrev loaded : Store
loaded = (load saves unset readable written with_file).0

abbrev ready : ServerState no_reals
ready =
    new_server no_reals loaded
      (set_discovery_servers (urls_of no_reals loaded.config.servers) new_discovery) new_pool
      (new_collector no_reals)

boots : boot no_reals saves unset readable written with_file ≡ some ready
unfolding boot load load_file load_text
boots = refl

boot-IsReady_example : IsReady no_reals ready
boot-IsReady_example = boot-IsReady no_reals saves unset readable written with_file ready boots

ready-IsUsable : All (IsUsable any_url) ready.store.config.servers
unfolding new_server sync_servers load load_file load_text
ready-IsUsable = (
  record {
    named = λ e. cc;
    url = refl;
    distance_min = ground arith;
    distance_max = ground arith;
    capacity = ground arith;
  },
  tt,
)

-- A poll of the only server finds a model.
abbrev used : List (Operation no_reals saves any_url name_of)
used = visits "a" none smart ∷ acquires none "a" ∷ []

route-boot_example :
    let t = operate_all no_reals saves any_url name_of used ready in
    IsChosen millionths millionths-IsIeee "best_effort" true
      (collect t.pool (servers_for_model "smart" t.discovery))
      t.pool
      (route millionths by_insertion "best_effort" true none "smart" t.discovery [] t.pool)
route-boot_example =
    route-boot millionths by_insertion millionths-IsIeee no_reals saves any_url name_of unset
      readable written with_file ready used "best_effort" true "smart" [] boots ready-IsUsable
