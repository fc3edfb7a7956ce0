-- ===== src/Tests/Runs.antt =====
-- Schedules of the threads of packages fiber and prometheus, and inputs for the connection phase of grpcclient.
use samsara_components.Prelude.{
  ℕ, zero, suc, true, false, ◌≡◌, refl, List, [], ◌∷◌, none, some, inr, pos, arith,
}
use samsara_components.Go.Errors.{foreign}
use samsara_components.Go.Tls.{ClientSettings, Files}
use samsara_components.Fiber.Lifecycle as Web
use samsara_components.Fiber.Lifecycle.Watcher.{run-frees_watcher}
use samsara_components.Prometheus.Lifecycle as Metrics
use samsara_components.Prometheus.Lifecycle.Shutdown.{run-ends_start}
use samsara_components.Prometheus.Lifecycle.Failure.{served-health}
use samsara_components.Grpcclient.Config.{Config, transport_credentials}
use samsara_components.Grpcclient.Connect as Grpcclient
use samsara_components.Grpcclient.Connect.{State, connecting, connected, Library}
use samsara_components.Grpcclient.Connect.Wait.{Waits, IsEnd, start_lem}
use samsara_components.Go.Handles as Handles

-- Thread 0 starts, spawns its watcher in thread 1 and listens; thread 2 stops.
abbrev web_stop : List (ℕ × Web.Action)
web_stop = (0, Web.call_start) ∷ (0, Web.spawn 1) ∷ (0, Web.listen_hook) ∷ (2, Web.call_stop) ∷ []

run-frees_watcher_example :
    ((Web.run Web.new web_stop).closed 1 ≡ true)
    × ((Web.move (Web.run Web.new web_stop) (1, Web.wait false)).pc 1 ≡ Web.returned)
    × ((Web.run Web.new web_stop).panicked ≡ false)
unfolding Web.run Web.new
run-frees_watcher_example = run-frees_watcher web_stop 2 1 0 1 refl refl

-- Thread 0 serves; thread 1 stops, and has signalled.
abbrev scrape_stop : List (ℕ × Metrics.Action)
scrape_stop =
    (0, Metrics.call_start true)
    ∷ (1, Metrics.call_stop)
    ∷ (1, Metrics.step false)
    ∷ (1, Metrics.step false)
    ∷ []

run-ends_start_example :
    ((Metrics.move (Metrics.run Metrics.new scrape_stop) (0, Metrics.step false)).pc 0
      ≡ Metrics.returned)
    × ((Metrics.run Metrics.new scrape_stop).shutdowns 0 ≡ 0)
    × ((Metrics.run Metrics.new scrape_stop).panicked ≡ false)
unfolding Metrics.run Metrics.new
run-ends_start_example = run-ends_start scrape_stop 1 0 0 1 refl refl

abbrev scraped : Metrics.World
scraped = Metrics.run Metrics.new ((0, Metrics.call_start true) ∷ [])

served-health_example :
    let w =
      Metrics.run (Metrics.move scraped (0, Metrics.served true)) ((2, Metrics.step true) ∷ []) in
    (w.pc 0 ≡ Metrics.failed) × (Metrics.health w ≡ none)
unfolding Metrics.run Metrics.new
served-health_example =
    served-health scraped 0 0 1 true ((2, Metrics.step true) ∷ []) refl refl (refl, tt)

abbrev plain : ClientSettings
plain = record {
  tls = false;
  ca_file = "";
  cert_file = "";
  key_file = "";
  server_name = "";
  insecure_skip_verify = false;
  min_version = "";
}

abbrev no_files : Files
no_files = record {
  read_error = λ p. some (foreign 1);
  has_certs = λ p. false;
  pair_error = λ c k. some (foreign 1);
}

abbrev backend : Config
backend = record {
  target = "users:9090";
  connect_timeout = pos 0;
  max_recv_msg_size_mb = pos 0;
  max_send_msg_size_mb = pos 0;
  keepalive_time = pos 0;
  keepalive_timeout = pos 0;
  keepalive_permit_without_stream = none;
  tls = plain;
}

abbrev up_on_second : (round : ℕ) → State
up_on_second zero = connecting
up_on_second (suc n) = connected

-- A server that is ready on the second round of the wait.
abbrev slow : ℕ → Library
slow i = record {
  new_client = λ target opts. inr i;
  state = λ conn round. up_on_second round;
  changes = λ conn round. true;
  ctx_done = false;
}

start_lem_example :
    (calls : List Handles.Call) × (end : Handles.Outcome) × (Grpcclient.start
        (slow 5)
        no_files
        backend
        []
        2
      ≡ some (calls, end))
    × IsEnd (slow 5) backend 5 none (calls, end)
unfolding transport_credentials
start_lem_example =
    start_lem (slow 5) no_files backend [] none 5 1 2 none refl refl
      (Waits.turn (λ e. cc) refl (Waits.is_up refl)) (omega arith)
