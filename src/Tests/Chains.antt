-- ===== src/Tests/Chains.antt =====
-- A gate of cmd/centauri/main.go, and internal/logger, at concrete inputs.
use proxy_centauri.Prelude.{◌≡◌, refl, true, [], ◌∷◌, ◌++◌, if◌then◌else◌}
use proxy_centauri.Balancer
use proxy_centauri.Balancer.RoundRobin
use proxy_centauri.Http.{Request, sent, wire}
use proxy_centauri.Http.Text.{before, has, is_space, trim_left, trim_right, trim_space}
use proxy_centauri.Logger.{entry_of, client_ip}
use proxy_centauri.Logger.ClientIp.{client_ip-eq-extract_ip}
use proxy_centauri.Metrics.Middleware.{enter, leave}
use proxy_centauri.Proxy.{direct}
use proxy_centauri.RateLimit
use proxy_centauri.RateLimit.{extract_ip}
use proxy_centauri.Gate.{Gate, handle}
use proxy_centauri.Gate.Reports.{admitted, status_from, handle-reports}
use proxy_centauri.Tests.Requests.{
  plain_vectors, no_metrics, drains, network, answers, get_root, unsent,
}

abbrev forwarded : Request
forwarded = record {
  method = "GET";
  path = "/";
  forwarded_for = " 203.0.113.9 , 10.0.0.1";
  remote_addr = "10.0.0.1:5123";
}

client_ip-eq-extract_ip_example : client_ip forwarded ≡ extract_ip forwarded
unfolding before has is_space trim_left trim_right trim_space
client_ip-eq-extract_ip_example = client_ip-eq-extract_ip forwarded refl refl

abbrev front : Gate drains plain_vectors network
front = record {
  name = "web";
  balancer = Balancer.round_robin (RoundRobin.new ("a:1" ∷ "b:2" ∷ []));
  lines = [];
  has_metrics = true;
  metrics = no_metrics;
  has_shield = true;
  shield = RateLimit.new drains 10 1;
}

handle-reports_example :
    let (g', w', o) = handle drains plain_vectors network wire 5 0 12 get_root front unsent in
    let status = status_from drains plain_vectors network get_root unsent front.balancer in
    let passed = admitted drains plain_vectors network get_root unsent 5 front in
    (sent w' ≡ (if passed then status else 429))
    × (g'.lines ≡ (
        if passed
        then front.lines ++ entry_of front.name 0 12 get_root status ∷ []
        else front.lines))
    × (g'.metrics ≡ (
        if passed
        then leave plain_vectors front.name status (enter plain_vectors front.name front.metrics)
        else front.metrics))
unfolding answers direct Balancer.next RoundRobin.next RoundRobin.new
handle-reports_example =
    handle-reports drains plain_vectors network get_root unsent 5 0 12 front refl refl refl refl
