-- ===== src/Tests/Judging.antt =====
-- The theorems on judges and attempts at concrete inputs.
use proxybroker_rs.Checker.Attempt.{AttemptEnv, check_proxy, target_in}
use proxybroker_rs.Checker.Check.{Observation}
use proxybroker_rs.Checker.Confirmed.{Proved, check_proxy-found}
use proxybroker_rs.Checker.Reading.{read_response_lem, split_head_body_lem}
use proxybroker_rs.Checker.Ready.{CanCheck, new_checker-CanCheck}
use proxybroker_rs.Checker.Response.{Codecs, head_end, read_response, split_head_body}
use proxybroker_rs.Checker.Setup.{
  Checker, CheckerConfig, Probe, at_judge, by_judges, default_policy, new_checker,
}
use proxybroker_rs.Errors.{bad_response, error_eq}
use proxybroker_rs.Float.{nat_float}
use proxybroker_rs.Judges.{
  Finding, Judge, Urls, bucket, no_judges, no_marks, probe_all, random_judge,
}
use proxybroker_rs.Judges.Usable.{IsProbed, random_judge-IsProbed}
use proxybroker_rs.Negotiator.Handshakes.{Channel, Target, late, shaken, taken_whole}
use proxybroker_rs.Net.{addr_eq, ip_eq}
use proxybroker_rs.Parse.Scan.{Regexes}
use proxybroker_rs.Prelude.{
  In, List, [], false, if◌then◌else◌, inl, inr, is_empty, is_some, leb, length, none, refl, some,
  true, ℕ, ℕ_discrete, ◌&&◌, ◌++◌, ◌<◌, ◌↔◌, ◌∷◌, ◌≡◌, ◌≤◌, ◌⊎◌,
}
use proxybroker_rs.Prelude.Equality.{list_discrete, list_eq, nat_eq, ◌==◌}
use proxybroker_rs.Proxy.Record.{Proxy, addr_of}
use proxybroker_rs.Proxy.Trust.{no_trust, signal_eq}
use proxybroker_rs.Server.Login.{as_events}
use proxybroker_rs.Server.Relay.{connected}
use proxybroker_rs.Server.Requests.{Event, IpText, byte, closed, frontend_eq}
use proxybroker_rs.Tests.Fixtures.{home, plain}
use proxybroker_rs.Text.{Text, contains, text}
use proxybroker_rs.Types.AnonLevel.{AnonLevel, level_eq, level_ranked}
use proxybroker_rs.Types.Proto.{Proto, Proto-discrete, proto_eq, proto_ranked}
use proxybroker_rs.Types.Scheme.{JudgeScheme, scheme_eq}
use proxybroker_rs.Types.TypeSpec.{any_level}

instance abbrev pub one_address : IpText
one_address = record {
  show_ip = λ host. text "1.2.3.4";
  parse_ip = λ s. if s == text "1.2.3.4" then some home else none;
}

instance abbrev pub whole_page : Regexes
whole_page = record {
  find_ipv4 = λ s from. if from == 0 && leb 7 (length s) then some (0, 7) else none;
  find_port = λ s from. none;
  find_ipv6 = λ s from. none;
}

instance abbrev pub no_codecs : Codecs
no_codecs = record { gunzip = λ s. none; inflate = λ s. none }

instance abbrev pub plain_urls : Urls
plain_urls = record {
  parse_url = λ s. some (record {
    scheme_name = text "http";
    host_str = some (text "judge");
    path_part = text "/";
    query = none;
  });
}

-- A page that begins with an address and has the marker.
abbrev reflecting_page : Text
reflecting_page = text "1.2.3.4 7777"

abbrev pub reflects : Judge → Finding
reflects j = record {
  resolved = some home;
  marker = text "7777";
  answer = some (200, some reflecting_page);
}

abbrev judge_cfg : CheckerConfig ℕ
judge_cfg = record {
  judge_urls = text "http://judge/" ∷ [];
  types = any_level Proto.http ∷ [];
  retry = default_policy;
  post = false;
  strict = false;
  relaxed_validity = true;
  trust_check = true;
  dnsbl = [];
  liveness_url = none;
}

abbrev the_judge : Judge
the_judge = record {
  url = text "http://judge/";
  scheme = JudgeScheme.http;
  host = text "judge";
  path = text "/";
  ip_addr = some home;
  marks = no_marks;
}

abbrev pub the_checker : Checker ℕ
the_checker = record {
  judges = record { http_judges = the_judge ∷ []; https_judges = []; smtp_judges = [] };
  real_ext_ips = home ∷ [];
  requested = any_level Proto.http ∷ [];
  post = false;
  strict = false;
  relaxed_validity = true;
  trust_check = true;
  dnsbl = [];
  mode = by_judges;
  retry = default_policy;
}

abbrev raw_answer : Text
raw_answer = text "HTTP/1.1 200 OK\r\n\r\n1.2.3.4 7777"

abbrev quiet_channel : Channel
quiet_channel = record {
  sending = taken_whole;
  answers = λ s. [];
  socks4_shake = λ n port. late;
  socks5_shake = λ d port creds. late;
  is_server_name = λ s. true;
  tls = shaken;
}

abbrev pub good_attempt : AttemptEnv ℕ
good_attempt = record {
  dial = λ a. connected;
  channel = quiet_channel;
  writing = taken_whole;
  replies = λ req. as_events raw_answer ++ closed ∷ [];
  marker = text "7777";
  rtt = 20;
}

abbrev chosen_judge : Probe × Target
chosen_judge = (at_judge the_judge, record { host = text "judge"; ip_addr = some home; port = 80 })

abbrev shown_level : Observation
shown_level = record {
  level = some AnonLevel.transparent;
  caps = record { cookie_echo = false; referer_echo = false };
  trust = no_trust;
}

abbrev idle_proxy : Proxy ℕ
idle_proxy = record plain { types = [] }

read_response_lem_example :
    ((read_response 9 (byte 65 ∷ closed ∷ []) ≡ inr (text "A")) ↔ (
      (0 < length (text "A"))
      × (length (text "A") ≤ 9)
      × ((rest : List Event) × (byte 65 ∷ closed ∷ [] ≡ as_events (text "A") ++ closed ∷ rest))))
    × (9 < length (text "A")
        → read_response 9 (as_events (text "A") ++ byte 65 ∷ closed ∷ []) ≡ inl bad_response)
read_response_lem_example = read_response_lem 9 (byte 65 ∷ closed ∷ []) (text "A")

split_head_body_lem_example :
    if contains head_end raw_answer
    then (raw_answer ≡ (split_head_body raw_answer).0 ++ head_end ++ (split_head_body raw_answer).1)
      × (contains head_end (split_head_body raw_answer).0 ≡ false)
    else split_head_body raw_answer ≡ (raw_answer, [])
split_head_body_lem_example = split_head_body_lem raw_answer

random_judge-IsProbed_example :
    ((j : Judge)
      → random_judge (probe_all (home ∷ []) reflects no_judges (the_judge ∷ [])) JudgeScheme.http 5
        ≡ some j
      → (j.scheme ≡ JudgeScheme.http) × IsProbed (home ∷ []) reflects (the_judge ∷ []) j)
    × (is_empty
            (bucket (probe_all (home ∷ []) reflects no_judges (the_judge ∷ [])) JudgeScheme.http)
          ≡ false
        → is_some (
            random_judge
              (probe_all (home ∷ []) reflects no_judges (the_judge ∷ []))
              JudgeScheme.http
              5)
          ≡ true)
random_judge-IsProbed_example =
    random_judge-IsProbed (home ∷ []) reflects (the_judge ∷ []) JudgeScheme.http 5

new_checker-CanCheck_example :
    (is_empty the_checker.requested ≡ false) × CanCheck the_checker the_checker.mode
unfolding proxybroker_rs.Checker.Setup.new_checker proxybroker_rs.Prelude.list_discrete
    proxybroker_rs.Prelude.ℕ_discrete
new_checker-CanCheck_example =
    new_checker-CanCheck judge_cfg reflects (λ s. some home) (home ∷ []) the_checker refl

check_proxy-found_example :
    In (Proto.http, some AnonLevel.transparent) idle_proxy.types
    ⊎ Proved the_checker
        (λ i. good_attempt)
        (target_in the_checker Proto.http 5 the_checker.mode)
        (addr_of idle_proxy)
        (Proto.http, some AnonLevel.transparent)
unfolding proxybroker_rs.Checker.Attempt.check_proxy proxybroker_rs.Types.Proto.Proto-discrete
    any_level proxybroker_rs.Prelude.ℕ_discrete proxybroker_rs.Prelude.list_discrete
check_proxy-found_example =
    check_proxy-found the_checker (λ proto i. good_attempt) (λ proto. 5) (λ s. none) idle_proxy
      (Proto.http, some AnonLevel.transparent) (inl refl)
