-- ===== src/Tests/Searching.antt =====
-- The theorem on a whole search at a concrete input.
use proxybroker_rs.Broker.Builder.{FindQuery, default_query}
use proxybroker_rs.Broker.Grab.{Candidate, GeoDbs}
use proxybroker_rs.Broker.Pipeline.{
  Run, RunConfig, Runs, begun, checking, delivers, finishes, holding, looping, new_run, passed,
  reserves, sending, spawns, takes, then_step,
}
use proxybroker_rs.Broker.Proved.{IsFound, find-IsFound}
use proxybroker_rs.Broker.Query.{FindEnv, build_checker, find, run_config}
use proxybroker_rs.Checker.Attempt.{check_proxy}
use proxybroker_rs.Checker.Setup.{Checker}
use proxybroker_rs.Errors.{error_eq}
use proxybroker_rs.Float.{nat_float}
use proxybroker_rs.Net.{addr_eq, ip_eq}
use proxybroker_rs.Prelude.{List, [], arith, inl, inr, none, refl, some, true, ℕ, ◌∷◌, ◌≡◌}
use proxybroker_rs.Proxy.Record.{Proxy, new}
use proxybroker_rs.Stats.Collector.{fresh, record_proxy}
use proxybroker_rs.Tests.Fixtures.{home}
use proxybroker_rs.Tests.Judging.{
  one_address, whole_page, no_codecs, plain_urls, good_attempt, reflects, the_checker,
}
use proxybroker_rs.Text.{text}
use proxybroker_rs.Types.Proto.{Proto, proto_eq, proto_ranked}
use proxybroker_rs.Types.TypeSpec.{any_level}

-- A query over the judge and the attempts of these tests.
abbrev judge_query : FindQuery ℕ
judge_query = record default_query {
  types = any_level Proto.http ∷ [];
  judges = text "http://judge/" ∷ [];
  relaxed_validity = true;
  trust_check = true;
}

abbrev find_env : FindEnv ℕ
find_env = record {
  external_ips = some (home ∷ []);
  finds = reflects;
  resolves = λ s. some home;
  attempts = λ p proto i. good_attempt;
  draws = λ p proto. 5;
}

-- The candidate's host is an address here.
abbrev one_candidate : List Candidate
one_candidate = record { host = text "1.2.3.4"; port = 8080; protocols = Proto.http ∷ [] } ∷ []

abbrev no_geo : GeoDbs
no_geo = record { geo = none; asn = none }

abbrev found_proxy : Proxy ℕ
found_proxy =
    (check_proxy the_checker (λ proto i. good_attempt) (λ proto. 5) (λ s. some home)
      (new home 8080 (Proto.http ∷ []))).1

abbrev found_run : RunConfig ℕ × Run ℕ
found_run =
    (run_config judge_query find_env the_checker, new_run (new home 8080 (Proto.http ∷ []) ∷ []))

abbrev at_first : Run ℕ
at_first = found_run.1

abbrev one_held : Run ℕ
one_held = record at_first { phase = holding (new home 8080 (Proto.http ∷ [])); source = [] }

abbrev one_checked : Run ℕ
one_checked = record one_held {
  phase = looping;
  tasks = checking (new home 8080 (Proto.http ∷ [])) ∷ [];
}

abbrev one_passed : Run ℕ
one_passed = record one_checked {
  tasks = passed found_proxy ∷ [];
  stats = record_proxy found_proxy fresh;
  observed = found_proxy ∷ [];
}

abbrev one_sent : Run ℕ
one_sent = record one_passed { tasks = sending 0 found_proxy ∷ []; sent = 1 }

abbrev one_found : Run ℕ
one_found = record one_sent { tasks = []; out = found_proxy ∷ [] }

begins : find no_geo judge_query find_env one_candidate ≡ inr found_run
unfolding find proxybroker_rs.Prelude.list_discrete proxybroker_rs.Prelude.ℕ_discrete
begins = refl

found_path : Runs found_run.0 found_run.1 one_found
unfolding run_config proxybroker_rs.Types.Proto.Proto-discrete record_proxy any_level new
    proxybroker_rs.Prelude.ℕ_discrete proxybroker_rs.Broker.Pipeline.caps_pass
    proxybroker_rs.Prelude.remove_at
found_path =
    then_step
      (then_step
        (then_step
          (then_step
            (then_step begun
              (takes at_first (new home 8080 (Proto.http ∷ [])) [] refl refl refl refl))
            (spawns one_held (new home 8080 (Proto.http ∷ [])) refl (omega arith)))
          (finishes one_checked 0 (new home 8080 (Proto.http ∷ [])) refl))
        (reserves one_passed 0 found_proxy refl))
      (delivers one_sent 0 0 found_proxy refl (inr (omega arith)))

find-IsFound_example :
    (c : Checker ℕ) × (build_checker judge_query find_env ≡ inr c)
    × IsFound no_geo judge_query find_env one_candidate c found_proxy
find-IsFound_example =
    find-IsFound no_geo judge_query find_env one_candidate found_run one_found found_proxy begins
      found_path (inl refl)
