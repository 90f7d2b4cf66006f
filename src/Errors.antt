-- ===== src/Errors.antt =====
-- src/error.rs: the buckets of a proxy's error histogram.
use proxybroker_rs.Prelude.{ℕ, ℕ_discrete}
use proxybroker_rs.Prelude.Equality.{Eq, list_eq, nat_eq}
use proxybroker_rs.Text.{Text, text}

pub data ProxyError : Type 0 where
  conn_failed timeout reset empty_recv bad_status bad_response error_on_stream resolve : ProxyError
  disallowed_status : ℕ → ProxyError

unfoldable pub ProxyError-discrete : Discrete ProxyError
ProxyError-discrete = hlevel ℕ_discrete

instance abbrev pub error_eq : Eq ProxyError
error_eq = record { dec = ProxyError-discrete }

abbrev pub error_str : ProxyError → Text
error_str conn_failed = text "connection_failed"
error_str timeout = text "connection_timeout"
error_str reset = text "connection_is_reset"
error_str empty_recv = text "empty_response"
error_str bad_status = text "bad_status"
error_str bad_response = text "bad_response"
error_str error_on_stream = text "error_on_stream"
error_str (disallowed_status code) = text "disallowed_status"
error_str resolve = text "resolve_failed"
