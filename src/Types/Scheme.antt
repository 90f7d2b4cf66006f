-- ===== src/Types/Scheme.antt =====
-- src/types.rs, `Scheme` and `JudgeScheme`.
use proxybroker_rs.Prelude.{ℕ}
use proxybroker_rs.Prelude.Equality.{Eq, list_eq, nat_eq}

pub data Scheme : Type 0 where
  http https : Scheme

unfoldable pub Scheme-discrete : Discrete Scheme
Scheme-discrete = hlevel

instance abbrev pub scheme_eq : Eq Scheme
scheme_eq = record { dec = Scheme-discrete }

pub data JudgeScheme : Type 0 where
  http https smtp : JudgeScheme

abbrev pub default_port : JudgeScheme → ℕ
default_port JudgeScheme.http = 80
default_port JudgeScheme.https = 443
default_port JudgeScheme.smtp = 25
