-- ===== src/Judges.antt =====
-- src/judge.rs: the judges, what makes one usable, and the pool of those that are.
pub mod Usable
use proxybroker_rs.Net.{IpAddr, addr_eq, ip_eq}
use proxybroker_rs.Parse.Scan.{Regexes, get_all_ip}
use proxybroker_rs.Prelude.{
  Bool, List, Option, [], any, false, get_elem?, if◌then◌else◌, is_empty, length, max, none, not,
  some, true, ℕ, ◌%◌, ◌&&◌, ◌++◌, ◌∷◌,
}
use proxybroker_rs.Prelude.Equality.{list_eq, nat_eq, ◌==◌}
use proxybroker_rs.Server.Requests.{IpText, frontend_eq}
use proxybroker_rs.Text.{Text, contains, count_matches, lowercase, text}
use proxybroker_rs.Types.Scheme.{JudgeScheme, scheme_eq}

pub record Marks : Type 0 where
  pub via : ℕ
  pub proxy_count : ℕ

pub record Judge : Type 0 where
  pub url : Text
  pub scheme : JudgeScheme
  pub host : Text
  pub path : Text
  pub ip_addr : Option IpAddr
  pub marks : Marks

-- `Url::parse` of a library: the parts of a URL.
pub record UrlParts : Type 0 where
  pub scheme_name : Text
  pub host_str : Option Text
  pub path_part : Text
  pub query : Option Text

pub record Urls : Type 0 where
  pub parse_url : Text → Option UrlParts

abbrev pub no_marks : Marks
no_marks = record { via = 0; proxy_count = 0 }

-- `None` for a scheme that is none of the three.
abbrev pub judge_scheme_of : Text → Option JudgeScheme
judge_scheme_of s =
    if s == text "http"
    then some JudgeScheme.http
    else if s == text "https"
    then some JudgeScheme.https
    else if s == text "smtp"
    then some JudgeScheme.smtp
    else none

abbrev pub path_query : UrlParts → Text
path_query parts = elim parts.query [
  | none ↦ parts.path_part
  | some q ↦ parts.path_part ++ b'?' ∷ q
]

abbrev pub judge_from : Text → UrlParts → Option JudgeScheme → Option Text → Option Judge
judge_from url parts (some scheme) (some host) = some (record {
  url = url;
  scheme = scheme;
  host = host;
  path = path_query parts;
  ip_addr = none;
  marks = no_marks;
})
judge_from url parts _ _ = none

unfoldable pub parse_judge : ⦃l : Urls⦄ → Text → Option Judge
parse_judge ⦃l⦄ url = elim (l.parse_url url) [
  | none ↦ none
  | some parts ↦ judge_from url parts (judge_scheme_of parts.scheme_name) parts.host_str
]

unfoldable pub parse_judges : ⦃l : Urls⦄ → List Text → List Judge
unfolding parse_judge
parse_judges [] = []
parse_judges (url ∷ urls) = elim (parse_judge url) [
  | none ↦ parse_judges urls
  | some j ↦ j ∷ parse_judges urls
]

-- What one probe of a judge finds: its address, the marker sent, and the answer, by its status and
-- its text, if there is one.
pub record Finding : Type 0 where
  pub resolved : Option IpAddr
  pub marker : Text
  pub answer : Option (ℕ × Option Text)

abbrev pub is_smtp : JudgeScheme → Bool
is_smtp JudgeScheme.smtp = true
is_smtp _ = false

-- Whether one of the host's own addresses stands in the page.
abbrev pub ip_visible : ⦃t : IpText⦄ ⦃x : Regexes⦄ → List IpAddr → Text → Bool
ip_visible ⦃t⦄ real_ips page = any (λ a. any (λ s. s == t.show_ip a) (get_all_ip page)) real_ips

abbrev pub marks_of : Text → Marks
marks_of page = record {
  via = count_matches (text "via") page;
  proxy_count = count_matches (text "proxy") page;
}

module _ ⦃t : IpText⦄ ⦃x : Regexes⦄ where
  unfoldable pub judge_page : List IpAddr → Text → Judge → Text → Option Judge
  unfolding get_all_ip contains count_matches lowercase
  judge_page real_ips marker j body =
      let page = lowercase body in
      if ip_visible real_ips page && contains marker page
      then some (record j { marks = marks_of page })
      else none

  abbrev pub on_answer : List IpAddr → Text → Judge → Option (ℕ × Option Text) → Option Judge
  on_answer real_ips marker j none = none
  on_answer real_ips marker j (some (status, none)) = none
  on_answer real_ips marker j (some (status, some body)) =
      if not (status == 200) then none else judge_page real_ips marker j body

  -- The judge with its address and its marks, if it is usable.
  abbrev pub on_resolved : List IpAddr → Finding → Judge → Option IpAddr → Option Judge
  on_resolved real_ips e j none = none
  on_resolved real_ips e j (some a) =
      let found = record j { ip_addr = some a } in
      if is_smtp j.scheme then some found else on_answer real_ips e.marker found e.answer

  unfoldable pub probe_judge : List IpAddr → Finding → Judge → Option Judge
  unfolding judge_page
  probe_judge real_ips e j = on_resolved real_ips e j e.resolved

pub record JudgePool : Type 0 where
  pub http_judges : List Judge
  pub https_judges : List Judge
  pub smtp_judges : List Judge

abbrev pub no_judges : JudgePool
no_judges = record { http_judges = []; https_judges = []; smtp_judges = [] }

abbrev pub push_judge : JudgePool → Judge → JudgeScheme → JudgePool
push_judge pool j JudgeScheme.http = record pool { http_judges = pool.http_judges ++ j ∷ [] }
push_judge pool j JudgeScheme.https = record pool { https_judges = pool.https_judges ++ j ∷ [] }
push_judge pool j JudgeScheme.smtp = record pool { smtp_judges = pool.smtp_judges ++ j ∷ [] }

module _ ⦃t : IpText⦄ ⦃x : Regexes⦄ where
  abbrev pub push_working : JudgePool → Option Judge → JudgePool
  push_working pool none = pool
  push_working pool (some j) = push_judge pool j j.scheme

  -- The probes run side by side, and their outcomes are taken in the order of the judges.
  unfoldable pub probe_all : List IpAddr → (Judge → Finding) → JudgePool → List Judge → JudgePool
  unfolding probe_judge
  probe_all real_ips env pool [] = pool
  probe_all real_ips env pool (j ∷ js) =
      probe_all real_ips env (push_working pool (probe_judge real_ips (env j) j)) js

abbrev pub bucket : JudgePool → JudgeScheme → List Judge
bucket pool JudgeScheme.http = pool.http_judges
bucket pool JudgeScheme.https = pool.https_judges
bucket pool JudgeScheme.smtp = pool.smtp_judges

-- `draw` is what the generator of random numbers gives.
unfoldable pub random_judge : JudgePool → JudgeScheme → ℕ → Option Judge
random_judge pool scheme draw =
    get_elem? (bucket pool scheme) (draw % max 1 (length (bucket pool scheme)))

unfoldable pub pool_is_empty : JudgePool → Bool
pool_is_empty pool =
    is_empty pool.http_judges && is_empty pool.https_judges && is_empty pool.smtp_judges

unfoldable pub counts : JudgePool → ℕ × ℕ × ℕ
counts pool = (length pool.http_judges, length pool.https_judges, length pool.smtp_judges)

abbrev pub default_judges : List Text
default_judges =
    text "http://httpbin.org/get?show_env"
    ∷ text "https://httpbin.org/get?show_env"
    ∷ text "smtp://smtp.gmail.com"
    ∷ text "smtp://aspmx.l.google.com"
    ∷ text "http://azenv.net/"
    ∷ text "https://www.proxy-listen.de/azenv.php"
    ∷ text "http://proxyjudge.us/azenv.php"
    ∷ text "http://ip.spys.ru/"
    ∷ []
