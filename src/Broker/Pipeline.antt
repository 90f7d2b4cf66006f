-- ===== src/Broker/Pipeline.antt =====
-- src/broker.rs: `check_stream`, whose tasks run side by side. A step is what one of them does
-- between two points where another may run; `source` is what the source gives and `checks` what the
-- checker makes of a proxy, so that both of them answer.
use proxybroker_rs.Float.{Float, nat_float}
use proxybroker_rs.Prelude.{
  Bool, List, Option, [], false, get_elem?, if◌then◌else◌, leb, length, none, not, remove_at, some,
  true, ℕ, ◌&&◌, ◌++◌, ◌+◌, ◌<◌, ◌||◌, ◌∷◌, ◌≡◌, ◌⊎◌,
}
use proxybroker_rs.Proxy.Record.{Proxy, capabilities}
use proxybroker_rs.Proxy.Trust.{trusted as is_trusted}
use proxybroker_rs.Stats.Collector.{StatsCollector, fresh, record_proxy}

-- `CapsFilter`.
pub record CapsFilter : Type 0 where
  pub cookie : Bool
  pub referer : Bool
  pub connect25 : Bool
  pub trusted : Bool

abbrev pub implies : Bool → Bool → Bool
implies asked held = not asked || held

module _ {F : Type 0} where
  unfoldable pub caps_pass : CapsFilter → Proxy F → Bool
  unfolding capabilities
  caps_pass c p =
      implies c.cookie (capabilities p).cookie_echo
      && implies c.referer (capabilities p).referer_echo
      && implies c.connect25 (capabilities p).connect25
      && implies c.trusted (is_trusted p.trust)

-- `is_limit_reached`.
abbrev pub reached : Option ℕ → ℕ → Bool
reached none n = false
reached (some l) n = leb l n

pub record RunConfig (F : Type 0) : Type 0 where
  pub max_conn : ℕ
  pub limit : Option ℕ
  pub caps : CapsFilter
  pub checks : Proxy F → Bool × Proxy F

-- Where the loop over the source stands: before the next proxy, waiting for a permit, or done.
pub data Phase (F : Type 0) : Type 0 where
  looping : Phase F
  holding : Proxy F → Phase F
  draining : Phase F

-- Where a spawned task stands: in the check, with a proxy that has passed, or sending it as the
-- one with this number.
pub data Task (F : Type 0) : Type 0 where
  checking : Proxy F → Task F
  passed : Proxy F → Task F
  sending : ℕ → Proxy F → Task F

-- How many proxies wait in the channel at most before a send waits for the consumer.
abbrev pub channel_capacity : ℕ
channel_capacity = 256

pub record Run (F : Type 0) : Type 0 where
  pub source : List (Proxy F)
  pub phase : Phase F
  pub tasks : List (Task F)
  pub sent : ℕ
  pub cancelled : Bool
  pub gone : Bool
  pub stats : StatsCollector F
  -- The proxies that the observer has been called with, those put into the channel, and how many
  -- of these the consumer has taken out of it.
  pub observed : List (Proxy F)
  pub out : List (Proxy F)
  pub received : ℕ

module _ {F : Type 0} where
  -- A proxy that has been checked goes on if it works and has the capabilities asked for.
  abbrev pub emits : RunConfig F → Bool × Proxy F → Bool
  emits cfg (works, p) = works && caps_pass cfg.caps p

  abbrev pub passed_on : RunConfig F → Bool × Proxy F → List (Task F)
  passed_on cfg (works, p) = if emits cfg (works, p) then passed p ∷ [] else []

  -- `fetch_add` on the count, and what it decides.
  abbrev pub reserved : RunConfig F → Proxy F → ℕ → List (Task F)
  reserved cfg p n = if reached cfg.limit n then [] else sending n p ∷ []

module _ {F : Type 0} ⦃f : Float F⦄ where
  -- `i` is the place of a task in the list.
  pub data Step (cfg : RunConfig F) : Run F → Run F → Type 0 where
    -- The loop takes the next proxy, or ends.
    takes :
        (s : Run F) (p : Proxy F) (ps : List (Proxy F))
        → s.phase ≡ looping
        → s.source ≡ p ∷ ps
        → s.cancelled ≡ false
        → reached cfg.limit s.sent ≡ false
        → Step cfg s (record s { phase = holding p; source = ps })
    stops :
        (s : Run F) (p : Proxy F) (ps : List (Proxy F))
        → s.phase ≡ looping
        → s.source ≡ p ∷ ps
        → (s.cancelled ≡ true) ⊎ (reached cfg.limit s.sent ≡ true)
        → Step cfg s (record s { phase = draining; source = ps })
    runs_dry :
        (s : Run F) → s.phase ≡ looping → s.source ≡ [] → Step cfg s (record s { phase = draining })
    -- A permit is free, and the task is spawned.
    spawns :
        (s : Run F) (p : Proxy F)
        → s.phase ≡ holding p
        → length s.tasks < cfg.max_conn
        → Step cfg s (record s { phase = looping; tasks = checking p ∷ s.tasks })
    -- A task in its check is cancelled.
    aborts :
        (s : Run F) (i : ℕ) (p : Proxy F)
        → get_elem? s.tasks i ≡ some (checking p)
        → s.cancelled ≡ true
        → Step cfg s (record s { tasks = remove_at i s.tasks })
    -- The check is done: the outcome is recorded and observed, working or not.
    finishes :
        (s : Run F) (i : ℕ) (p : Proxy F)
        → get_elem? s.tasks i ≡ some (checking p)
        → Step cfg s (record s {
          tasks = passed_on cfg (cfg.checks p) ++ remove_at i s.tasks;
          stats = record_proxy (cfg.checks p).1 s.stats;
          observed = s.observed ++ (cfg.checks p).1 ∷ [];
        })
    -- A slot is reserved; the one past the limit cancels the run.
    reserves :
        (s : Run F) (i : ℕ) (p : Proxy F)
        → get_elem? s.tasks i ≡ some (passed p)
        → Step cfg s (record s {
          tasks = reserved cfg p s.sent ++ remove_at i s.tasks;
          sent = s.sent + 1;
          cancelled = s.cancelled || reached cfg.limit s.sent;
        })
    -- The proxy is put into the channel, which has room, or the consumer has gone; the last one
    -- cancels the run. A task that finds the channel full stays where it is.
    delivers :
        (s : Run F) (i n : ℕ) (p : Proxy F)
        → get_elem? s.tasks i ≡ some (sending n p)
        → (s.gone ≡ true) ⊎ (length s.out < s.received + channel_capacity)
        → Step cfg s (record s {
          tasks = remove_at i s.tasks;
          out = if s.gone then s.out else s.out ++ p ∷ [];
          cancelled = s.cancelled || reached cfg.limit (n + 1);
        })
    -- The consumer takes a proxy out of the channel.
    receives :
        (s : Run F)
        → s.gone ≡ false
        → s.received < length s.out
        → Step cfg s (record s { received = s.received + 1 })
    -- The consumer drops the stream.
    hangs_up : (s : Run F) → Step cfg s (record s { gone = true; cancelled = true })

  pub data Runs (cfg : RunConfig F) (s : Run F) : Run F → Type 0 where
    begun : Runs cfg s s
    then_step : {t u : Run F} → Runs cfg s t → Step cfg t u → Runs cfg s u

  abbrev pub new_run : List (Proxy F) → Run F
  new_run source = record {
    source = source;
    phase = looping;
    tasks = [];
    sent = 0;
    cancelled = false;
    gone = false;
    stats = fresh;
    observed = [];
    out = [];
    received = 0;
  }

  -- The sending side has ended: the loop is over and every task is done.
  abbrev pub IsClosed : Run F → Type 0
  IsClosed s = (s.phase ≡ draining) × (s.tasks ≡ [])
