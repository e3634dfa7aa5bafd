-- ===== src/Config/Valid.antt =====
-- What a configuration that is loaded satisfies.
use poker.Config.{
  ConfigError, ConfigResult, Environment, ServerConfig, Variable, integer, load_from_environment,
  must_be_given, must_give, read_fields, required, result_of,
}
use poker.Config.Numbers.{integer_of, stoll}
use poker.Prelude.{
  if◌then◌else◌, List, List-cases, Option-cases, Text, [], arith, inl, inr, leb, leb_ℤ, length,
  ltb_ℤ, negsuc, none, not, pos, pos_part, refl, some, subst, sym, ℕ, ℤ, ◌++◌, ◌||◌, ◌∷◌, ◌≡◌, ◌≢◌,
  ◌≤◌,
}

abbrev pub IsWithin : ℕ → ℕ → ℕ → Type 0
IsWithin n low high = (low ≤ n) × (n ≤ high)

pub record IsConfigured (c : ServerConfig) : Type 0 where
  pub listen_port : IsWithin c.listen_port 1 65535
  pub metrics_port : IsWithin c.metrics_port 1 65535
  pub io_threads : IsWithin c.io_threads 1 128
  pub logic_shards : IsWithin c.logic_shards 1 128
  pub action_timeout_ms : IsWithin c.action_timeout_ms 1000 300000
  pub idle_timeout_ms : IsWithin c.connection_idle_timeout_ms 10000 600000
  pub grace_ms : IsWithin c.node_failure_grace_ms 6000 300000
  pub max_frame_bytes : IsWithin c.max_frame_bytes 1024 16777216
  pub max_send_bytes : IsWithin c.max_pending_send_bytes 65536 67108864
  pub requests_per_second : IsWithin c.requests_per_second 1 1000000
  pub request_burst : IsWithin c.request_burst 1 1000000
  pub session_ttl_seconds : IsWithin c.session_ttl_seconds 300 2592000
  pub mysql_port : IsWithin c.mysql.port 1 65535
  pub pool_size : IsWithin c.mysql.pool_size 1 128
  pub redis_port : IsWithin c.redis.port 1 65535
  pub redis_database : IsWithin c.redis.database 0 15

pub record IsGiven (c : ServerConfig) : Type 0 where
  pub node_id : c.node_id ≢ []
  pub public_endpoint : c.public_endpoint ≢ []
  pub metrics_host : c.metrics_host ≢ []
  pub password : c.mysql.password ≢ []

IsWithin-of :
    (parsed : ℤ) (rest : Text) (low high n : ℕ)
    → (if leb 1 (length rest) || ltb_ℤ parsed low || not (leb_ℤ parsed high)
        then none
        else some (pos_part parsed))
      ≡ some n
    → IsWithin n low high
IsWithin-of (negsuc k) rest low high n h = ground arith
IsWithin-of (pos k) rest low high n h = ground arith

integer_of-IsWithin :
    (value : Text) (low high n : ℕ) → integer_of value low high ≡ some n → IsWithin n low high
unfolding integer_of
integer_of-IsWithin value low high n h = elim (Option-cases (stoll value)) [
  | inl bad ↦ let h' = rw (bad, integer_of) at h in cc
  | inr ((parsed, rest), good) ↦ IsWithin-of parsed rest low high n (rw (good, integer_of) at h)
]

integer-IsWithin :
    (environment : Environment) (name : Variable) (fallback low high : ℕ)
    (errors : List ConfigError)
    → IsWithin fallback low high
    → IsWithin (integer environment name fallback low high errors).0 low high
unfolding integer
integer-IsWithin environment name fallback low high errors w =
    elim (Option-cases (environment name)) [
      | inl away ↦ rw (away, integer) w
      | inr (value, here) ↦ elim (Option-cases (integer_of value low high)) [
        | inl bad ↦ rw (here, bad, integer) w
        | inr (n, good) ↦ rw (here, good, integer) (integer_of-IsWithin value low high n good)
      ]
    ]

read_fields-IsConfigured : (environment : Environment) → IsConfigured (read_fields environment).0
unfolding read_fields
read_fields-IsConfigured environment = record {
  listen_port = integer-IsWithin environment _ _ _ _ _ (omega arith, omega arith);
  metrics_port = integer-IsWithin environment _ _ _ _ _ (omega arith, omega arith);
  io_threads = integer-IsWithin environment _ _ _ _ _ (omega arith, omega arith);
  logic_shards = integer-IsWithin environment _ _ _ _ _ (omega arith, omega arith);
  action_timeout_ms = integer-IsWithin environment _ _ _ _ _ (omega arith, omega arith);
  idle_timeout_ms = integer-IsWithin environment _ _ _ _ _ (omega arith, omega arith);
  grace_ms = integer-IsWithin environment _ _ _ _ _ (omega arith, omega arith);
  max_frame_bytes = integer-IsWithin environment _ _ _ _ _ (omega arith, omega arith);
  max_send_bytes = integer-IsWithin environment _ _ _ _ _ (omega arith, omega arith);
  requests_per_second = integer-IsWithin environment _ _ _ _ _ (omega arith, omega arith);
  request_burst = integer-IsWithin environment _ _ _ _ _ (omega arith, omega arith);
  session_ttl_seconds = integer-IsWithin environment _ _ _ _ _ (omega arith, omega arith);
  mysql_port = integer-IsWithin environment _ _ _ _ _ (omega arith, omega arith);
  pool_size = integer-IsWithin environment _ _ _ _ _ (omega arith, omega arith);
  redis_port = integer-IsWithin environment _ _ _ _ _ (omega arith, omega arith);
  redis_database = integer-IsWithin environment _ _ _ _ _ (omega arith, omega arith);
}

append-ne : {A : Type 0} (l : List A) (a : A) → l ++ (a ∷ []) ≢ []
append-ne [] a = λ e. cc
append-ne (b ∷ l) a = λ e. cc

must_give-given :
    (name : Variable) (value : Text) (errors : List ConfigError)
    → must_give name value errors ≡ []
    → (value ≢ []) × (errors ≡ [])
must_give-given name [] errors h = absurd (append-ne errors (must_be_given name) h)
must_give-given name (c ∷ value) errors h = (λ e. cc, h)

required-IsGiven :
    (c : ServerConfig) (errors : List ConfigError)
    → required c errors ≡ []
    → IsGiven c × (errors ≡ [])
unfolding required
required-IsGiven c errors h =
    let (password, h3) = must_give-given _ c.mysql.password _ h in
    let (metrics, h2) = must_give-given _ c.metrics_host _ h3 in
    let (endpoint, h1) = must_give-given _ c.public_endpoint _ h2 in
    let (node, h0) = must_give-given _ c.node_id _ h1 in
    (
      record {
        node_id = node;
        public_endpoint = endpoint;
        metrics_host = metrics;
        password = password;
      },
      h0,
    )

-- What a call answers: a configuration, or errors.
pub data IsLoaded (r : ConfigResult) : Type 0 where
  loaded :
      (c : ServerConfig)
      → r.value ≡ some c
      → r.errors ≡ []
      → IsConfigured c
      → IsGiven c
      → IsLoaded r
  failed : r.value ≡ none → r.errors ≢ [] → IsLoaded r

-- In whatever environment, loading answers errors and no configuration, or a configuration and no
-- error, whose numbers are all within their bounds and in which the node, its endpoint, the host of
-- the metrics and the password of the database are not empty.
pub load_from_environment-IsLoaded :
    (environment : Environment) → IsLoaded (load_from_environment environment)
unfolding load_from_environment
load_from_environment-IsLoaded environment =
    let config = (read_fields environment).0 in
    let fine = read_fields-IsConfigured environment in
    let missing = required config (read_fields environment).1 in
    elim (List-cases missing) [
      | inl none_ ↦
          subst (λ l. IsLoaded (result_of config l)) (sym none_)
            (loaded config refl refl fine (required-IsGiven config _ none_).0)
      | inr (e, (errors, some_)) ↦
          subst (λ l. IsLoaded (result_of config l)) (sym some_) (failed refl (λ q. cc))
    ]
