-- ===== src/Config/Usable.antt =====
-- Which configurations Validate accepts, said without its tests.
use comments_service.Prelude.{
  ℕ, ◌≤◌, ◌≡◌, ◌≢◌, ◌↔◌, ◌⊎◌, inl, inr, true, false, Bool-cases, none, [], ◌∷◌, ◌==◌, length, arith,
  List, refl,
}
use comments_service.Prelude.Int.{ℤ, pos, negsuc, leb_ℤ}
use comments_service.Go.Text.{Text, ascii, text_eq}
use comments_service.Go.Text.Order.{text_eq→eq, text_eq_refl}
use comments_service.Config.{Config, is_environment, is_backend, below_one, validate}

pub data IsAtLeast (low : ℕ) : ℤ → Type 0 where
  at_least : (n : ℕ) → low ≤ n → IsAtLeast low (pos n)

-- Neither number is negative, and the first one is at most the second.
pub data IsRange : ℤ → ℤ → Type 0 where
  range : (low high : ℕ) → low ≤ high → IsRange (pos low) (pos high)

-- The environment and the backend are known, a chosen PostgreSQL has a data source, production has allowed
-- origins, what has to be positive is, the pool's bounds are a range, and the address, the paths and the
-- channel have names.
pub record IsUsable (c : Config) : Type 0 where
  pub environment :
      (c.environment ≡ ascii "local")
      ⊎ ((c.environment ≡ ascii "dev") ⊎ (c.environment ≡ ascii "prod"))
  pub backend : (c.storage.backend ≡ ascii "memory") ⊎ (c.storage.backend ≡ ascii "postgres")
  pub addr : c.http.addr ≢ []
  pub read_timeout : IsAtLeast 1 c.http.read_timeout
  pub write_timeout : IsAtLeast 1 c.http.write_timeout
  pub idle_timeout : IsAtLeast 1 c.http.idle_timeout
  pub shutdown_timeout : IsAtLeast 1 c.http.shutdown_timeout
  pub dsn : c.storage.backend ≡ ascii "postgres" → c.storage.postgres.dsn ≢ []
  pub max_conns : IsAtLeast 1 c.storage.postgres.max_conns
  pub pool : IsRange c.storage.postgres.min_conns c.storage.postgres.max_conns
  pub path : c.graphql.path ≢ []
  pub playground_path : c.graphql.playground_path ≢ []
  pub max_page_size : IsAtLeast 1 c.graphql.max_page_size
  pub max_depth : IsAtLeast 1 c.graphql.max_depth
  pub complexity_limit : IsAtLeast 1 c.graphql.complexity_limit
  pub websocket_keep_alive : IsAtLeast 1 c.graphql.websocket_keep_alive
  pub allowed_origins : c.environment ≡ ascii "prod" → c.graphql.allowed_origins ≢ []
  pub buffer_size : IsAtLeast 1 c.subscriptions.buffer_size
  pub channel_name : c.subscriptions.channel_name ≢ []

-- The tests of Validate, one by one.
record Passes (c : Config) : Type 0 where
  environment : is_environment c.environment ≡ true
  backend : is_backend c.storage.backend ≡ true
  addr : text_eq c.http.addr [] ≡ false
  read_timeout : below_one c.http.read_timeout ≡ false
  write_timeout : below_one c.http.write_timeout ≡ false
  idle_timeout : below_one c.http.idle_timeout ≡ false
  shutdown_timeout : below_one c.http.shutdown_timeout ≡ false
  dsn :
      text_eq c.storage.backend (ascii "postgres") ≡ true
      → text_eq c.storage.postgres.dsn [] ≡ false
  max_conns : below_one c.storage.postgres.max_conns ≡ false
  min_conns : leb_ℤ (pos 0) c.storage.postgres.min_conns ≡ true
  pool : leb_ℤ c.storage.postgres.min_conns c.storage.postgres.max_conns ≡ true
  path : text_eq c.graphql.path [] ≡ false
  playground_path : text_eq c.graphql.playground_path [] ≡ false
  max_page_size : below_one c.graphql.max_page_size ≡ false
  max_depth : below_one c.graphql.max_depth ≡ false
  complexity_limit : below_one c.graphql.complexity_limit ≡ false
  websocket_keep_alive : below_one c.graphql.websocket_keep_alive ≡ false
  allowed_origins :
      text_eq c.environment (ascii "prod") ≡ true → (length c.graphql.allowed_origins == 0) ≡ false
  buffer_size : below_one c.subscriptions.buffer_size ≡ false
  channel_name : text_eq c.subscriptions.channel_name [] ≡ false

validate-Passes : (c : Config) → validate c ≡ none → Passes c
unfolding validate
validate-Passes c h = ground arith

validate-of_Passes : (c : Config) → Passes c → validate c ≡ none
unfolding validate
validate-of_Passes c u = ground arith

-- What each test says.
same_text : (s t : Text) → s ≡ t → text_eq s t ≡ true
same_text s t h = rw h (text_eq_refl t)

named : (t : Text) → text_eq t [] ≡ false → t ≢ []
named t h e = absurd (ground (arith, same_text t [] e))

of_named : (t : Text) → t ≢ [] → text_eq t [] ≡ false
of_named t h = elim (Bool-cases (text_eq t [])) [
  | inl e ↦ absurd (h (text_eq→eq t [] e))
  | inr e ↦ e
]

some_items : {A : Type 0} (xs : List A) → (length xs == 0) ≡ false → xs ≢ []
some_items xs h e = absurd (ground (arith, rw e at h))

of_some_items : {A : Type 0} (xs : List A) → xs ≢ [] → (length xs == 0) ≡ false
of_some_items [] h = absurd (h refl)
of_some_items (x ∷ xs) h = ground arith

positive : (x : ℤ) → below_one x ≡ false → IsAtLeast 1 x
positive (pos n) h = at_least n (ground arith)
positive (negsuc n) h = absurd (ground arith)

of_positive : (x : ℤ) → IsAtLeast 1 x → below_one x ≡ false
of_positive _ (at_least n h) = ground arith

ranged : (x y : ℤ) → leb_ℤ (pos 0) x ≡ true → leb_ℤ x y ≡ true → IsRange x y
ranged (pos m) (pos n) h k = range m n (ground arith)
ranged (pos m) (negsuc n) h k = absurd (ground arith)
ranged (negsuc m) y h k = absurd (ground arith)

of_ranged : (x y : ℤ) → IsRange x y → (leb_ℤ (pos 0) x ≡ true) × (leb_ℤ x y ≡ true)
of_ranged _ _ (range m n h) = (ground arith, ground arith)

known_backend : (t : Text) → is_backend t ≡ true → (t ≡ ascii "memory") ⊎ (t ≡ ascii "postgres")
known_backend t h = elim (Bool-cases (text_eq t (ascii "memory"))) [
  | inl e ↦ inl (text_eq→eq t _ e)
  | inr other ↦ inr (text_eq→eq t _ (ground arith))
]

of_known_backend : (t : Text) → (t ≡ ascii "memory") ⊎ (t ≡ ascii "postgres") → is_backend t ≡ true
of_known_backend t (inl e) = ground (arith, same_text t _ e)
of_known_backend t (inr e) = ground (arith, same_text t _ e)

known_environment :
    (t : Text)
    → is_environment t ≡ true
    → (t ≡ ascii "local") ⊎ ((t ≡ ascii "dev") ⊎ (t ≡ ascii "prod"))
known_environment t h = elim (Bool-cases (text_eq t (ascii "local"))) [
  | inl e ↦ inl (text_eq→eq t _ e)
  | inr other ↦ elim (Bool-cases (text_eq t (ascii "dev"))) [
    | inl e ↦ inr (inl (text_eq→eq t _ e))
    | inr neither ↦ inr (inr (text_eq→eq t _ (ground arith)))
  ]
]

of_known_environment :
    (t : Text)
    → (t ≡ ascii "local") ⊎ ((t ≡ ascii "dev") ⊎ (t ≡ ascii "prod"))
    → is_environment t ≡ true
of_known_environment t (inl e) = ground (arith, same_text t _ e)
of_known_environment t (inr (inl e)) = ground (arith, same_text t _ e)
of_known_environment t (inr (inr e)) = ground (arith, same_text t _ e)

Passes-IsUsable : (c : Config) → Passes c → IsUsable c
Passes-IsUsable c p = record {
  environment = known_environment _ p.environment;
  backend = known_backend _ p.backend;
  addr = named _ p.addr;
  read_timeout = positive _ p.read_timeout;
  write_timeout = positive _ p.write_timeout;
  idle_timeout = positive _ p.idle_timeout;
  shutdown_timeout = positive _ p.shutdown_timeout;
  dsn = λ chosen. named _ (p.dsn (same_text _ _ chosen));
  max_conns = positive _ p.max_conns;
  pool = ranged _ _ p.min_conns p.pool;
  path = named _ p.path;
  playground_path = named _ p.playground_path;
  max_page_size = positive _ p.max_page_size;
  max_depth = positive _ p.max_depth;
  complexity_limit = positive _ p.complexity_limit;
  websocket_keep_alive = positive _ p.websocket_keep_alive;
  allowed_origins = λ prod. some_items _ (p.allowed_origins (same_text _ _ prod));
  buffer_size = positive _ p.buffer_size;
  channel_name = named _ p.channel_name;
}

IsUsable-Passes : (c : Config) → IsUsable c → Passes c
IsUsable-Passes c u =
    let (bounded, ordered) = of_ranged _ _ u.pool in
    record {
      environment = of_known_environment _ u.environment;
      backend = of_known_backend _ u.backend;
      addr = of_named _ u.addr;
      read_timeout = of_positive _ u.read_timeout;
      write_timeout = of_positive _ u.write_timeout;
      idle_timeout = of_positive _ u.idle_timeout;
      shutdown_timeout = of_positive _ u.shutdown_timeout;
      dsn = λ chosen. of_named _ (u.dsn (text_eq→eq _ _ chosen));
      max_conns = of_positive _ u.max_conns;
      min_conns = bounded;
      pool = ordered;
      path = of_named _ u.path;
      playground_path = of_named _ u.playground_path;
      max_page_size = of_positive _ u.max_page_size;
      max_depth = of_positive _ u.max_depth;
      complexity_limit = of_positive _ u.complexity_limit;
      websocket_keep_alive = of_positive _ u.websocket_keep_alive;
      allowed_origins = λ prod. of_some_items _ (u.allowed_origins (text_eq→eq _ _ prod));
      buffer_size = of_positive _ u.buffer_size;
      channel_name = of_named _ u.channel_name;
    }

pub validate-IsUsable : (c : Config) → validate c ≡ none → IsUsable c
validate-IsUsable c h = Passes-IsUsable c (validate-Passes c h)

-- Validate accepts a configuration exactly when its environment is local, dev or prod and its backend memory
-- or postgres, the address, both paths and the channel's name are not empty, the timeouts, the limits on
-- pages, depth and complexity, the keep-alive interval and the buffer are at least one, the numbers of
-- connections are an ascending range of numbers that are not negative with an end of at least one, a
-- postgres backend has a data source, and prod has allowed origins. It asks nothing else: not of the sizes
-- of the caches, of the limit of tokens, or that the two paths differ.
pub validate_iff : (c : Config) → (validate c ≡ none) ↔ IsUsable c
validate_iff c = (validate-IsUsable c, λ u. validate-of_Passes c (IsUsable-Passes c u))
