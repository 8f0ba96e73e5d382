-- ===== src/Server/Idle.antt =====
-- crates/tradar-server/src/server/idle.rs: which connections `reap_idle` closes. A driver is told by
-- an id (`Arc::ptr_eq`), whether it is in a transaction, and how many handles to it are held
-- (`Arc::strong_count`); an extension by its connections and its answer to `close`. Times count in
-- any unit; a difference of times stops at 0.
pub mod Exact
pub mod Ttl
use tradar.Base.{
  ℕ, zero, suc, ◌+◌, ◌-◌, Bool, true, false, not, ◌&&◌, ◌||◌, List, [], ◌∷◌, ◌++◌, map, Option,
  none, some, leb, ◌==◌, if◌then◌else◌, filter, any, Text,
}
use tradar.Base.Map.{lookup, insert, remove}
use tradar.Server.Subscriptions.{ids}

pub record Driver : Type 0 where
  pub id : ℕ
  pub in_transaction : Bool
  pub strong_count : ℕ

pub record Extension : Type 0 where
  pub connected : List Text
  pub close : Text → Bool

-- The part of the server's `State` that the reaper reads; `running` has the driver of each query.
pub record State (C : Type 0) : Type 0 where
  pub drivers : List (Text × Driver)
  pub completions : List (Text × C)
  pub last_used : List (Text × ℕ)
  pub running : List (Text × ℕ)

-- `is_none_or(|t| now.saturating_duration_since(*t) >= ttl)`
abbrev pub long_ago : ℕ → ℕ → Option ℕ → Bool
long_ago ttl now none = true
long_ago ttl now (some t) = leb ttl (now - t)

unfoldable pub quiet : ℕ → ℕ → List (Text × ℕ) → Text → Bool
quiet ttl now last_used name = long_ago ttl now (lookup ids name last_used)

unfoldable pub busy : List (Text × ℕ) → Driver → Bool
busy running d = d.in_transaction || (not (d.strong_count == 1) || any (λ r. r.1 == d.id) running)

module _ {C : Type 0} where
  abbrev pub closes : ℕ → ℕ → State C → Text × Driver → Bool
  closes ttl now s (name, d) = quiet ttl now s.last_used name && not (busy s.running d)

  unfoldable pub idle_names : ℕ → ℕ → State C → List Text
  unfolding quiet busy
  idle_names ttl now s = map (λ e. e.0) (filter (closes ttl now s) s.drivers)

  -- `state.drivers.remove(name)` and the rest of that loop
  unfoldable pub forget : List Text → State C → State C
  forget [] s = s
  forget (name ∷ names) s = forget names (record s {
    drivers = remove ids name s.drivers;
    completions = remove ids name s.completions;
    last_used = remove ids name s.last_used;
  })

  -- The loop over the connections of an extension: the state, and what has been closed.
  unfoldable pub close_quiet :
      ℕ → ℕ → (Text → Bool) → List Text → State C → List Text → State C × List Text
  close_quiet ttl now close [] s closed = (s, closed)
  close_quiet ttl now close (name ∷ names) s closed =
      let shut =
        close_quiet ttl now close names (record s { last_used = remove ids name s.last_used })
          (closed ++ name ∷ []) in
      let kept = close_quiet ttl now close names s closed in
      if quiet ttl now s.last_used name && close name then shut else kept

  unfoldable pub close_extensions :
      ℕ → ℕ → List Extension → State C → List Text → State C × List Text
  unfolding close_quiet
  close_extensions ttl now [] s closed = (s, closed)
  close_extensions ttl now (e ∷ extensions) s closed =
      let (t, more) = close_quiet ttl now e.close e.connected s closed in
      close_extensions ttl now extensions t more

  unfoldable pub reap_idle : ℕ → ℕ → List Extension → State C → State C × List Text
  unfolding idle_names forget close_extensions
  reap_idle ttl now extensions s =
      let idle = idle_names ttl now s in close_extensions ttl now extensions (forget idle s) idle
