-- ===== src/Server/Idle/Exact.antt =====
-- `reap_idle` closes exactly the connections that are quiet and whose driver is not busy.
use tradar.Base.{
  ℕ, Bool, false, not, ◌&&◌, List, [], ◌∷◌, ◌++◌, map, Option, none, some, ◌≡◌, refl, ap, ◌∙◌, inl,
  inr, arith, if◌then◌else◌, filter, Text, any, All, ==_iff, ◌==◌, ◌≢◌, ◌↔◌, ◌⊎◌, ◌-◌, ◌≤◌, true,
  Option-cases, eq, eq_iff, eq_refl, subst, Bool-cases,
}
use tradar.Base.Map.{lookup, remove, lookup-remove, contains, Distinct}
use tradar.Server.Subscriptions.{ids}
use tradar.Server.Idle.{
  Driver, Extension, State, quiet, busy, closes, idle_names, forget, close_quiet, close_extensions,
  reap_idle,
}

abbrev pub names : {V : Type 0} → List (Text × V) → List Text
names = map (λ e. e.0)

abbrev pub passes : (Driver → Bool) → Option Driver → Bool
passes p none = false
passes p (some d) = p d

not_listed :
    (name : Text) (m : List (Text × Driver))
    → contains ids name (names m) ≡ false
    → lookup ids name m ≡ none
unfolding contains lookup
not_listed name [] h = refl
not_listed name ((n, d) ∷ m) h = ground (arith, not_listed name m, h)

filter-unlisted :
    (p : Text × Driver → Bool) (name : Text) (m : List (Text × Driver))
    → contains ids name (names m) ≡ false
    → contains ids name (names (filter p m)) ≡ false
unfolding contains
filter-unlisted p name [] h = refl
filter-unlisted p name ((n, d) ∷ m) h = ground (arith, filter-unlisted p name m, h)

first-passes :
    (p : Text × Driver → Bool) (n : Text) (d : Driver) (m : List (Text × Driver))
    → contains ids n (names m) ≡ false
    → contains ids n (names (filter p ((n, d) ∷ m)))
      ≡ passes (λ e. p (n, e)) (lookup ids n ((n, d) ∷ m))
unfolding contains lookup
first-passes p n d m h = rw (eq_refl n) (ground (arith, filter-unlisted p n m h, eq_refl n))

any-none : (k : ℕ) (rs : List (Text × ℕ)) → (any (λ r. r.1 == k) rs ≡ false) ↔ All (λ r. r.1 ≢ k) rs
any-none k [] = ((λ _. tt), (λ _. refl))
any-none k (r ∷ rs) =
    let more = any-none k rs in
    let one = ==_iff r.1 k in
    (
      (λ h. ((λ e. cc (one.1 e, h)), more.0 (ground arith))),
      (λ h. let rest = more.1 h.1 in ground (arith, h.0, one)),
    )

-- A name is among those that pass exactly if its entry does.
contains-filter :
    (p : Text × Driver → Bool) (name : Text) (m : List (Text × Driver))
    → Distinct ids (names m)
    → contains ids name (names (filter p m)) ≡ passes (λ d. p (name, d)) (lookup ids name m)
unfolding contains lookup
contains-filter p name [] h = refl
contains-filter p name ((n, d) ∷ m) h = elim (Bool-cases (eq n name)) [
  | inl e ↦
      subst
        (λ k.
          contains ids k (names (filter p ((n, d) ∷ m)))
          ≡ passes (λ f. p (k, f)) (lookup ids k ((n, d) ∷ m)))
        ((eq_iff n name).0 e) (first-passes p n d m h.0)
  | inr e ↦ rw e (ground (arith, contains-filter p name m h.1, e))
]

quiet-unused :
    (ttl now : ℕ) (last_used : List (Text × ℕ)) (name : Text)
    → (quiet ttl now last_used name ≡ true)
      ↔ ((t : ℕ) → lookup ids name last_used ≡ some t → ttl ≤ now - t)
unfolding quiet
quiet-unused ttl now last_used name = elim (Option-cases (lookup ids name last_used)) [
  | inl e ↦ rw e ((λ _ t h. absurd cc), (λ _. refl))
  | inr (u, e) ↦
      rw e
        ((λ h t k. let same : u ≡ t = cc in ground arith), (λ h. let w = h u refl in ground arith))
]

module _ {C : Type 0} where
  forget-drivers :
      (closed : List Text) (s : State C) (name : Text)
      → lookup ids name (forget closed s).drivers
        ≡ (if contains ids name closed then none else lookup ids name s.drivers)
  unfolding forget contains
  forget-drivers [] s name = refl
  forget-drivers (n ∷ closed) s name =
      let t = record s {
        drivers = remove ids n s.drivers;
        completions = remove ids n s.completions;
        last_used = remove ids n s.last_used;
      } in
      forget-drivers closed t name ∙ rw (lookup-remove ids n name s.drivers) (ground arith)

  close_quiet-drivers :
      (ttl now : ℕ) (close : Text → Bool) (connected : List Text) (s : State C) (closed : List Text)
      → (close_quiet ttl now close connected s closed).0.drivers ≡ s.drivers
  unfolding close_quiet
  close_quiet-drivers ttl now close [] s closed = refl
  close_quiet-drivers ttl now close (name ∷ connected) s closed =
      elim (Bool-cases (quiet ttl now s.last_used name && close name)) [
        | inl h ↦ rw h (
            close_quiet-drivers ttl now close connected
              (record s { last_used = remove ids name s.last_used }) (closed ++ name ∷ []))
        | inr h ↦ rw h (close_quiet-drivers ttl now close connected s closed)
      ]

  close_extensions-drivers :
      (ttl now : ℕ) (extensions : List Extension) (s : State C) (closed : List Text)
      → (close_extensions ttl now extensions s closed).0.drivers ≡ s.drivers
  unfolding close_extensions
  close_extensions-drivers ttl now [] s closed = refl
  close_extensions-drivers ttl now (e ∷ extensions) s closed =
      let r = close_quiet ttl now e.close e.connected s closed in
      close_extensions-drivers ttl now extensions r.0 r.1
      ∙ close_quiet-drivers ttl now e.close e.connected s closed

  reap_idle-lookup :
      (ttl now : ℕ) (extensions : List Extension) (s : State C) (name : Text)
      → Distinct ids (names s.drivers)
      → lookup ids name (reap_idle ttl now extensions s).0.drivers ≡ (
          if passes
            (λ d. quiet ttl now s.last_used name && not (busy s.running d))
            (lookup ids name s.drivers)
          then none
          else lookup ids name s.drivers)
  unfolding reap_idle idle_names
  reap_idle-lookup ttl now extensions s name d =
      ap (lookup ids name) (close_extensions-drivers ttl now extensions _ _)
      ∙ forget-drivers (idle_names ttl now s) s name
      ∙ rw (contains-filter (closes ttl now s) name s.drivers d) refl

  -- A connection that may be closed: not used for the time limit, or at no known time, and its driver
  -- is in no transaction, is held by nothing else and runs no query.
  pub record IsIdle (ttl now : ℕ) (s : State C) (name : Text) (d : Driver) : Type 0 where
    pub unused : (t : ℕ) → lookup ids name s.last_used ≡ some t → ttl ≤ now - t
    pub no_transaction : d.in_transaction ≡ false
    pub unshared : d.strong_count ≡ 1
    pub runs_none : All (λ r. r.1 ≢ d.id) s.running

  IsIdle_lem :
      (ttl now : ℕ) (s : State C) (name : Text) (d : Driver)
      → (quiet ttl now s.last_used name && not (busy s.running d) ≡ true) ↔ IsIdle ttl now s name d
  unfolding busy
  IsIdle_lem ttl now s name d = (
    (λ h. record {
      unused = (quiet-unused ttl now s.last_used name).0 (ground arith);
      no_transaction = ground arith;
      unshared = ground arith;
      runs_none = (any-none d.id s.running).0 (ground arith);
    }),
    (λ h.
        let q = (quiet-unused ttl now s.last_used name).1 h.unused in
        let none_runs = (any-none d.id s.running).1 h.runs_none in
        ground (arith, q, none_runs, h.no_transaction, h.unshared)),
  )

  closed_lem :
      (ttl now : ℕ) (s : State C) (name : Text) (d : Driver) {after : Option Driver}
      → after ≡ (if quiet ttl now s.last_used name && not (busy s.running d) then none else some d)
      → ((after ≡ none) ↔ IsIdle ttl now s name d) × ((after ≡ none) ⊎ (after ≡ some d))
  closed_lem ttl now s name d {after} h =
      let idle = IsIdle_lem ttl now s name d in
      elim (Bool-cases (quiet ttl now s.last_used name && not (busy s.running d))) [
        | inl e ↦
            let shut : after ≡ none = h ∙ rw e refl in (((λ _. idle.0 e), (λ _. shut)), inl shut)
        | inr e ↦
            let kept : after ≡ some d = h ∙ rw e refl in
            (((λ n. absurd cc), (λ i. absurd (cc (idle.1 i)))), inr kept)
      ]

  -- With each open connection listed once, `reap_idle` closes an open connection exactly if it may be
  -- closed: it has not been used for the time limit, or at no known time; its driver is in no
  -- transaction, has no other handle, and runs no query. Any other connection keeps its driver, and
  -- none is opened.
  pub reap_idle-drivers :
      (ttl now : ℕ) (extensions : List Extension) (s : State C) (name : Text)
      → Distinct ids (names s.drivers)
      → (let after = lookup ids name (reap_idle ttl now extensions s).0.drivers in
          (lookup ids name s.drivers ≡ none → after ≡ none)
          × ((d : Driver)
              → lookup ids name s.drivers ≡ some d
              → ((after ≡ none) ↔ IsIdle ttl now s name d) × ((after ≡ none) ⊎ (after ≡ some d))))
  reap_idle-drivers ttl now extensions s name h =
      let closed = reap_idle-lookup ttl now extensions s name h in
      ((λ e. closed ∙ rw e refl), (λ d e. closed_lem ttl now s name d (closed ∙ rw e refl)))
