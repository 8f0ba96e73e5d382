-- ===== src/Server/Subscriptions/Ownership.antt =====
-- The two maps agree: a client's list of ids is exactly what the entries say it owns.
use tradar.Base.{
  ℕ, Bool, false, not, List, [], ◌∷◌, ◌++◌, Option, none, some, ◌≡◌, refl, sym, ap, ◌∙◌, inl, inr,
  arith, ◌==◌, ==_iff, if◌then◌else◌, Bool-cases, Option-cases, filter, Text, eq, eq_iff,
}
use tradar.Base.Map.{
  lookup, insert, remove, lookup-insert, lookup-remove, contains, Distinct, contains-append,
  contains-filter_out, Distinct-filter_out, Distinct-concat,
}
use tradar.Server.Subscriptions.{
  ids, clients, Entry, Subscriptions, new, or_empty, forgetting, subscribe, unsubscribe,
  keep_handle, remove_all, remove_client,
}

module _ {H M : Type 0} where
  -- The ids of a client.
  abbrev pub owned : Subscriptions H M → ℕ → List Text
  owned s c = or_empty (lookup clients c s.by_client)

  abbrev pub owns : ℕ → Option (Entry H M) → Bool
  owns c none = false
  owns c (some e) = e.client == c

  pub record Inv (s : Subscriptions H M) : Type 0 where
    pub agrees :
        (c : ℕ) (id : Text) → contains ids id (owned s c) ≡ owns c (lookup ids id s.entries)
    pub distinct : (c : ℕ) → Distinct ids (owned s c)

  pub new-Inv : (prefix : Text) → Inv (new prefix)
  unfolding new lookup contains
  new-Inv prefix = record { agrees = λ c id. refl; distinct = λ c. tt }

  pub owned-insert :
      (s : Subscriptions H M) (client c : ℕ) (l : List Text)
      → or_empty (lookup clients c (insert clients client l s.by_client))
        ≡ (if client == c then l else owned s c)
  owned-insert s client c l = rw (lookup-insert clients client c l s.by_client) (ground arith)

  owned-nothing :
      (s : Subscriptions H M) (client c : ℕ)
      → lookup clients client s.by_client ≡ none
      → owned s c ≡ (if client == c then [] else owned s c)
  owned-nothing s client c e = elim (Bool-cases (client == c)) [
    | inl h ↦ rw h (
        ap (λ k. or_empty (lookup clients k s.by_client)) (sym ((==_iff client c).0 h))
        ∙ ap or_empty e)
    | inr h ↦ rw h
  ]

  pub owned-forgetting :
      (id : Text) (s : Subscriptions H M) (client c : ℕ)
      → or_empty
          (lookup clients c (forgetting id client (lookup clients client s.by_client) s.by_client))
        ≡ (if client == c then filter (λ i. not (eq i id)) (owned s client) else owned s c)
  owned-forgetting id s client c = elim (Option-cases (lookup clients client s.by_client)) [
    | inl e ↦ rw (e, forgetting) (owned-nothing s client c e)
    | inr (l, e) ↦ rw (e, forgetting) (owned-insert s client c (filter (λ i. not (eq i id)) l))
  ]

  module _ (id : Text) (s : Subscriptions H M) (v : Inv s) where
    -- A new subscription keeps the two maps in step, under an id that is not in use.
    pub subscribe-Inv :
        (client : ℕ) (meta : M) (handle : H)
        → lookup ids id s.entries ≡ none
        → Inv (subscribe id client meta handle s)
    unfolding subscribe
    subscribe-Inv client meta handle fresh = record {
      agrees = λ c j. rw (owned-insert s client c (owned s client ++ id ∷ [])) (
          rw
            (lookup-insert ids id j (record { client = client; meta = meta; handle = handle })
              s.entries)
            (unfold contains in
              ground (
                arith,
                contains-append ids j (owned s client) (id ∷ []),
                v.agrees c j,
                v.agrees client j,
                eq_iff id j,
              )));
      distinct = λ c. rw (owned-insert s client c (owned s client ++ id ∷ [])) (
          ground (
            arith,
            Distinct-concat ids id (owned s client) (v.distinct client),
            v.distinct c,
            v.agrees client id,
          ));
    }

    removed-Inv :
        (entry : Entry H M)
        → lookup ids id s.entries ≡ some entry
        → Inv (record s {
          entries = remove ids id s.entries;
          by_client =
              forgetting id entry.client (lookup clients entry.client s.by_client) s.by_client;
        })
    removed-Inv entry e = record {
      agrees = λ c j. rw (owned-forgetting id s entry.client c) (
          rw (lookup-remove ids id j s.entries) (
            ground (
              arith,
              contains-filter_out ids j id (owned s entry.client),
              v.agrees c j,
              v.agrees entry.client j,
              eq_iff id j,
            )));
      distinct = λ c. rw (owned-forgetting id s entry.client c) (
          ground (
            arith,
            Distinct-filter_out ids id (owned s entry.client) (v.distinct entry.client),
            v.distinct c,
          ));
    }

    -- So does the end of one.
    pub unsubscribe-Inv : Inv (unsubscribe id s).0
    unfolding unsubscribe
    unsubscribe-Inv = elim (Option-cases (lookup ids id s.entries)) [
      | inl e ↦ rw (e, unsubscribe) v
      | inr (entry, e) ↦ rw (e, unsubscribe) (removed-Inv entry e)
    ]

  lookup-remove_all :
      (l : List Text) (m : List (Text × Entry H M)) (j : Text)
      → lookup ids j (remove_all l m).0 ≡ (if contains ids j l then none else lookup ids j m)
  unfolding remove_all contains
  lookup-remove_all [] m j = refl
  lookup-remove_all (id ∷ l) m j =
      lookup-remove_all l (remove ids id m) j ∙ rw (lookup-remove ids id j m) (ground arith)

  -- The handles of the ids that have an entry.
  abbrev pub handles : List Text → List (Text × Entry H M) → List H
  handles [] m = []
  handles (id ∷ l) m = keep_handle (lookup ids id m) (handles l m)

  handles-remove :
      (l : List Text) (id : Text) (m : List (Text × Entry H M))
      → contains ids id l ≡ false
      → handles l (remove ids id m) ≡ handles l m
  unfolding contains
  handles-remove [] id m h = refl
  handles-remove (j ∷ l) id m h =
      rw (lookup-remove ids id j m)
        (ground (arith, handles-remove l id m, eq_iff j id, eq_iff id j))

  remove_all-handles :
      (l : List Text) (m : List (Text × Entry H M))
      → Distinct ids l
      → (remove_all l m).1 ≡ handles l m
  unfolding remove_all
  remove_all-handles [] m d = refl
  remove_all-handles (id ∷ l) m d =
      ap (keep_handle (lookup ids id m))
        (remove_all-handles l (remove ids id m) d.1 ∙ handles-remove l id m d.0)

  module _ (client : ℕ) (s : Subscriptions H M) (v : Inv s) where
    -- The state that `remove_client` leaves, read by its parts.
    pub record Removed (t : Subscriptions H M × List H) : Type 0 where
      pub entries_are :
          (id : Text)
          → lookup ids id t.0.entries
            ≡ (if owns client (lookup ids id s.entries) then none else lookup ids id s.entries)
      pub owned_are : (c : ℕ) → owned t.0 c ≡ (if client == c then [] else owned s c)
      pub handles_are : t.1 ≡ handles (owned s client) s.entries

    unowned :
        lookup clients client s.by_client ≡ none
        → (id : Text) → owns client (lookup ids id s.entries) ≡ false
    unowned e id =
        sym (v.agrees client id)
        ∙ ap (λ o. contains ids id (or_empty o)) e
        ∙ unfold contains in refl

    pub remove_client-Removed : Removed (remove_client client s)
    unfolding remove_client
    remove_client-Removed = elim (Option-cases (lookup clients client s.by_client)) [
      | inl e ↦
          rw (e, remove_client)
            (record {
              entries_are = λ id. rw (unowned e id);
              owned_are = λ c. owned-nothing s client c e;
              handles_are = rw e;
            })
      | inr (l, e) ↦
          rw (e, remove_client)
            (record {
              entries_are =
                  λ id. lookup-remove_all l s.entries id ∙ rw (← v.agrees client id) (rw e);
              owned_are = λ c. rw (lookup-remove clients client c s.by_client) (ground arith);
              handles_are = rw e (remove_all-handles l s.entries (rw e at (v.distinct client)));
            })
    ]

    left_agrees :
        (c : ℕ) (id : Text)
        → contains ids id (if client == c then [] else owned s c)
          ≡ owns c (if owns client (lookup ids id s.entries) then none else lookup ids id s.entries)
    unfolding contains
    left_agrees c id = ground (arith, v.agrees c id)

    -- A client that leaves takes with it every subscription that it owns and no other: the handles
    -- of exactly those come back, and the two maps stay in step.
    pub remove_client_lem :
        let (t, stopped) = remove_client client s in
        ((id : Text)
          → lookup ids id t.entries
            ≡ (if owns client (lookup ids id s.entries) then none else lookup ids id s.entries))
        × (stopped ≡ handles (owned s client) s.entries)
        × Inv t
    remove_client_lem =
        let r = remove_client-Removed in
        (
          r.entries_are,
          r.handles_are,
          record {
            agrees = λ c id. rw (r.owned_are c, r.entries_are id) (left_agrees c id);
            distinct = λ c. rw (r.owned_are c) (ground (arith, v.distinct c));
          },
        )
