-- ===== src/Server/Subscriptions/Refines/Run.antt =====
-- Any calls give the same answers on the two maps and on the table.
use tradar.Base.{
  ℕ, false, not, List, [], ◌∷◌, ◌++◌, map, map-append, Option, none, some, ◌≡◌, refl, sym, ap, ap₂,
  ◌∙◌, inl, inr, arith, ◌==◌, ==_iff, if◌then◌else◌, Bool-cases, Option-cases, filter, All, Text,
  eq,
}
use tradar.Base.Map.{
  lookup, remove, lookup-insert, lookup-remove, contains, Distinct-concat, Distinct-filter_out,
}
use tradar.Server.Subscriptions.{
  ids, Entry, Subscriptions, new, handle_of, subscribe, unsubscribe, remove_client,
}
use tradar.Server.Subscriptions.Ownership.{
  owned, owned-insert, owned-forgetting, owns, new-Inv, subscribe-Inv, unsubscribe-Inv, handles,
  remove_client_lem, remove_client-Removed,
}
use tradar.Server.Subscriptions.Refines.{
  Table, of_client, names, begin_row, leave_rows, Refines, lookup-append, filter-append, unlisted,
  names-filter_out, names-remove, remove-unlisted, lookup-leave_rows, of_client-leave_rows,
  Distinct-leave_rows, handles-rows, rows_listed,
}

filter-absent :
    (id : Text) (xs : List Text) → contains ids id xs ≡ false → filter (λ x. not (eq x id)) xs ≡ xs
unfolding contains
filter-absent id [] h = refl
filter-absent id (x ∷ xs) h = ground (arith, filter-absent id xs, h)

All-map :
    {A : Type 0} (P Q : A → Type 0) (xs : List A) → ((a : A) → P a → Q a) → All P xs → All Q xs
All-map P Q [] f h = tt
All-map P Q (x ∷ xs) f h = (f x h.0, All-map P Q xs f h.1)

module _ {H M : Type 0} (s : Subscriptions H M) (l : Table H M) (v : Refines s l) where
  begun :
      (client c : ℕ) (id : Text)
      → (if client == c then owned s client ++ id ∷ [] else names (filter (of_client c) l)) ≡ (
          if client == c
          then names (filter (of_client c) l) ++ id ∷ []
          else names (filter (of_client c) l))
  begun client c id = elim (Bool-cases (client == c)) [
    | inl h ↦ rw h (ap (λ o. o ++ id ∷ []) (ap (owned s) ((==_iff client c).0 h) ∙ v.owned_are c))
    | inr h ↦ rw h
  ]

  pub subscribe-Refines :
      (id : Text) (client : ℕ) (meta : M) (handle : H)
      → lookup ids id l ≡ none
      → Refines (subscribe id client meta handle s) (begin_row id client meta handle l)
  unfolding subscribe
  subscribe-Refines id client meta handle fresh =
      let e : Entry H M = record { client = client; meta = meta; handle = handle } in
      record {
        inv = subscribe-Inv id s v.inv client meta handle (v.entries_are id ∙ fresh);
        entries_are = λ j.
            lookup-insert ids id j e s.entries
            ∙ ap (λ o. if eq id j then some e else o) (v.entries_are j)
            ∙ sym (lookup-append j id e l fresh);
        owned_are = λ c.
            owned-insert s client c (owned s client ++ id ∷ [])
            ∙ ap (λ o. if client == c then owned s client ++ id ∷ [] else o) (v.owned_are c)
            ∙ begun client c id
            ∙ sym (filter-append (of_client c) l (id, e));
        once =
            rw (map-append (λ row. row.0) l ((id, e) ∷ []))
              (Distinct-concat ids id (names l) v.once (unlisted id l fresh));
      }

  stopped :
      (id : Text) (e : Entry H M) (c : ℕ)
      → lookup ids id s.entries ≡ some e
      → (if e.client == c then filter (λ i. not (eq i id)) (owned s e.client) else owned s c)
        ≡ filter (λ i. not (eq i id)) (owned s c)
  stopped id e c h = elim (Bool-cases (e.client == c)) [
    | inl k ↦ rw k (ap (λ d. filter (λ i. not (eq i id)) (owned s d)) ((==_iff e.client c).0 k))
    | inr k ↦
        let other : contains ids id (owned s c) ≡ false = v.inv.agrees c id ∙ rw h k in
        rw k (sym (filter-absent id (owned s c) other))
  ]

  pub unsubscribe-Refines :
      (id : Text)
      → Refines (unsubscribe id s).0 (remove ids id l)
        × ((unsubscribe id s).1 ≡ handle_of (lookup ids id l))
  unfolding unsubscribe remove
  unsubscribe-Refines id = elim (Option-cases (lookup ids id s.entries)) [
    | inl e ↦
        let gone : lookup ids id l ≡ none = sym (v.entries_are id) ∙ e in
        (rw (e, unsubscribe, remove-unlisted id l gone) v, rw (e, unsubscribe, gone) refl)
    | inr (entry, e) ↦ (
      rw (e, unsubscribe)
          (record {
            inv = rw (e, unsubscribe) at (unsubscribe-Inv id s v.inv);
            entries_are = λ j.
                lookup-remove ids id j s.entries
                ∙ ap (λ o. if eq id j then none else o) (v.entries_are j)
                ∙ sym (lookup-remove ids id j l);
            owned_are = λ c.
                owned-forgetting id s entry.client c
                ∙ stopped id entry c e
                ∙ ap (filter (λ i. not (eq i id))) (v.owned_are c)
                ∙ sym (names-filter_out id (of_client c) l);
            once = rw (names-remove id l) (Distinct-filter_out ids id (names l) v.once);
          }),
      rw (← v.entries_are id) (rw (e, unsubscribe) refl),
    )
  ]

  pub remove_client-Refines :
      (client : ℕ)
      → Refines (remove_client client s).0 (leave_rows client l)
        × ((remove_client client s).1 ≡ map (λ row. row.1.handle) (filter (of_client client) l))
  remove_client-Refines client =
      let r = remove_client-Removed client s v.inv in
      (
        record {
          inv = (remove_client_lem client s v.inv).2;
          entries_are = λ j.
              r.entries_are j
              ∙ ap (λ o. if owns client o then none else o) (v.entries_are j)
              ∙ sym (lookup-leave_rows client j l v.once);
          owned_are = λ c.
              r.owned_are c
              ∙ ap (λ o. if client == c then [] else o) (v.owned_are c)
              ∙ sym (of_client-leave_rows client c l);
          once = Distinct-leave_rows client l v.once;
        },
        r.handles_are
            ∙ ap (λ o. handles o s.entries) (v.owned_are client)
            ∙ handles-rows client s.entries l
                (All-map _ _ l (λ row h. v.entries_are row.0 ∙ h) (rows_listed l v.once)),
      )

pub data Op (H M : Type 0) : Type 0 where
  subscribing : Text → ℕ → M → H → Op H M
  unsubscribing : Text → Op H M
  leaving : ℕ → Op H M

abbrev pub as_list : {A : Type 0} → Option A → List A
as_list none = []
as_list (some a) = a ∷ []

module _ {H M : Type 0} where
  -- The calls, one after another: the state that they leave, and the handles that they hand back.
  abbrev pub run : List (Op H M) → Subscriptions H M → Subscriptions H M × List H
  run [] s = (s, [])
  run (subscribing id client meta handle ∷ ops) s = run ops (subscribe id client meta handle s)
  run (unsubscribing id ∷ ops) s =
      let r = run ops (unsubscribe id s).0 in (r.0, as_list (unsubscribe id s).1 ++ r.1)
  run (leaving client ∷ ops) s =
      let r = run ops (remove_client client s).0 in (r.0, (remove_client client s).1 ++ r.1)

  -- The same calls on the table.
  abbrev pub replay : List (Op H M) → Table H M → Table H M × List H
  replay [] l = (l, [])
  replay (subscribing id client meta handle ∷ ops) l =
      replay ops (begin_row id client meta handle l)
  replay (unsubscribing id ∷ ops) l =
      let r = replay ops (remove ids id l) in (r.0, as_list (handle_of (lookup ids id l)) ++ r.1)
  replay (leaving client ∷ ops) l =
      let r = replay ops (leave_rows client l) in
      (r.0, map (λ row. row.1.handle) (filter (of_client client) l) ++ r.1)

  -- Every subscription begins under an id that is not in use.
  abbrev pub Fresh : List (Op H M) → Table H M → Type 0
  Fresh [] l = Unit
  Fresh (subscribing id client meta handle ∷ ops) l =
      (lookup ids id l ≡ none) × Fresh ops (begin_row id client meta handle l)
  Fresh (unsubscribing id ∷ ops) l = Fresh ops (remove ids id l)
  Fresh (leaving client ∷ ops) l = Fresh ops (leave_rows client l)

  run-Refines :
      (ops : List (Op H M)) (s : Subscriptions H M) (l : Table H M)
      → Refines s l
      → Fresh ops l
      → Refines (run ops s).0 (replay ops l).0 × ((run ops s).1 ≡ (replay ops l).1)
  run-Refines [] s l v f = (v, refl)
  run-Refines (subscribing id client meta handle ∷ ops) s l v f =
      run-Refines ops (subscribe id client meta handle s) (begin_row id client meta handle l)
        (subscribe-Refines s l v id client meta handle f.0) f.1
  run-Refines (unsubscribing id ∷ ops) s l v f =
      let (w, same) = unsubscribe-Refines s l v id in
      let (r, out) = run-Refines ops (unsubscribe id s).0 (remove ids id l) w f in
      (r, ap₂ ◌++◌ (ap as_list same) out)
  run-Refines (leaving client ∷ ops) s l v f =
      let (w, same) = remove_client-Refines s l v client in
      let (r, out) = run-Refines ops (remove_client client s).0 (leave_rows client l) w f in
      (r, ap₂ ◌++◌ same out)

  new-Refines : (prefix : Text) → Refines {H = H} {M = M} (new prefix) []
  unfolding new lookup
  new-Refines prefix = record {
    inv = new-Inv prefix;
    entries_are = λ id. refl;
    owned_are = λ c. refl;
    once = tt;
  }

  -- The two maps refine one table of subscriptions in the order in which they began: any calls,
  -- in which every subscription begins under an id that is not in use, leave maps that read as
  -- the table does after the same calls, and hand back the same handles in the same order.
  pub run-new-Refines :
      (prefix : Text) (ops : List (Op H M))
      → Fresh ops []
      → Refines (run ops (new prefix)).0 (replay ops []).0
        × ((run ops (new prefix)).1 ≡ (replay ops []).1)
  run-new-Refines prefix ops f = run-Refines ops (new prefix) [] (new-Refines prefix) f
