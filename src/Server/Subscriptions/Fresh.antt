-- ===== src/Server/Subscriptions/Fresh.antt =====
-- The extensions reserve an id under the lock, start the subscription without it, and insert it under
-- the lock again (crates/tradar-server/src/kafka.rs, `tail.start`, and its kin). Whatever other
-- clients do in between, the id is in use by nobody else.
use tradar.Base.{
  subst, ℕ, ◌+◌, Bool, true, false, [], ◌∷◌, ◌++◌, Option, none, ◌≡◌, ◌⊎◌, refl, sym, ap, ◌∙◌, inl,
  inr, arith, if◌then◌else◌, Bool-cases, Option-cases, Text, eq, eq_iff,
}
use tradar.Base.Map.{
  lookup, lookup-insert, lookup-remove, contains, Distinct-filter_out, Distinct-concat,
}
use tradar.Server.Subscriptions.{
  ids, clients, Entry, Subscriptions, new, next_id, subscribe, unsubscribe, remove_client,
}
use tradar.Server.Subscriptions.Ownership.{
  Inv, new-Inv, subscribe-Inv, unsubscribe-Inv, remove_client_lem,
}
use tradar.Server.Subscriptions.Steps.{
  Host, without, Issued, Step, reserve, start, abandon, stop, leave, Reach, here, more, IsSound,
  Below, not-Issued, Issued-later, in_concat, without-contains,
}

module _ {H M : Type 0} where
  none_or :
      (b : Bool) (o p : Option (Entry H M)) → (p ≡ (if b then none else o)) → (p ≡ none) ⊎ (p ≡ o)
  none_or b o p e = ground (arith, e)

  -- Subscriptions that end leave the rest sound.
  fewer :
      (h : Host H M) (s : Subscriptions H M)
      → Inv s
      → Below s h.subs
      → IsSound h
      → IsSound (record h { subs = s })
  fewer h s i below v = record {
    inv = i;
    entries_issued = λ id e l.
        rw (below.prefix_kept, below.next_kept)
          (elim (below.entries_kept id) [
            | inl n ↦ v.entries_issued id e (ground (arith, n, l))
            | inr same ↦ v.entries_issued id e (sym same ∙ l)
          ]);
    pending_issued = λ id p. rw (below.prefix_kept, below.next_kept) (v.pending_issued id p);
    unused = λ id p. elim (below.entries_kept id) [ inl n ↦ n | inr same ↦ same ∙ v.unused id p ];
    distinct = v.distinct;
  }

  unsubscribe-Below : (id : Text) (s : Subscriptions H M) → Below (unsubscribe id s).0 s
  unfolding unsubscribe
  unsubscribe-Below id s = elim (Option-cases (lookup ids id s.entries)) [
    | inl e ↦
        rw (e, unsubscribe)
          (record { prefix_kept = refl; next_kept = refl; entries_kept = λ j. inr refl })
    | inr (entry, e) ↦
        rw (e, unsubscribe)
          (record {
            prefix_kept = refl;
            next_kept = refl;
            entries_kept = λ j. none_or _ _ _ (lookup-remove ids id j s.entries);
          })
  ]

  remove_client-counter :
      (client : ℕ) (s : Subscriptions H M)
      → ((remove_client client s).0.prefix ≡ s.prefix) × ((remove_client client s).0.next ≡ s.next)
  unfolding remove_client
  remove_client-counter client s = elim (Option-cases (lookup clients client s.by_client)) [
    | inl e ↦ rw (e, remove_client) (refl, refl)
    | inr (l, e) ↦ rw (e, remove_client) (refl, refl)
  ]

  remove_client-Below :
      (client : ℕ) (s : Subscriptions H M) → Inv s → Below (remove_client client s).0 s
  remove_client-Below client s v = record {
    prefix_kept = (remove_client-counter client s).0;
    next_kept = (remove_client-counter client s).1;
    entries_kept = λ j. none_or _ _ _ ((remove_client_lem client s v).0 j);
  }

  -- An id that is given out is neither in use nor reserved.
  reserved :
      (h : Host H M)
      → IsSound h
      → let id = (next_id h.subs).1 in
        (lookup ids id h.subs.entries ≡ none) × (contains ids id h.pending ≡ false)
  unfolding next_id
  reserved h v =
      let id = (next_id h.subs).1 in
      (
        elim (Option-cases (lookup ids id h.subs.entries)) [
          | inl e ↦ e
          | inr (x, e) ↦ absurd (not-Issued _ _ (v.entries_issued id x e))
        ],
        elim (Bool-cases (contains ids id h.pending)) [
          | inl e ↦ absurd (not-Issued _ _ (v.pending_issued id e))
          | inr e ↦ e
        ],
      )

  reserve-IsSound :
      (h : Host H M)
      → IsSound h
      → IsSound
          (record { subs = (next_id h.subs).0; pending = h.pending ++ (next_id h.subs).1 ∷ [] })
  unfolding next_id
  reserve-IsSound h v =
      let id = (next_id h.subs).1 in
      let new_id = reserved h v in
      record {
        inv = record { agrees = v.inv.agrees; distinct = v.inv.distinct };
        entries_issued = λ j e l. Issued-later _ _ _ (v.entries_issued j e l);
        pending_issued = λ j p. elim (in_concat j id h.pending p) [
          | inl old ↦ Issued-later _ _ _ (v.pending_issued j old)
          | inr e ↦ (h.subs.next + 1, omega arith, sym e)
        ];
        unused = λ j p. elim (in_concat j id h.pending p) [
          | inl old ↦ v.unused j old
          | inr e ↦ ap (λ i. lookup ids i h.subs.entries) (sym e) ∙ new_id.0
        ];
        distinct = Distinct-concat ids id h.pending v.distinct new_id.1;
      }

  start-IsSound :
      (h : Host H M) (id : Text) (client : ℕ) (meta : M) (handle : H)
      → contains ids id h.pending ≡ true
      → IsSound h
      → IsSound
          (record { subs = subscribe id client meta handle h.subs; pending = without id h.pending })
  unfolding subscribe
  start-IsSound h id client meta handle p v =
      let kept = λ (j : Text).
        lookup-insert ids id j (record { client = client; meta = meta; handle = handle })
          h.subs.entries in
      record {
        inv = unfold subscribe in subscribe-Inv id h.subs v.inv client meta handle (v.unused id p);
        entries_issued = λ j e l. elim (Bool-cases (eq id j)) [
          | inl same ↦
              subst (Issued h.subs.prefix h.subs.next) ((eq_iff id j).0 same)
                (v.pending_issued id p)
          | inr other ↦ v.entries_issued j e (ground (arith, kept j, other, l))
        ];
        pending_issued = λ j q. v.pending_issued j (without-contains j id h.pending q).0;
        unused = λ j q.
            let (old, other) = without-contains j id h.pending q in
            ground (arith, kept j, other, v.unused j old);
        distinct = Distinct-filter_out ids id h.pending v.distinct;
      }

  Step-IsSound : {h t : Host H M} → Step h t → IsSound h → IsSound t
  Step-IsSound (reserve h) v = reserve-IsSound h v
  Step-IsSound (start h id client meta handle p) v = start-IsSound h id client meta handle p v
  Step-IsSound (abandon h id) v = record {
    inv = v.inv;
    entries_issued = v.entries_issued;
    pending_issued = λ j q. v.pending_issued j (without-contains j id h.pending q).0;
    unused = λ j q. v.unused j (without-contains j id h.pending q).0;
    distinct = Distinct-filter_out ids id h.pending v.distinct;
  }
  Step-IsSound (stop h id) v =
      fewer h _ (unsubscribe-Inv id h.subs v.inv) (unsubscribe-Below id h.subs) v
  Step-IsSound (leave h client) v =
      fewer h _ ((remove_client_lem client h.subs v.inv).2)
        (remove_client-Below client h.subs v.inv) v

  -- However the clients' calls interleave, the maps stay in step, and a reserved id is an id that
  -- was given out, is in use by no subscription and is reserved once.
  pub Reach-IsSound : {h t : Host H M} → Reach h t → IsSound h → IsSound t
  Reach-IsSound here v = v
  Reach-IsSound (more r s) v = Step-IsSound s (Reach-IsSound r v)

  pub new-IsSound :
      (prefix : Text) → IsSound {H = H} {M = M} (record { subs = new prefix; pending = [] })
  unfolding new lookup contains
  new-IsSound prefix = record {
    inv = new-Inv prefix;
    entries_issued = λ id e l. ground (arith, l);
    pending_issued = λ id p. ground (arith, p);
    unused = λ id p. refl;
    distinct = tt;
  }

  -- Whatever calls have interleaved since the start, the id that is reserved next belongs to no
  -- running subscription and to no call that is still starting one, and the two maps are in step.
  pub next_id-fresh :
      (prefix : Text) {h : Host H M}
      → Reach (record { subs = new prefix; pending = [] }) h
      → let id = (next_id h.subs).1 in
        (lookup ids id h.subs.entries ≡ none) × (contains ids id h.pending ≡ false) × Inv h.subs
  next_id-fresh prefix {h} r =
      let v = Reach-IsSound r (new-IsSound prefix) in ((reserved h v).0, (reserved h v).1, v.inv)
