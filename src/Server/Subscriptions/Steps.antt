-- ===== src/Server/Subscriptions/Steps.antt =====
-- The calls of the extensions, one lock at a time, and what holds between them
-- (crates/tradar-server/src/kafka.rs, `tail.start`, `tail.stop`, `client_disconnected`).
use tradar.Base.{
  ℕ, ◌+◌, ◌≤◌, true, false, not, ◌||◌, List, [], ◌∷◌, ◌++◌, none, some, ◌≡◌, ◌⊎◌, refl, sym, ap,
  ◌∙◌, arith, filter, Text, text, eq, eq_iff, decimal, length, drop, drop-length-append,
}
use tradar.Base.Decimal.{decimal-injective}
use tradar.Base.Map.{lookup, contains, Distinct, contains-append, contains-filter_out}
use tradar.Server.Subscriptions.{
  ids, Entry, Subscriptions, next_id, subscribe, unsubscribe, remove_client,
}
use tradar.Server.Subscriptions.Ownership.{Inv}

-- The subscriptions, and the ids that are reserved and not yet inserted.
pub record Host (H M : Type 0) : Type 0 where
  pub subs : Subscriptions H M
  pub pending : List Text

abbrev pub without : Text → List Text → List Text
without id = filter (λ x. not (eq x id))

-- `id` has been given out.
abbrev pub Issued : Text → ℕ → Text → Type 0
Issued prefix last id = (k : ℕ) × (k ≤ last) × (id ≡ prefix ++ (text "-" ++ decimal k))

pub not-Issued :
    (prefix : Text) (last : ℕ) → Issued prefix last (prefix ++ (text "-" ++ decimal (last + 1))) → ⊥
not-Issued prefix last (k, le, e) =
    let tail : text "-" ++ decimal (last + 1) ≡ text "-" ++ decimal k =
      sym (drop-length-append prefix _)
      ∙ ap (drop (length prefix)) e
      ∙ drop-length-append prefix _ in
    let same = decimal-injective (last + 1) k (ap (drop 1) tail) in omega arith

pub Issued-later :
    (prefix : Text) (last : ℕ) (id : Text) → Issued prefix last id → Issued prefix (last + 1) id
Issued-later prefix last id (k, le, e) = (k, omega arith, e)

-- What clients make the server do, one lock at a time.
pub data Step {H M : Type 0} : Host H M → Host H M → Type 0 where
  reserve :
      (h : Host H M)
      → Step h
          (record { subs = (next_id h.subs).0; pending = h.pending ++ (next_id h.subs).1 ∷ [] })
  start :
      (h : Host H M) (id : Text) (client : ℕ) (meta : M) (handle : H)
      → contains ids id h.pending ≡ true
      → Step h
          (record { subs = subscribe id client meta handle h.subs; pending = without id h.pending })
  abandon : (h : Host H M) (id : Text) → Step h (record h { pending = without id h.pending })
  stop : (h : Host H M) (id : Text) → Step h (record h { subs = (unsubscribe id h.subs).0 })
  leave : (h : Host H M) (client : ℕ) → Step h (record h { subs = (remove_client client h.subs).0 })

pub data Reach {H M : Type 0} (h : Host H M) : Host H M → Type 0 where
  here : Reach h h
  more : {t u : Host H M} → Reach h t → Step t u → Reach h u

pub record IsSound {H M : Type 0} (h : Host H M) : Type 0 where
  pub inv : Inv h.subs
  pub entries_issued :
      (id : Text) (e : Entry H M)
      → lookup ids id h.subs.entries ≡ some e
      → Issued h.subs.prefix h.subs.next id
  pub pending_issued :
      (id : Text) → contains ids id h.pending ≡ true → Issued h.subs.prefix h.subs.next id
  pub unused : (id : Text) → contains ids id h.pending ≡ true → lookup ids id h.subs.entries ≡ none
  pub distinct : Distinct ids h.pending

-- Subscriptions that are all in `t`, with the same ids given out.
pub record Below {H M : Type 0} (s t : Subscriptions H M) : Type 0 where
  pub prefix_kept : s.prefix ≡ t.prefix
  pub next_kept : s.next ≡ t.next
  pub entries_kept :
      (id : Text)
      → (lookup ids id s.entries ≡ none) ⊎ (lookup ids id s.entries ≡ lookup ids id t.entries)

pub in_concat :
    (j id : Text) (l : List Text)
    → contains ids j (l ++ id ∷ []) ≡ true
    → (contains ids j l ≡ true) ⊎ (id ≡ j)
in_concat j id l p =
    let alone : contains ids j (id ∷ []) ≡ (eq id j || false) = unfold contains in refl in
    ground (arith, contains-append ids j l (id ∷ []), eq_iff id j, alone, p)

pub without-contains :
    (j id : Text) (l : List Text)
    → contains ids j (without id l) ≡ true
    → (contains ids j l ≡ true) × (eq id j ≡ false)
without-contains j id l p = ground (arith, contains-filter_out ids j id l, p)
