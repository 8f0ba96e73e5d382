-- ===== src/Server/Subscriptions.antt =====
-- crates/tradar-server/src/subscriptions.rs: which client owns which running subscription. The two
-- maps of the source are association lists, read by `lookup` alone; a missing entry of `by_client`
-- is an empty list of ids.
pub mod Ownership
pub mod Steps
pub mod Fresh
pub mod Refines
use tradar.Base.{
  ℕ, suc, ◌+◌, Bool, true, false, not, ◌||◌, List, [], ◌∷◌, ◌++◌, Option, none, some, ==_iff, ◌==◌,
  if◌then◌else◌, filter, Text, text, eq, eq_iff, decimal,
}
use tradar.Base.Map.{Key, lookup, insert, remove}

abbrev pub ids : Key Text
ids = record { same = eq; same_iff = eq_iff }

abbrev pub clients : Key ℕ
clients = record { same = ◌==◌; same_iff = ==_iff }

pub record Entry (H M : Type 0) : Type 0 where
  pub client : ℕ
  pub meta : M
  pub handle : H

pub record Subscriptions (H M : Type 0) : Type 0 where
  pub prefix : Text
  pub next : ℕ
  pub entries : List (Text × Entry H M)
  pub by_client : List (ℕ × List Text)

abbrev pub or_empty : Option (List Text) → List Text
or_empty none = []
or_empty (some l) = l

-- `get_mut(&client)` and `retain`
abbrev pub forgetting : Text → ℕ → Option (List Text) → List (ℕ × List Text) → List (ℕ × List Text)
forgetting id client none m = m
forgetting id client (some l) m = insert clients client (filter (λ s. not (eq s id)) l) m

module _ {H M : Type 0} where
  unfoldable pub new : Text → Subscriptions H M
  new prefix = record { prefix = prefix; next = 0; entries = []; by_client = [] }

  -- `next_id`: the new state, and the id.
  unfoldable pub next_id : Subscriptions H M → Subscriptions H M × Text
  next_id s = let n = s.next + 1 in (record s { next = n }, s.prefix ++ (text "-" ++ decimal n))

  -- `by_client.entry(client).or_default().push(id)`, then `entries.insert`
  unfoldable pub subscribe : Text → ℕ → M → H → Subscriptions H M → Subscriptions H M
  subscribe id client meta handle s = record s {
    by_client =
        insert clients client (or_empty (lookup clients client s.by_client) ++ id ∷ []) s.by_client;
    entries = insert ids id (record { client = client; meta = meta; handle = handle }) s.entries;
  }

  abbrev pub handle_of : Option (Entry H M) → Option H
  handle_of none = none
  handle_of (some e) = some e.handle

  unfoldable pub get : Text → Subscriptions H M → Option H
  get id s = handle_of (lookup ids id s.entries)

  abbrev any_value : (M → Bool) → List (Text × Entry H M) → Bool
  any_value f [] = false
  any_value f ((_, e) ∷ m) = f e.meta || any_value f m

  unfoldable pub any_meta : (M → Bool) → Subscriptions H M → Bool
  any_meta f s = any_value f s.entries

  unfoldable pub unsubscribe : Text → Subscriptions H M → Subscriptions H M × Option H
  unsubscribe id s = elim (lookup ids id s.entries) [
    | none ↦ (s, none)
    | some e ↦ (
      record s {
        entries = remove ids id s.entries;
        by_client = forgetting id e.client (lookup clients e.client s.by_client) s.by_client;
      },
      some e.handle,
    )
  ]

  abbrev pub keep_handle : Option (Entry H M) → List H → List H
  keep_handle none hs = hs
  keep_handle (some e) hs = e.handle ∷ hs

  -- `ids.iter().filter_map(|id| self.entries.remove(id)).map(|e| e.handle)`
  unfoldable pub remove_all : List Text → List (Text × Entry H M) → List (Text × Entry H M) × List H
  remove_all [] m = (m, [])
  remove_all (id ∷ rest) m =
      let (m', hs) = remove_all rest (remove ids id m) in (m', keep_handle (lookup ids id m) hs)

  unfoldable pub remove_client : ℕ → Subscriptions H M → Subscriptions H M × List H
  unfolding remove_all
  remove_client client s = elim (lookup clients client s.by_client) [
    | none ↦ (s, [])
    | some l ↦
        let (m, hs) = remove_all l s.entries in
        (record s { by_client = remove clients client s.by_client; entries = m }, hs)
  ]
