-- ===== src/Server/Cursors/Opened.antt =====
-- `open_cursor` and `close_cursor`, whole (crates/tradar-server/src/server/query.rs).
use tradar.Base.{
  ℕ, ◌+◌, ◌≤◌, true, false, [], ◌∷◌, ◌++◌, none, ◌≡◌, inl, inr, arith, ◌==◌, ==_iff, if◌then◌else◌,
  Bool-cases,
}
use tradar.Base.Map.{
  insert, lookup-insert, lookup-remove, contains, contains-append, contains-filter_out,
  Distinct-filter_out, Distinct-concat,
}
use tradar.Server.Subscriptions.{clients}
use tradar.Server.Cursors.{Cursors, open_cursor, fetch, close_cursor}
use tradar.Server.Cursors.Keys.{keys-insert, keys-remove}
use tradar.Server.Cursors.Bounded.{Agree, evict-Agree, evict-listed}

module _ {R : Type 0} (approx_bytes : R → ℕ) where
  pub record Inv (s : Cursors R) : Type 0 where
    pub agree : Agree approx_bytes s.cursor_order s.cursors s.cursor_bytes
    pub issued : (c : ℕ) → contains clients c s.cursor_order ≡ true → c ≤ s.next_cursor

  contains-alone : (c n : ℕ) → contains clients c (n ∷ []) ≡ (n == c)
  unfolding contains
  contains-alone c n = ground arith

  module _ (stored : R) (s : Cursors R) (v : Inv s) where
    fresh : contains clients (s.next_cursor + 1) s.cursor_order ≡ false
    fresh = elim (Bool-cases (contains clients (s.next_cursor + 1) s.cursor_order)) [
      | inl h ↦ absurd (omega (arith, v.issued (s.next_cursor + 1) h))
      | inr h ↦ h
    ]

    -- The new cursor is the last of the order, before any goes.
    added :
        Agree approx_bytes
          (s.cursor_order ++ (s.next_cursor + 1) ∷ [])
          (insert clients (s.next_cursor + 1) stored s.cursors)
          (insert clients (s.next_cursor + 1) (approx_bytes stored) s.cursor_bytes)
    added =
        let n = s.next_cursor + 1 in
        record {
          once = Distinct-concat clients n s.cursor_order v.agree.once fresh;
          listed = λ c. rw (lookup-insert clients n c stored s.cursors) (
              ground (
                arith,
                contains-append clients c s.cursor_order (n ∷ []),
                contains-alone c n,
                v.agree.listed c,
              ));
          sized = λ c. rw (lookup-insert clients n c stored s.cursors) (
              rw (lookup-insert clients n c (approx_bytes stored) s.cursor_bytes)
                (ground (arith, v.agree.sized c)));
          keyed = keys-insert n (approx_bytes stored) s.cursor_bytes v.agree.keyed;
        }

    added_issued :
        (c : ℕ)
        → contains clients c (s.cursor_order ++ (s.next_cursor + 1) ∷ []) ≡ true
        → c ≤ s.next_cursor + 1
    added_issued c h = ground (
      arith,
      contains-append clients c s.cursor_order ((s.next_cursor + 1) ∷ []),
      contains-alone c (s.next_cursor + 1),
      v.issued c,
      ==_iff (s.next_cursor + 1) c,
      h,
    )

    -- The three maps of the cursors stay in agreement when a result is kept.
    pub open_cursor-Inv : Inv (open_cursor approx_bytes stored s).0
    unfolding open_cursor
    open_cursor-Inv = record {
      agree = evict-Agree approx_bytes _ _ _ _ added;
      issued = λ c h. added_issued c (evict-listed _ c _ _ _ h);
    }

  module _ (cursor : ℕ) (s : Cursors R) (v : Inv s) where
    -- A cursor that is closed can no longer be fetched, the others can as before, and the maps stay
    -- in agreement.
    pub close_cursor_lem :
        let t = close_cursor cursor s in
        ((c : ℕ) → fetch c t ≡ (if cursor == c then none else fetch c s)) × Inv t
    unfolding close_cursor fetch
    close_cursor_lem = (
      λ c. lookup-remove clients cursor c s.cursors,
      record {
        agree = record {
          once = Distinct-filter_out clients cursor s.cursor_order v.agree.once;
          listed = λ c. rw (lookup-remove clients cursor c s.cursors) (
              ground
                (arith, contains-filter_out clients c cursor s.cursor_order, v.agree.listed c));
          sized = λ c. rw (lookup-remove clients cursor c s.cursors) (
              rw (lookup-remove clients cursor c s.cursor_bytes) (ground (arith, v.agree.sized c)));
          keyed = keys-remove cursor s.cursor_bytes v.agree.keyed;
        };
        issued = λ c h.
            v.issued c (ground (arith, contains-filter_out clients c cursor s.cursor_order, h));
      },
    )
