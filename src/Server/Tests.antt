-- ===== src/Server/Tests.antt =====
-- Runs of the definitions of crates/tradar-server, and the theorems at inputs that exercise them.
use tradar.Base.{
  ◌↔◌, ◌⊎◌, true, trim, take_while, is_ascii_digit, min, ◌*◌, ◌-◌, false, ◌⊎◌, ◌==◌, arith, ℕ,
  false, [], ◌∷◌, ◌++◌, none, some, ◌≡◌, refl, if◌then◌else◌, Text, text, eq, decimal,
  is_whitespace, to_ascii_lowercase,
}
use tradar.Base.Decimal.{parse_below, u64_bound}
use tradar.Base.Map.{Distinct, lookup, contains, insert, remove}
use tradar.Server.Cursors.{Cursors, open_cursor, close_cursor, fetch}
use tradar.Server.Cursors.Opened.{Inv as Inv_cursors, open_cursor-Inv, close_cursor_lem}
use tradar.Server.Idle.{Driver, State, quiet, busy, reap_idle}
use tradar.Server.Idle.Ttl.{parse_ttl, is_off, suffix, minute, parse_ttl-none, parse_ttl-decimal}
use tradar.Server.Idle.Exact.{names, IsIdle, reap_idle-drivers}
use tradar.Server.Subscriptions.{
  ids, Subscriptions, new, next_id, subscribe, remove_all, remove_client, get,
}
use tradar.Server.Subscriptions.Ownership.{
  Inv, owns, owned, handles, new-Inv, subscribe-Inv, remove_client_lem,
}
use tradar.Server.Subscriptions.Steps.{Host, Reach, here, more, reserve}
use tradar.Server.Subscriptions.Fresh.{next_id-fresh}

-- One subscription, of client 7.
abbrev one : Subscriptions ℕ ℕ
one = subscribe (text "tail-1") 7 0 40 (next_id (new (text "tail"))).0

abbrev two : Subscriptions ℕ ℕ
two = subscribe (text "tail-2") 8 0 41 (next_id one).0

one-Inv : Inv one
unfolding next_id new lookup contains
one-Inv =
    subscribe-Inv (text "tail-1") _
      (record {
        agrees = (new-Inv {H = ℕ} {M = ℕ} (text "tail")).agrees;
        distinct = (new-Inv {H = ℕ} {M = ℕ} (text "tail")).distinct;
      })
      7 0 40 refl

two-Inv : Inv two
unfolding next_id new lookup contains subscribe insert eq
two-Inv =
    subscribe-Inv (text "tail-2") (next_id one).0
      (record { agrees = one-Inv.agrees; distinct = one-Inv.distinct }) 8 0 41 refl

seven_leaves :
    ((remove_client 7 two).1 ≡ 40 ∷ []) × (get (text "tail-2") (remove_client 7 two).0 ≡ some 41)
unfolding remove_client remove_all next_id new subscribe insert remove lookup get eq decimal
seven_leaves = (refl, refl)

remove_client_lem_example :
    let (t, stopped) = remove_client 7 two in
    ((id : Text)
      → lookup ids id t.entries
        ≡ (if owns 7 (lookup ids id two.entries) then none else lookup ids id two.entries))
    × (stopped ≡ handles (owned two 7) two.entries)
    × Inv t
remove_client_lem_example = remove_client_lem 7 two two-Inv

abbrev waiting : Host ℕ ℕ
waiting = record {
  subs = (next_id (new (text "tail"))).0;
  pending = [] ++ (next_id {H = ℕ} {M = ℕ} (new (text "tail"))).1 ∷ [];
}

waiting-Reach : Reach (record { subs = new (text "tail"); pending = [] }) waiting
waiting-Reach = more here (reserve _)

next_id-fresh_example :
    let id = (next_id waiting.subs).1 in
    (lookup ids id waiting.subs.entries ≡ none)
    × (contains ids id waiting.pending ≡ false)
    × Inv waiting.subs
next_id-fresh_example = next_id-fresh (text "tail") waiting-Reach

-- Results by their sizes.
abbrev size : ℕ → ℕ
size n = n

abbrev no_cursors : Cursors ℕ
no_cursors = record { cursors = []; cursor_order = []; cursor_bytes = []; next_cursor = 0 }

no_cursors-Inv : Inv_cursors size no_cursors
unfolding lookup contains
no_cursors-Inv = record {
  agree = record { once = tt; listed = λ c. refl; sized = λ c. refl; keyed = tt };
  issued = λ c h. ground (arith, h);
}

abbrev small_one : Cursors ℕ
small_one = (open_cursor size 100 no_cursors).0

small_one-Inv : Inv_cursors size small_one
small_one-Inv = open_cursor-Inv size 100 no_cursors no_cursors-Inv

-- A result that is too large for others beside it.
oldest_goes : (open_cursor size 300000000 small_one).0.cursor_order ≡ 2 ∷ []
unfolding open_cursor insert lookup remove
oldest_goes = refl

close_cursor_lem_example :
    let t = close_cursor 1 small_one in
    ((c : ℕ) → fetch c t ≡ (if 1 == c then none else fetch c small_one)) × Inv_cursors size t
close_cursor_lem_example = close_cursor_lem size 1 small_one small_one-Inv

-- A quiet connection, one that was used lately, and a quiet one in a transaction.
abbrev quiet_driver : Driver
quiet_driver = record { id = 1; in_transaction = false; strong_count = 1 }

abbrev connections : State Unit
connections = record {
  drivers =
      (text "a", quiet_driver)
      ∷ (text "b", record quiet_driver { id = 2 })
      ∷ (text "c", record quiet_driver { id = 3; in_transaction = true })
      ∷ [];
  completions = [];
  last_used = (text "b", 95) ∷ [];
  running = [];
}

only_a_closed : (reap_idle 10 100 [] connections).1 ≡ text "a" ∷ []
unfolding reap_idle quiet busy lookup eq
only_a_closed = refl

connections-Distinct : Distinct ids (names connections.drivers)
unfolding contains eq
connections-Distinct = (refl, (refl, (refl, tt)))

reap_idle-drivers_example :
    let after = lookup ids (text "c") (reap_idle 10 100 [] connections).0.drivers in
    (lookup ids (text "c") connections.drivers ≡ none → after ≡ none)
    × ((d : Driver)
        → lookup ids (text "c") connections.drivers ≡ some d
        → ((after ≡ none) ↔ IsIdle 10 100 connections (text "c") d)
          × ((after ≡ none) ⊎ (after ≡ some d)))
reap_idle-drivers_example = reap_idle-drivers 10 100 [] connections (text "c") connections-Distinct

ttl_reads :
    (parse_ttl none ≡ some 1800)
    × (parse_ttl (some (text " 2H ")) ≡ some 7200)
    × (parse_ttl (some (text "0m")) ≡ none)
    × (parse_ttl (some (text "Never")) ≡ none)
    × (parse_ttl (some (text "10 min")) ≡ some 1800)
unfolding parse_ttl is_whitespace to_ascii_lowercase
ttl_reads = (refl, refl, refl, refl, refl)

zero_is_none : parse_ttl (some (text "00 s")) ≡ none
unfolding parse_ttl is_whitespace to_ascii_lowercase
zero_is_none = refl

parse_ttl-none_example :
    (is_off (trim (text "00 s")) ≡ true)
    ⊎ (parse_below u64_bound (take_while is_ascii_digit (trim (text "00 s"))) ≡ some 0)
parse_ttl-none_example = parse_ttl-none (text "00 s") zero_is_none

parse_ttl-decimal_example :
    parse_ttl (some (decimal 90 ++ suffix minute))
    ≡ (if 90 == 0 then none else some (min (90 * 60) (u64_bound - 1)))
parse_ttl-decimal_example = parse_ttl-decimal 90 minute (omega arith)
