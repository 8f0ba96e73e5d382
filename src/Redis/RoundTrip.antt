-- ===== src/Redis/RoundTrip.antt =====
-- `split_command` reads back the arguments that `quote_arg` writes.
use tradar.Base.{
  ℕ, zero, suc, ◌*◌, ◌≤◌, ◌<◌, true, false, ◌||◌, List, [], ◌∷◌, ◌++◌, map, ◌≡◌, ◌≢◌, refl, sym, ap,
  ◌∙◌, inl, inr, arith, ◌==◌, Bool-cases, append_assoc, append-nil, length, length-append, drop,
  drop-length-append, any, Text, text, is_whitespace, join,
}
use tradar.Redis.{
  ok, ◌>>=◌, quoted_token, bare_token, next_token, closed_well, prepend, split_loop, split_command,
  escaped, escaped_all, needs_quotes, quote_arg,
}

-- A written character is read back in one round, which takes what was written.
quoted_token-escaped :
    (fuel c : ℕ) (rest token left : Text)
    → quoted_token fuel b'"' rest ≡ ok (token, left)
    → rest ≢ []
    → quoted_token (suc fuel) b'"' (escaped c ++ rest) ≡ ok (c ∷ token, left)
unfolding quoted_token escaped
quoted_token-escaped fuel c [] token left h ne = absurd (ne refl)
quoted_token-escaped fuel c (d ∷ rest) token left h ne = ground arith

-- What may stand behind a token: nothing, or white space.
abbrev pub IsStop : Text → Type 0
IsStop [] = Unit
IsStop (c ∷ cs) = is_whitespace c ≡ true

append_cons-ne-nil : (s t : Text) (c : ℕ) → s ++ c ∷ t ≢ []
append_cons-ne-nil [] t c = λ e. cc
append_cons-ne-nil (x ∷ s) t c = λ e. cc

quoted_token-close :
    (fuel : ℕ) (rest : Text) → quoted_token (suc fuel) b'"' (b'"' ∷ rest) ≡ ok ([], rest)
unfolding quoted_token
quoted_token-close fuel [] = refl
quoted_token-close fuel (c ∷ rest) = refl

next_token-quote :
    (c : ℕ) (cs : Text)
    → (c == b'"' || c == b'\'') ≡ true
    → next_token c cs ≡ (quoted_token (suc (length cs)) c cs >>= closed_well)
unfolding next_token
next_token-quote c cs h = rw h

next_token-bare :
    (c : ℕ) (cs : Text)
    → (c == b'"' || c == b'\'') ≡ false
    → next_token c cs
      ≡ (let token = bare_token (c ∷ cs) in ok (token, drop (length token) (c ∷ cs)))
unfolding next_token
next_token-bare c cs h = rw h

quoted_token-escaped_all :
    (s rest : Text) (fuel : ℕ)
    → length s < fuel
    → quoted_token fuel b'"' (escaped_all s ++ b'"' ∷ rest) ≡ ok (s, rest)
unfolding escaped_all
quoted_token-escaped_all s rest zero h = absurd (omega arith)
quoted_token-escaped_all [] rest (suc fuel) h = quoted_token-close fuel rest
quoted_token-escaped_all (c ∷ s) rest (suc fuel) h =
    rw (append_assoc (escaped c) (escaped_all s) (b'"' ∷ rest)) (
      quoted_token-escaped fuel c _ s rest (quoted_token-escaped_all s rest fuel (omega arith))
        (append_cons-ne-nil (escaped_all s) rest b'"'))

length-escaped_all : (s : Text) → length s ≤ length (escaped_all s)
unfolding escaped_all escaped
length-escaped_all [] = omega arith
length-escaped_all (c ∷ s) =
    omega (arith, length-escaped_all s, length-append (escaped c) (escaped_all s), one c)
  where
    one : (c : ℕ) → 0 < length (escaped c)
    one c = ground arith

bare_token-append :
    (s rest : Text) → any needs_quotes s ≡ false → IsStop rest → bare_token (s ++ rest) ≡ s
unfolding bare_token
bare_token-append [] [] h e = refl
bare_token-append [] (c ∷ rest) h e = rw e
bare_token-append (c ∷ s) rest h e = ground (arith, bare_token-append s rest)

-- One token of a command line: nothing of it is white space in front, and it is read as `arg`.
record IsToken (arg token : Text) : Type 0 where
  first : ℕ
  others : Text
  is : token ≡ first ∷ others
  not_blank : is_whitespace first ≡ false
  reads : (rest : Text) → IsStop rest → next_token first (others ++ rest) ≡ ok (arg, rest)

closed-IsStop : (token rest : Text) → IsStop rest → closed_well (token, rest) ≡ ok (token, rest)
closed-IsStop token [] h = refl
closed-IsStop token (c ∷ rest) h = rw h

next_token_quoted :
    (arg rest : Text)
    → IsStop rest
    → next_token b'"' ((escaped_all arg ++ b'"' ∷ []) ++ rest) ≡ ok (arg, rest)
next_token_quoted arg rest e =
    let body = escaped_all arg ++ b'"' ∷ rest in
    let read =
      quoted_token-escaped_all arg rest (suc (length body))
        (omega (arith, length-escaped_all arg, length-append (escaped_all arg) (b'"' ∷ rest))) in
    rw (append_assoc (escaped_all arg) (b'"' ∷ []) rest) (
      next_token-quote b'"' body refl ∙ ap (λ r. r >>= closed_well) read ∙ closed-IsStop arg rest e)

next_token_bare :
    (c : ℕ) (cs rest : Text)
    → any needs_quotes (c ∷ cs) ≡ false
    → IsStop rest
    → next_token c (cs ++ rest) ≡ ok (c ∷ cs, rest)
next_token_bare c cs rest h e =
    let token = bare_token-append (c ∷ cs) rest h e in
    next_token-bare c (cs ++ rest) (ground arith)
    ∙ ap (λ t. ok (t, drop (length t) (c ∷ (cs ++ rest)))) token
    ∙ ap (λ t. ok (c ∷ cs, t)) (drop-length-append (c ∷ cs) rest)

quoted-IsToken : (arg : Text) → IsToken arg (b'"' ∷ (escaped_all arg ++ b'"' ∷ []))
quoted-IsToken arg = record {
  first = b'"';
  others = escaped_all arg ++ b'"' ∷ [];
  is = refl;
  not_blank = unfold is_whitespace in refl;
  reads = λ rest e. next_token_quoted arg rest e;
}

bare-IsToken : (c : ℕ) (cs : Text) → any needs_quotes (c ∷ cs) ≡ false → IsToken (c ∷ cs) (c ∷ cs)
bare-IsToken c cs h = record {
  first = c;
  others = cs;
  is = refl;
  not_blank = ground arith;
  reads = λ rest e. next_token_bare c cs rest h e;
}

quote_arg-IsToken : (arg : Text) → IsToken arg (quote_arg arg)
unfolding quote_arg
quote_arg-IsToken [] = quoted-IsToken []
quote_arg-IsToken (c ∷ cs) = elim (Bool-cases (any needs_quotes (c ∷ cs))) [
  | inl e ↦ rw e (quoted-IsToken (c ∷ cs))
  | inr e ↦ rw e (bare-IsToken c cs e)
]

split_loop-nil : (fuel : ℕ) → split_loop fuel [] ≡ ok []
unfolding split_loop
split_loop-nil zero = refl
split_loop-nil (suc fuel) = refl

split_loop-token :
    (fuel c : ℕ) (cs arg rest : Text)
    → is_whitespace c ≡ false
    → next_token c cs ≡ ok (arg, rest)
    → split_loop (suc fuel) (c ∷ cs) ≡ prepend arg (split_loop fuel rest)
unfolding split_loop
split_loop-token fuel c cs arg rest w h =
    rw w (ap (λ r. r >>= λ t. prepend t.0 (split_loop fuel t.1)) h)

split_loop-blank : (fuel : ℕ) (cs : Text) → split_loop (suc fuel) (b' ' ∷ cs) ≡ split_loop fuel cs
unfolding split_loop is_whitespace
split_loop-blank fuel cs = refl

split_loop-quote_arg :
    (fuel : ℕ) (arg rest : Text)
    → IsStop rest
    → split_loop (suc fuel) (quote_arg arg ++ rest) ≡ prepend arg (split_loop fuel rest)
split_loop-quote_arg fuel arg rest e =
    let t = quote_arg-IsToken arg in
    rw t.is (split_loop-token fuel t.first (t.others ++ rest) arg rest t.not_blank (t.reads rest e))

split_loop-join :
    (args : List Text) (fuel : ℕ)
    → 2 * length args ≤ fuel
    → split_loop fuel (join (text " ") (map quote_arg args)) ≡ ok args
unfolding join
split_loop-join [] fuel h = split_loop-nil fuel
split_loop-join (a ∷ []) fuel h =
    ap (split_loop fuel) (sym (append-nil (quote_arg a))) ∙ last fuel h
  where
    last : (fuel : ℕ) → 2 * 1 ≤ fuel → split_loop fuel (quote_arg a ++ []) ≡ ok (a ∷ [])
    last zero k = absurd (omega arith)
    last (suc zero) k = absurd (omega arith)
    last (suc (suc fuel)) k =
        split_loop-quote_arg (suc fuel) a [] tt ∙ ap (prepend a) (split_loop-nil (suc fuel))
split_loop-join (a ∷ b ∷ args) zero h = absurd (omega arith)
split_loop-join (a ∷ b ∷ args) (suc zero) h = absurd (omega arith)
split_loop-join (a ∷ b ∷ args) (suc (suc fuel)) h =
    split_loop-quote_arg (suc fuel) a (b' ' ∷ join (text " ") (map quote_arg (b ∷ args)))
      (unfold is_whitespace in refl)
    ∙ ap (prepend a) (split_loop-blank fuel _ ∙ split_loop-join (b ∷ args) fuel (omega arith))

quote_arg-pos : (arg : Text) → 0 < length (quote_arg arg)
quote_arg-pos arg = let t = quote_arg-IsToken arg in omega (arith, ap length t.is)

length-join :
    (args : List Text) → 2 * length args ≤ suc (length (join (text " ") (map quote_arg args)))
unfolding join
length-join [] = omega arith
length-join (a ∷ []) = omega (arith, quote_arg-pos a)
length-join (a ∷ b ∷ args) = omega (
  arith,
  quote_arg-pos a,
  length-join (b ∷ args),
  length-append (quote_arg a) (text " " ++ join (text " ") (map quote_arg (b ∷ args))),
)

-- The arguments of a command that is written with `quote_arg` and spaces are read back, whatever
-- characters they hold.
pub split_command-quote_arg :
    (args : List Text) → split_command (join (text " ") (map quote_arg args)) ≡ ok args
unfolding split_command
split_command-quote_arg args = split_loop-join args _ (length-join args)
