-- ===== src/Redis/Tests.antt =====
-- Runs of the Redis command line, and its theorems at inputs that exercise them.
use tradar.Redis.RoundTrip.{split_command-quote_arg}
use tradar.Base.{join, map, ◌≡◌, refl, [], ◌∷◌, text, is_whitespace}
use tradar.Redis.{ok, err, unterminated, quote_not_last, split_command, quote_arg}

quoted_greeting :
    split_command (text "SET  k \"hello \\x41\\n\" 'it\\'s'")
    ≡ ok (text "SET" ∷ text "k" ∷ text "hello A\n" ∷ text "it's" ∷ [])
unfolding split_command is_whitespace
quoted_greeting = refl

refused :
    (split_command (text "GET \"k") ≡ err (unterminated b'"'))
    × (split_command (text "GET \"k\"x") ≡ err quote_not_last)
unfolding split_command is_whitespace
refused = (refl, refl)

split_command-quote_arg_example :
    split_command (join (text " ") (map quote_arg (text "a \"b\"\n" ∷ [] ∷ text "\\x" ∷ [])))
    ≡ ok (text "a \"b\"\n" ∷ [] ∷ text "\\x" ∷ [])
split_command-quote_arg_example = split_command-quote_arg (text "a \"b\"\n" ∷ [] ∷ text "\\x" ∷ [])
