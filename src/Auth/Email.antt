-- ===== src/Auth/Email.antt =====
-- internal/auth/pg_repo.go: `emailRegex`: one or more of [a-zA-Z0-9._%+-], an @, one or more of
-- [a-zA-Z0-9.-], a dot, and two or more of [a-zA-Z].
use Prim.Native.Char.{code}
use pomodoro_backend.Base.{ℕ, String, Bool, true, false, ◌&&◌, ◌||◌, leb, ◌==◌, if◌then◌else◌}

is_letter : ℕ → Bool
is_letter c = leb 97 c && leb c 122 || leb 65 c && leb c 90

is_digit : ℕ → Bool
is_digit c = leb 48 c && leb c 57

-- The class [a-zA-Z0-9.-]
in_domain : ℕ → Bool
unfolding is_letter is_digit
in_domain c = is_letter c || is_digit c || c == 46 || c == 45

-- The class [a-zA-Z0-9._%+-]
in_local : ℕ → Bool
unfolding in_domain
in_local c = in_domain c || c == 95 || c == 37 || c == 43

-- [a-zA-Z]*$
letters : String → Bool
unfolding is_letter
letters String.[] = true
letters (String.◌∷◌ c s) = is_letter (code c) && letters s

-- Two or more of [a-zA-Z], to the end.
match_tld : String → Bool
unfolding letters is_letter
match_tld String.[] = false
match_tld (String.◌∷◌ c String.[]) = false
match_tld (String.◌∷◌ c (String.◌∷◌ d s)) = is_letter (code c) && is_letter (code d) && letters s

-- The rest of the pattern behind the @, where some of its class may have been read: a dot ends it
-- where the rest of the text is the last label.
match_domain : (seen : Bool) → String → Bool
unfolding in_domain match_tld
match_domain seen String.[] = false
match_domain seen (String.◌∷◌ c s) =
    let rest = match_domain true s in
    seen && code c == 46 && match_tld s || in_domain (code c) && rest

-- The class before the @ does not hold the @.
match_local : (seen : Bool) → String → Bool
unfolding in_local match_domain
match_local seen String.[] = false
match_local seen (String.◌∷◌ c s) =
    let rest = match_local true s in
    if code c == 64 then seen && match_domain false s else in_local (code c) && rest

-- `emailRegex.MatchString`
unfoldable pub matches_email : String → Bool
unfolding match_local
matches_email s = match_local false s
