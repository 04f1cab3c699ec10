-- ===== src/Clock/Scheduling/RoundTrip.antt =====
-- internal/clock/utils.go: `ParseScheduling` reads what `FormatScheduling` writes.
use Prim.Native.String.{String}
use pomodoro_backend.Base.{append, ◌≡◌, ◌∙◌, ap, refl, true, List, [], ◌∷◌, map, All}
use pomodoro_backend.Clock.State.{
  ClockState, idle, working, short_break, long_break, paused, other, to_string,
}
use pomodoro_backend.Clock.Redis.{is_valid_state}
use pomodoro_backend.Clock.Scheduling.{
  strip, split, schedule, add_state, parse_tokens, parse_scheduling, join, format_scheduling,
}

-- A state that has a name of its own.
abbrev pub IsNamed : ClockState → Type 0
IsNamed c = is_valid_state c ≡ true

split_token :
    (c : ClockState) (rest : String)
    → IsNamed c
    → split (append (to_string c) (append "-" rest)) ≡ to_string c ∷ split rest
unfolding split append to_string
split_token idle rest h = refl
split_token working rest h = refl
split_token short_break rest h = refl
split_token long_break rest h = refl
split_token paused rest h = refl
split_token (other s) rest h = cc

split_last : (c : ClockState) → IsNamed c → split (to_string c) ≡ to_string c ∷ []
unfolding split to_string
split_last idle h = refl
split_last working h = refl
split_last short_break h = refl
split_last long_break h = refl
split_last paused h = refl
split_last (other s) h = cc

split-join :
    (c : ClockState) (l : List ClockState)
    → All IsNamed (c ∷ l)
    → split (join (map to_string (c ∷ l))) ≡ map to_string (c ∷ l)
unfolding join
split-join c [] h = split_last c h.0
split-join c (d ∷ l) h =
    split_token c (join (map to_string (d ∷ l))) h.0
    ∙ ap (λ t. to_string c ∷ t) (split-join d l h.1)

strip_token :
    (c : ClockState) (rest : String)
    → IsNamed c
    → strip (append (to_string c) rest) ≡ append (to_string c) (strip rest)
unfolding strip append to_string
strip_token idle rest h = refl
strip_token working rest h = refl
strip_token short_break rest h = refl
strip_token long_break rest h = refl
strip_token paused rest h = refl
strip_token (other s) rest h = cc

strip_last : (c : ClockState) → IsNamed c → strip (to_string c) ≡ to_string c
unfolding strip to_string
strip_last idle h = refl
strip_last working h = refl
strip_last short_break h = refl
strip_last long_break h = refl
strip_last paused h = refl
strip_last (other s) h = cc

strip_dash : (rest : String) → strip (append "-" rest) ≡ append "-" (strip rest)
unfolding strip append
strip_dash rest = refl

strip-join :
    (c : ClockState) (l : List ClockState)
    → All IsNamed (c ∷ l)
    → strip (join (map to_string (c ∷ l))) ≡ join (map to_string (c ∷ l))
unfolding join
strip-join c [] h = strip_last c h.0
strip-join c (d ∷ l) h =
    strip_token c (append "-" (join (map to_string (d ∷ l)))) h.0
    ∙ ap (append (to_string c))
        (strip_dash (join (map to_string (d ∷ l))) ∙ ap (append "-") (strip-join d l h.1))

parse_token :
    (c : ClockState) (ts : List String)
    → IsNamed c
    → parse_tokens (to_string c ∷ ts) ≡ add_state c (parse_tokens ts)
unfolding parse_tokens to_string
parse_token idle ts h = refl
parse_token working ts h = refl
parse_token short_break ts h = refl
parse_token long_break ts h = refl
parse_token paused ts h = refl
parse_token (other s) ts h = cc

parse_tokens-map :
    (l : List ClockState) → All IsNamed l → parse_tokens (map to_string l) ≡ schedule l
parse_tokens-map [] h = unfold parse_tokens in refl
parse_tokens-map (c ∷ l) h =
    parse_token c (map to_string l) h.0 ∙ ap (add_state c) (parse_tokens-map l h.1)

-- A schedule of named states that is not empty is read back from its text.
pub parse-format_scheduling :
    (c : ClockState) (l : List ClockState)
    → All IsNamed (c ∷ l)
    → parse_scheduling (format_scheduling (c ∷ l)) ≡ schedule (c ∷ l)
unfolding parse_scheduling format_scheduling
parse-format_scheduling c l h =
    ap (λ s. parse_tokens (split s)) (strip-join c l h)
    ∙ ap parse_tokens (split-join c l h)
    ∙ parse_tokens-map (c ∷ l) h
