-- ===== src/Examples/Tokens.antt =====
-- Tokens without spaces that expire: they have the behaviour that internal/auth/model.go relies on,
-- and stand for the package jwt in the examples.
use Prim.Native.Char.{Char, code}
use text.Mathlib.TextEquality.{Char-path}
use pomodoro_backend.Base.{
  ℕ, ◌-◌, ◌%◌, ◌≤◌, ◌<◌, String, ◌≡◌, refl, Bool, true, false, Bool-cases, inl, inr, Option, none,
  some, [], ◌∷◌, if◌then◌else◌, ◌==◌, ltb, leb, split_on, ◌&&◌, arith,
}
use pomodoro_backend.Clock.Time.{Time, second}
use pomodoro_backend.Auth.User.{Jwt, JwtClaims, claims_of}
use pomodoro_backend.Auth.Laws.{IsJwt}
use pomodoro_backend.Examples.Store.{binary, value, value-binary}

-- A character with a mark in front of it, where a space is a mark of its own.
abbrev put_char : Char → String → String
put_char c s =
    if code c == 32 then String.◌∷◌ "s" (String.◌∷◌ "_" s) else String.◌∷◌ "c" (String.◌∷◌ c s)

-- The characters of a text, with a mark for its end, in front of other characters.
abbrev put_text : String → String → String
put_text String.[] rest = String.◌∷◌ "." (String.◌∷◌ "_" rest)
put_text (String.◌∷◌ c s) rest = put_char c (put_text s rest)

abbrev next_char : Char → Char → String → String × String → String × String
next_char c d s (t, r) =
    if code c == 46
    then ("", s)
    else if code c == 115
    then (String.◌∷◌ " " t, r)
    else (String.◌∷◌ d t, r)

abbrev get_text : String → String × String
get_text String.[] = ("", "")
get_text (String.◌∷◌ c String.[]) = ("", "")
get_text (String.◌∷◌ c (String.◌∷◌ d s)) = next_char c d s (get_text s)

get_text-put_text : (t rest : String) → get_text (put_text t rest) ≡ (t, rest)
get_text-put_text String.[] rest = refl
get_text-put_text (String.◌∷◌ c s) rest = elim (Bool-cases (code c == 32)) [
  | inl e ↦ ground (arith, get_text-put_text s rest, Char-path " " c)
  | inr e ↦ ground (arith, get_text-put_text s rest)
]

put_text_spaceless :
    (t rest : String)
    → split_on 32 rest ≡ rest ∷ []
    → split_on 32 (put_text t rest) ≡ put_text t rest ∷ []
unfolding split_on
put_text_spaceless String.[] rest h = ground (arith, h)
put_text_spaceless (String.◌∷◌ c s) rest h = ground (arith, put_text_spaceless s rest h)

abbrev pub put_claims : JwtClaims → String
put_claims c = put_text c.username (
    put_text c.user_id (
      put_text (binary c.not_before c.not_before) (put_text (binary c.expires_at c.expires_at) "")))

abbrev is_valid : (now not_before expires_at : Time) → Bool
is_valid now start end = leb start now && ltb now (end - end % second)

abbrev read_claims : Time → String → Option (JwtClaims × Bool)
read_claims now token =
    let (name, s) = get_text token in
    let (id, s) = get_text s in
    let (start, s) = get_text s in
    let (end, s) = get_text s in
    if is_valid now (value start) (value end)
    then some (claims_of (value start) id name, true)
    else none

abbrev pub tokens : Jwt
tokens = record { sign = λ c. some (put_claims c); parse = read_claims }

read_claims-put_claims :
    (now : Time) (c : JwtClaims)
    → read_claims now (put_claims c) ≡ (
        if is_valid now c.not_before c.expires_at
        then some (claims_of c.not_before c.user_id c.username, true)
        else none)
read_claims-put_claims now c =
    rw
      (
        get_text-put_text c.username _,
        get_text-put_text c.user_id _,
        get_text-put_text (binary c.not_before c.not_before) _,
        get_text-put_text (binary c.expires_at c.expires_at) "",
        value-binary c.not_before c.not_before (omega arith),
        value-binary c.expires_at c.expires_at (omega arith),
      )
      refl

put_claims_spaceless : (c : JwtClaims) → split_on 32 (put_claims c) ≡ put_claims c ∷ []
unfolding split_on
put_claims_spaceless c = put_text_spaceless c.username _ (
    put_text_spaceless c.user_id _ (
      put_text_spaceless (binary c.not_before c.not_before) _
        (put_text_spaceless (binary c.expires_at c.expires_at) "" refl)))

in_time :
    (now start end : ℕ) → start ≤ now → now < end - end % second → is_valid now start end ≡ true
in_time now start end h k = ground arith

too_late : (now start end : ℕ) → end ≤ now → is_valid now start end ≡ false
too_late now start end h = ground arith

pub tokens-IsJwt : IsJwt tokens
tokens-IsJwt = record {
  sign_total = λ c. (put_claims c, refl);
  no_spaces = λ c token h.
      let same : token ≡ put_claims c = ground arith in rw same (put_claims_spaceless c);
  parse-sign = λ now c token h after before.
      let same : token ≡ put_claims c = ground arith in
      (
        claims_of c.not_before c.user_id c.username,
        rw (same, read_claims-put_claims now c, in_time now c.not_before c.expires_at after before)
            refl,
        refl,
        refl,
      );
  parse-sign_expired = λ now c token h late.
      let same : token ≡ put_claims c = ground arith in
      rw (same, read_claims-put_claims now c, too_late now c.not_before c.expires_at late) refl;
}
