-- ===== src/Clock/Stats/Queries.antt =====
-- internal/clock/statistics.go: the queries over the history.
use Prim.Native.Nat.{min}
use mathlib.Core.List.{append-nil, append_assoc}
use pomodoro_backend.Clock.Stats.Totals.{total, total_step, one, length_of, is_break}
use pomodoro_backend.Base.{
  ℕ, sym, wrap64, wrap64_id, Bool-cases, inl, inr, ◌-◌, ◌*◌, ◌≡◌, refl, ap, zero, suc, List, [],
  ◌∷◌, ◌++◌, length, drop, length-drop, arith, ℤ, pos, negsuc, pos_part,
}
use pomodoro_backend.Clock.Time.{Time, day, truncate_day, after}
use pomodoro_backend.Clock.State.{working, short_break, long_break, state_eq}
use pomodoro_backend.Clock.Stats.{
  SessionRecord, StatisticsManager, get_recent_sessions, WeeklyStats, no_weekly, get_weekly_stats,
  add_weekly, weekly_loop, keep,
}

drop_split {ℓ} : {A : Type ℓ} (n : ℕ) (xs : List A) → (older : List A) × (older ++ drop n xs ≡ xs)
drop_split zero xs = ([], refl)
drop_split (suc n) [] = ([], refl)
drop_split (suc n) (x ∷ xs) = let (older, e) = drop_split n xs in (x ∷ older, ap (λ l. x ∷ l) e)

drop_all {ℓ} : {A : Type ℓ} (xs : List A) → drop (length xs) xs ≡ []
drop_all [] = refl
drop_all (x ∷ xs) = drop_all xs

abbrev recent_count : ℤ → StatisticsManager → ℕ
recent_count count sm = min (pos_part count) (length sm.session_history)

get_recent_sessions_lem :
    (count : ℤ) (sm : StatisticsManager)
    → get_recent_sessions count sm
      ≡ drop (length sm.session_history - recent_count count sm) sm.session_history
unfolding get_recent_sessions
get_recent_sessions_lem (negsuc n) sm =
    let e : length sm.session_history - min 0 (length sm.session_history)
        ≡ length sm.session_history =
      omega arith in
    rw (e, drop_all sm.session_history) (ground arith)
get_recent_sessions_lem (pos zero) sm =
    let e : length sm.session_history - min 0 (length sm.session_history)
        ≡ length sm.session_history =
      omega arith in
    rw (e, drop_all sm.session_history)
get_recent_sessions_lem (pos (suc n)) sm = ground arith

-- `GetRecentSessions` returns the end of the history, as many records of it as asked for, none for
-- a count below one, and all where it holds fewer.
get_recent_sessions_suffix :
    (count : ℤ) (sm : StatisticsManager)
    → (older : List SessionRecord) × (older ++ get_recent_sessions count sm ≡ sm.session_history)
      × (length (get_recent_sessions count sm) ≡ min (pos_part count) (length sm.session_history))
get_recent_sessions_suffix count sm =
    let start = length sm.session_history - recent_count count sm in
    let (older, e) = drop_split start sm.session_history in
    (
      older,
      rw (get_recent_sessions_lem count sm) e,
      rw (get_recent_sessions_lem count sm) (omega (arith, length-drop start sm.session_history)),
    )

-- The five numbers are the sums over a list of records, up to the wrap-around of 64 bits.
pub record IsTally (rs : List SessionRecord) (w : WeeklyStats) : Type 0 where
  pub works : w.work_sessions ≡ wrap64 (total (λ s. state_eq s working) one rs)
  pub shorts : w.short_breaks ≡ wrap64 (total (λ s. state_eq s short_break) one rs)
  pub longs : w.long_breaks ≡ wrap64 (total (λ s. state_eq s long_break) one rs)
  pub work : w.work_time ≡ wrap64 (total (λ s. state_eq s working) length_of rs)
  pub breaks : w.break_time ≡ wrap64 (total is_break length_of rs)

add_weekly-IsTally :
    (rs : List SessionRecord) (r : SessionRecord) (w : WeeklyStats)
    → IsTally rs w
    → IsTally (rs ++ r ∷ []) (add_weekly r.state r.duration w)
add_weekly-IsTally rs r w h = ground (
  arith,
  total_step (λ s. state_eq s working) one rs r w.work_sessions,
  total_step (λ s. state_eq s short_break) one rs r w.short_breaks,
  total_step (λ s. state_eq s long_break) one rs r w.long_breaks,
  total_step (λ s. state_eq s working) length_of rs r w.work_time,
  total_step is_break length_of rs r w.break_time,
)

weekly_loop-IsTally :
    (start : Time) (seen rs : List SessionRecord) (w : WeeklyStats)
    → IsTally seen w
    → IsTally (seen ++ keep (λ r. after r.completed start) rs) (weekly_loop start w rs)
unfolding weekly_loop
weekly_loop-IsTally start seen [] w h = rw append-nil h
weekly_loop-IsTally start seen (r ∷ rs) w h = elim (Bool-cases (after r.completed start)) [
  | inl e ↦
      rw (e, ← append_assoc seen (r ∷ []) (keep (λ r. after r.completed start) rs))
        (weekly_loop-IsTally start (seen ++ r ∷ []) rs (add_weekly r.state r.duration w)
          (add_weekly-IsTally seen r w h))
  | inr e ↦ rw e (weekly_loop-IsTally start seen rs w h)
]

no_weekly-IsTally : IsTally [] no_weekly
no_weekly-IsTally = record {
  works = sym (wrap64_id (pos 0) (omega arith));
  shorts = sym (wrap64_id (pos 0) (omega arith));
  longs = sym (wrap64_id (pos 0) (omega arith));
  work = sym (wrap64_id (pos 0) (omega arith));
  breaks = sym (wrap64_id (pos 0) (omega arith));
}

-- `GetWeeklyStats` counts and sums, over the records completed after the start of the week, the
-- working sessions, the short breaks and the long breaks, up to the wrap-around of 64 bits.
get_weekly_stats-IsTally :
    (weekday : Time → ℕ) (now : Time) (sm : StatisticsManager)
    → let start = truncate_day now - weekday (truncate_day now) * day in
      IsTally
        (keep (λ r. after r.completed start) sm.session_history)
        (get_weekly_stats weekday now sm)
unfolding get_weekly_stats
get_weekly_stats-IsTally weekday now sm =
    weekly_loop-IsTally (truncate_day now - weekday (truncate_day now) * day) [] sm.session_history
      no_weekly no_weekly-IsTally
