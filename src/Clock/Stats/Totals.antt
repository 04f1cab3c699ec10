-- ===== src/Clock/Stats/Totals.antt =====
-- internal/clock/statistics.go: the totals are those of the history.
use pomodoro_backend.Base.{
  ◌≡◌, refl, sym, inl, inr, Bool, true, ◌||◌, List, [], ◌∷◌, ◌++◌, if◌then◌else◌, arith, ℤ, pos,
  ◌+ℤ◌, +ℤ_assoc, zero-+ℤ, +ℤ-zero, wrap64, add64, wrap64-add, wrap64_id, Bool-cases,
}
use pomodoro_backend.Clock.Time.{Duration, Time}
use pomodoro_backend.Clock.State.{ClockState, working, short_break, long_break, state_eq}
use pomodoro_backend.Clock.Stats.{
  SessionRecord, StatisticsManager, new_statistics_manager, record_session, reset_statistics,
}

-- The sum of a measure over the records whose state passes a test.
module _ (p : ClockState → Bool) (f : SessionRecord → ℤ) where
  abbrev pub total : List SessionRecord → ℤ
  total [] = pos 0
  total (r ∷ rs) = (if p r.state then f r else pos 0) +ℤ total rs

  pub total-append :
      (rs : List SessionRecord) (r : SessionRecord)
      → total (rs ++ r ∷ []) ≡ total rs +ℤ (if p r.state then f r else pos 0)
  total-append [] r = rw (+ℤ-zero, zero-+ℤ)
  total-append (q ∷ rs) r = rw (total-append rs r, +ℤ_assoc)

abbrev pub is_break : ClockState → Bool
is_break s = state_eq s short_break || state_eq s long_break

abbrev pub one : SessionRecord → ℤ
one r = pos 1

abbrev pub length_of : SessionRecord → ℤ
length_of r = r.duration

-- Every total is the sum over the history, up to the wrap-around of its 64 bits.
pub record IsConsistent (sm : StatisticsManager) : Type 0 where
  pub works :
      sm.total_work_sessions ≡ wrap64 (total (λ s. state_eq s working) one sm.session_history)
  pub shorts :
      sm.total_short_breaks ≡ wrap64 (total (λ s. state_eq s short_break) one sm.session_history)
  pub longs :
      sm.total_long_breaks ≡ wrap64 (total (λ s. state_eq s long_break) one sm.session_history)
  pub work_time :
      sm.total_work_time ≡ wrap64 (total (λ s. state_eq s working) length_of sm.session_history)
  pub break_time : sm.total_break_time ≡ wrap64 (total is_break length_of sm.session_history)
  pub all_time : sm.total_session_time ≡ wrap64 (total (λ s. true) length_of sm.session_history)

-- One more record: what a total becomes, where the record is counted and where it is not.
pub total_step :
    (p : ClockState → Bool) (f : SessionRecord → ℤ) (rs : List SessionRecord) (r : SessionRecord)
    (t : ℤ)
    → t ≡ wrap64 (total p f rs)
    → (if p r.state then add64 t (f r) else t) ≡ wrap64 (total p f (rs ++ r ∷ []))
unfolding add64
total_step p f rs r t e = elim (Bool-cases (p r.state)) [
  | inl h ↦ rw (e, total-append p f rs r, h, wrap64-add)
  | inr h ↦ rw (e, total-append p f rs r, h, +ℤ-zero)
]

-- Totals that are the sums over the history, up to the wrap-around of 64 bits, are so again after a
-- record, of whatever state and duration.
pub record_session-IsConsistent :
    (now : Time) (state : ClockState) (d : Duration) (sm : StatisticsManager)
    → IsConsistent sm
    → IsConsistent (record_session now state d sm)
unfolding record_session
record_session-IsConsistent now state d sm c =
    let r : SessionRecord = record { state = state; duration = d; completed = now } in
    ground (
      arith,
      total_step (λ s. state_eq s working) one sm.session_history r sm.total_work_sessions,
      total_step (λ s. state_eq s short_break) one sm.session_history r sm.total_short_breaks,
      total_step (λ s. state_eq s long_break) one sm.session_history r sm.total_long_breaks,
      total_step (λ s. state_eq s working) length_of sm.session_history r sm.total_work_time,
      total_step is_break length_of sm.session_history r sm.total_break_time,
      total_step (λ s. true) length_of sm.session_history r sm.total_session_time,
    )

pub new_statistics_manager-IsConsistent : IsConsistent new_statistics_manager
unfolding new_statistics_manager
new_statistics_manager-IsConsistent = record {
  works = sym (wrap64_id (pos 0) (omega arith));
  shorts = sym (wrap64_id (pos 0) (omega arith));
  longs = sym (wrap64_id (pos 0) (omega arith));
  work_time = sym (wrap64_id (pos 0) (omega arith));
  break_time = sym (wrap64_id (pos 0) (omega arith));
  all_time = sym (wrap64_id (pos 0) (omega arith));
}

pub reset_statistics_lem : (sm : StatisticsManager) → reset_statistics sm ≡ new_statistics_manager
unfolding reset_statistics new_statistics_manager
reset_statistics_lem sm = refl
