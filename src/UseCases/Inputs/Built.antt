-- ===== src/UseCases/Inputs/Built.antt =====
-- The windows that are built start before they end.
use venue_backend.Common.{
  ℕ, ◌≡◌, refl, Option, none, some, List, [], ◌∷◌, All, arith, Bool-cases, inl, inr,
}
use venue_backend.Shared.Result.{Result, success, failed}
use venue_backend.Shared.Time.{Weekday, same_day}
use venue_backend.Shared.Values.{TimeWindow, create_window}
use venue_backend.Shared.Clock.{str_to_time}
use venue_backend.Resources.Schedule.Exact.{IsWindow}
use venue_backend.UseCases.Inputs.{
  TimeWindowInput, DaysInput, window_of, kept, parse_window, windows_built, days_built,
}

window_of-IsWindow : (s e : Option ℕ) {w : TimeWindow} → window_of s e ≡ success w → IsWindow w
unfolding create_window
window_of-IsWindow none e h = cc
window_of-IsWindow (some s) none h = cc
window_of-IsWindow (some s) (some e) h = ground arith

kept-IsWindow :
    (r : Result TimeWindow) (rest : List TimeWindow)
    → ((w : TimeWindow) → r ≡ success w → IsWindow w)
    → All IsWindow rest
    → All IsWindow (kept r rest)
kept-IsWindow (success w) rest ok all = (ok w refl, all)
kept-IsWindow (failed e) rest ok all = all

module _ (digit : ℕ → Option ℕ) where
  pub windows_built-IsWindow : (tws : List TimeWindowInput) → All IsWindow (windows_built digit tws)
  unfolding windows_built parse_window
  windows_built-IsWindow [] = tt
  windows_built-IsWindow (tw ∷ tws) =
      kept-IsWindow (parse_window digit tw) (windows_built digit tws)
        (λ w h. window_of-IsWindow (str_to_time digit tw.start) (str_to_time digit tw.end) h)
        (windows_built-IsWindow tws)

  -- Every window that the loops build starts before it ends.
  pub days_built-IsWindow :
      (days : DaysInput) (wd : Weekday) → All IsWindow (days_built digit days wd)
  unfolding days_built
  days_built-IsWindow [] wd = tt
  days_built-IsWindow ((day, tws) ∷ days) wd = elim (Bool-cases (same_day day wd)) [
    | inl hit ↦ rw hit (windows_built-IsWindow tws)
    | inr miss ↦ rw miss (days_built-IsWindow days wd)
  ]
