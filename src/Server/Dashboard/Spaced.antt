-- ===== src/Server/Dashboard/Spaced.antt =====
-- The history of the dashboard, however often and at whatever times it is asked for.
use sub_hub.Common.{
  ℕ, suc, ◌+◌, ◌≤◌, ◌<◌, ◌≡◌, refl, true, false, Option, none, some, List, [], ◌∷◌, ◌++◌, length,
  ltb, arith, Bool-cases, Option-cases, inl, inr,
}
use sub_hub.Model.Region.{Unicode}
use sub_hub.Model.Subscription.{Subscription}
use sub_hub.Score.{Arithmetic}
use sub_hub.Server.Dashboard.{
  TrendPoint, DashboardResp, trend_point, back, is_recent, trim_history, sample, dashboard,
  summarised,
}

-- Each point is at least a minute after the one before it.
abbrev pub Spaced : List TrendPoint → Type 0
Spaced [] = Unit
Spaced (p ∷ []) = Unit
Spaced (p ∷ q ∷ h) = (p.t + 60000 ≤ q.t) × Spaced (q ∷ h)

-- The newest point is less than a minute old.
abbrev pub UpToDate : ℕ → Option TrendPoint → Type 0
UpToDate now none = ⊥
UpToDate now (some p) = now < p.t + 60000

Spaced-concat :
    (now : ℕ) (r : DashboardResp) (h : List TrendPoint)
    → Spaced h
    → is_recent now h ≡ false
    → Spaced (h ++ trend_point now r ∷ [])
Spaced-concat now r [] s e = tt
Spaced-concat now r (p ∷ []) s e = (ground arith, tt)
Spaced-concat now r (p ∷ q ∷ h) s e = (s.0, Spaced-concat now r (q ∷ h) s.1 e)

Spaced-tail : (p : TrendPoint) (h : List TrendPoint) → Spaced (p ∷ h) → Spaced h
Spaced-tail p [] s = tt
Spaced-tail p (q ∷ h) s = s.1

trim_history-Spaced : (h : List TrendPoint) → Spaced h → Spaced (trim_history h)
unfolding trim_history
trim_history-Spaced [] s = tt
trim_history-Spaced (p ∷ h) s = elim (Bool-cases (ltb 240 (suc (length h)))) [
  | inl e ↦ rw e (trim_history-Spaced h (Spaced-tail p h s))
  | inr e ↦ rw e s
]

length-trim_history-le : (h : List TrendPoint) → length (trim_history h) ≤ 240
unfolding trim_history
length-trim_history-le [] = omega arith
length-trim_history-le (p ∷ h) = ground (arith, length-trim_history-le h)

back-concat : (x : TrendPoint) (h : List TrendPoint) → back (h ++ x ∷ []) ≡ some x
back-concat x [] = refl
back-concat x (p ∷ []) = refl
back-concat x (p ∷ q ∷ h) = back-concat x (q ∷ h)

back-trim_history : (h : List TrendPoint) → back (trim_history h) ≡ back h
unfolding trim_history
back-trim_history [] = refl
back-trim_history (p ∷ []) = refl
back-trim_history (p ∷ q ∷ h) = elim (Bool-cases (ltb 240 (suc (suc (length h))))) [
  | inl e ↦ rw e (back-trim_history (q ∷ h))
  | inr e ↦ rw e refl
]

-- The invariant of the history.
abbrev pub Kept : List TrendPoint → Type 0
Kept h = (length h ≤ 240) × Spaced h

recent-UpToDate : (now : ℕ) (h : List TrendPoint) → is_recent now h ≡ true → UpToDate now (back h)
recent-UpToDate now h e = elim (Option-cases (back h)) [
  | inl none_there ↦ absurd (ground (arith, none_there, e))
  | inr (p, there) ↦ rw there (ground (arith, there, e))
]

sample-Kept :
    (now : ℕ) (r : DashboardResp) (h : List TrendPoint)
    → Kept h
    → Kept (sample now r h) × UpToDate now (back (sample now r h))
unfolding sample
sample-Kept now r h k = elim (Bool-cases (is_recent now h)) [
  | inl e ↦ rw e (k, recent-UpToDate now h e)
  | inr e ↦
      let longer = h ++ trend_point now r ∷ [] in
      rw e (
        (length-trim_history-le longer, trim_history-Spaced longer (Spaced-concat now r h k.1 e)),
        rw (back-trim_history longer, back-concat (trend_point now r) h) (omega arith),
      )
]

-- The history after requests, each with its time and the store that it finds.
unfoldable pub asked :
    Unicode → Arithmetic → List (ℕ × List Subscription) → List TrendPoint → List TrendPoint
asked u a [] h = h
asked u a ((now, store) ∷ rest) h = asked u a rest (dashboard u a now store h).1

asked-Kept :
    (u : Unicode) (a : Arithmetic) (requests : List (ℕ × List Subscription)) (h : List TrendPoint)
    → Kept h
    → Kept (asked u a requests h)
unfolding asked dashboard
asked-Kept u a [] h k = k
asked-Kept u a ((now, store) ∷ rest) h k =
    asked-Kept u a rest (sample now (summarised u a store) h)
      (sample-Kept now (summarised u a store) h k).0

-- After any requests, at any times and of any stores, a further request leaves a history of at most
-- 240 points, each at least a minute after the one before it, whose newest is less than a minute
-- older than the request. The clock may go back.
pub dashboard-Kept :
    (u : Unicode) (a : Arithmetic) (requests : List (ℕ × List Subscription)) (now : ℕ)
    (store : List Subscription)
    → Kept (dashboard u a now store (asked u a requests [])).1
      × UpToDate now (back (dashboard u a now store (asked u a requests [])).1)
unfolding dashboard
dashboard-Kept u a requests now store =
    sample-Kept now (summarised u a store) (asked u a requests [])
      (asked-Kept u a requests [] (omega arith, tt))
