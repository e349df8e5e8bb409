-- ===== src/Notification/Window.antt =====
-- internal/notification/service.go, `WithinNotificationWindow`. The time zone database is an
-- argument: the minute of the day of an instant in a zone, or nothing for an unknown zone.
use spacetime_node.Prelude.{
  ℕ, ◌+◌, ◌-◌, ◌<◌, ◌≡◌, String, Bool, true, false, Option, none, some, List, [], ◌∷◌, ◌&&◌, ◌||◌,
  ◌==◌, if◌then◌else◌, ltb, leb, nat_eq, arith, Bool-cases, inl, inr, eq_iff,
}
use mathlib.Core.Path.{subst}
use Prim.Native.Nat.{◌*◌, ◌%◌}
use spacetime_node.Prelude.Text.{codes}

abbrev pub is_digit : ℕ → Bool
is_digit c = leb b'0' c && leb c b'9'

abbrev pub value_of : ℕ → ℕ
value_of c = c - b'0'

-- `time.Parse("15:04", s)` from the colon on: two digits below 60, and nothing more
unfoldable pub parse_minute : ℕ → List ℕ → Option ℕ
parse_minute hour (c ∷ m₁ ∷ m₂ ∷ []) =
    let minute = value_of m₁ * 10 + value_of m₂ in
    if ltb hour 24 && nat_eq c b':' && is_digit m₁ && is_digit m₂ && ltb minute 60
    then some (hour * 60 + minute)
    else none
parse_minute hour _ = none

-- `time.Parse("15:04", s)`, as minutes of the day: an hour of one digit or two
unfoldable pub parse_hhmm : List ℕ → Option ℕ
parse_hhmm [] = none
parse_hhmm (h₁ ∷ []) = none
parse_hhmm (h₁ ∷ h₂ ∷ rest) =
    if is_digit h₁
    then (if is_digit h₂
        then parse_minute (value_of h₁ * 10 + value_of h₂) rest
        else parse_minute (value_of h₁) (h₂ ∷ rest))
    else none

-- the test on the three minutes of the day
abbrev pub in_window : ℕ → ℕ → ℕ → Bool
in_window minutes start end =
    if nat_eq start end
    then true
    else if ltb start end
    then leb start minutes && ltb minutes end
    else leb start minutes || ltb minutes end

-- `time.LoadLocation` and `now.In`
abbrev pub Zones : Type 0
Zones = String → ℕ → Option ℕ

-- the window after the tests for an empty text
unfoldable pub window_of : Option ℕ → Option ℕ → Option ℕ → Bool
window_of none _ _ = false
window_of (some minutes) none _ = false
window_of (some minutes) (some start) none = false
window_of (some minutes) (some start) (some end) = in_window minutes start end

-- `WithinNotificationWindow`
unfoldable pub within_notification_window : Zones → ℕ → String → String → String → Bool
within_notification_window zones now timezone start_local end_local =
    if start_local == "" || end_local == ""
    then false
    else window_of (zones timezone now) (parse_hhmm (codes start_local))
        (parse_hhmm (codes end_local))

-- how long after `start` the clock next shows `minute`
abbrev pub minutes_after : ℕ → ℕ → ℕ
minutes_after start minute = (minute + 1440 - start) % 1440

-- the window on the circle of the day: all of it, or what comes before its end
abbrev pub on_circle : ℕ → ℕ → ℕ → Bool
on_circle minutes start end =
    nat_eq start end || ltb (minutes_after start minutes) (minutes_after start end)

minutes_after_later :
    (start minute : ℕ)
    → start < 1440
    → minute < 1440
    → leb start minute ≡ true
    → minutes_after start minute ≡ minute - start
minutes_after_later start minute s m h = ground arith

minutes_after_earlier :
    (start minute : ℕ)
    → start < 1440
    → minute < 1440
    → leb start minute ≡ false
    → minutes_after start minute ≡ minute + 1440 - start
minutes_after_earlier start minute s m h = ground arith

in_window-circle :
    (minutes start end : ℕ)
    → minutes < 1440
    → start < 1440
    → end < 1440
    → in_window minutes start end ≡ on_circle minutes start end
in_window-circle minutes start end m s e = elim (Bool-cases (leb start minutes)) [
  | inl after_start ↦ elim (Bool-cases (leb start end)) [
    | inl later_end ↦ ground (
      arith,
      minutes_after_later start minutes s m after_start,
      minutes_after_later start end s e later_end,
    )
    | inr earlier_end ↦ ground (
      arith,
      minutes_after_later start minutes s m after_start,
      minutes_after_earlier start end s e earlier_end,
    )
  ]
  | inr before_start ↦ elim (Bool-cases (leb start end)) [
    | inl later_end ↦ ground (
      arith,
      minutes_after_earlier start minutes s m before_start,
      minutes_after_later start end s e later_end,
    )
    | inr earlier_end ↦ ground (
      arith,
      minutes_after_earlier start minutes s m before_start,
      minutes_after_earlier start end s e earlier_end,
    )
  ]
]

parse_minute-below : (hour : ℕ) (cs : List ℕ) {t : ℕ} → parse_minute hour cs ≡ some t → t < 1440
unfolding parse_minute
parse_minute-below hour [] h = ground arith
parse_minute-below hour (c ∷ []) h = ground arith
parse_minute-below hour (c ∷ m₁ ∷ []) h = ground arith
parse_minute-below hour (c ∷ m₁ ∷ m₂ ∷ []) h = ground arith
parse_minute-below hour (c ∷ m₁ ∷ m₂ ∷ x ∷ cs) h = ground arith

parse_hhmm-below : (cs : List ℕ) {t : ℕ} → parse_hhmm cs ≡ some t → t < 1440
unfolding parse_hhmm
parse_hhmm-below [] h = ground arith
parse_hhmm-below (h₁ ∷ []) h = ground arith
parse_hhmm-below (h₁ ∷ h₂ ∷ rest) {t} h = ground (
  arith,
  parse_minute-below (value_of h₁ * 10 + value_of h₂) rest {t = t},
  parse_minute-below (value_of h₁) (h₂ ∷ rest) {t = t},
)

parsed_not_empty : (s : String) {t : ℕ} → parse_hhmm (codes s) ≡ some t → (s == "") ≡ false
unfolding parse_hhmm
parsed_not_empty s {t} h = elim (Bool-cases (s == "")) [
  | inr named ↦ named
  | inl empty ↦
      let blank : s ≡ "" = (eq_iff s "").0 empty in
      let k : parse_hhmm (codes "") ≡ some t = subst (λ x. parse_hhmm (codes x) ≡ some t) blank h in
      absurd (ground (arith, k))
]

-- With two times that parse and a zone that is known, WithinNotificationWindow tells whether the
-- clock of the zone reaches the current minute, from the start on, before it reaches the end, also
-- across midnight; equal times are the whole day. The minute of a zone is taken to be below 1440.
pub within_notification_window-circle :
    (zones : Zones) (now : ℕ) (timezone start_local end_local : String) {minutes start end : ℕ}
    → ((z : String) (n t : ℕ) → zones z n ≡ some t → t < 1440)
    → zones timezone now ≡ some minutes
    → parse_hhmm (codes start_local) ≡ some start
    → parse_hhmm (codes end_local) ≡ some end
    → within_notification_window zones now timezone start_local end_local
      ≡ on_circle minutes start end
unfolding within_notification_window window_of
within_notification_window-circle zones now timezone start_local end_local {minutes} {start} {end}
      below z p q =
    let circle =
      in_window-circle minutes start end (below timezone now minutes z)
        (parse_hhmm-below (codes start_local) p) (parse_hhmm-below (codes end_local) q) in
    rw (parsed_not_empty start_local p, parsed_not_empty end_local q, z, p, q) circle
