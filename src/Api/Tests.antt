-- ===== src/Api/Tests.antt =====
use text.Mathlib.TextEquality.{eq_iff}
use haul.Base.{
  ℕ, ◌≡◌, refl, Bool, true, Option, none, some, [], ◌∷◌, ◌++◌, String, str_eq, if◌then◌else◌,
}
use haul.Api.Types.{Key, part, count, fields}
use haul.Api.Fetch.{Response, Problem, response, value, api_error, api_fetch}
use haul.Api.Cache.{Matching, goes_stale, goes_stale-change, change, view, add_trackers, trackers}

abbrev read_number : String → Option ℕ
read_number s = if str_eq s "7" then some 7 else none

abbrev read_problem : String → Option Problem
read_problem s =
    if str_eq s "{detail: full}"
    then some record { first_error = none; detail = some "full"; title = none; error = none }
    else none

abbrev full : Response
full = record { status = 507; status_text = "Insufficient"; body = "{detail: full}" }

abbrev seven : Response
seven = record { status = 202; status_text = "Accepted"; body = "7" }

api_fetch-full :
    api_fetch read_number read_problem (response full)
    ≡ api_error record { status = 507; title = "full"; detail = some "full" }
unfolding api_fetch
api_fetch-full = refl

api_fetch-seven : api_fetch read_number read_problem (response seven) ≡ value 7
unfolding api_fetch
api_fetch-seven = refl

-- Matching on the first part alone, which is all that the keys of this page need.
abbrev first_part : Key → String
first_part (part a ∷ k) = a
first_part _ = ""

abbrev same_topic : Key → Key → Bool
same_topic [] k = true
same_topic (p ∷ ps) k = str_eq (first_part (p ∷ ps)) (first_part k)

same_topic-append : (k rest : Key) → same_topic k (k ++ rest) ≡ true
same_topic-append [] rest = refl
same_topic-append (part a ∷ ps) rest = (eq_iff a a).1 refl
same_topic-append (count n ∷ ps) rest = refl
same_topic-append (fields f ∷ ps) rest = refl

abbrev by_topic : Matching
by_topic = record { matches = same_topic; matches-append = same_topic-append }

goes_stale-change_example :
    goes_stale by_topic (change (add_trackers "abc" [])) (view (trackers "abc")) ≡ true
goes_stale-change_example = goes_stale-change by_topic (add_trackers "abc" []) (trackers "abc") refl
