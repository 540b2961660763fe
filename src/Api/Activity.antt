-- ===== src/Api/Activity.antt =====
-- web/ui/src/api/activity.ts: the history of all torrents. `URLSearchParams.toString` is the
-- parameter `query_text`.
use haul.Base.{
  ℕ, true, Option, none, some, List, [], ◌∷◌, ◌++◌, String, ◌<>◌, truthy, show_nat, if◌then◌else◌,
}
use haul.Api.Types.{Json, text, number, part, count, fields, Query}
use haul.Api.Admin.{set_text}

pub data ActivitySort : Type 0 where
  added_at completed_at removed_at size_bytes resolution name : ActivitySort

abbrev pub sort_name : ActivitySort → String
sort_name added_at = "added_at"
sort_name completed_at = "completed_at"
sort_name removed_at = "removed_at"
sort_name size_bytes = "size_bytes"
sort_name resolution = "resolution"
sort_name name = "name"

pub data ActivityStatus : Type 0 where
  all active completed removed : ActivityStatus

abbrev pub status_name : ActivityStatus → String
status_name all = "all"
status_name active = "active"
status_name completed = "completed"
status_name removed = "removed"

pub data Order : Type 0 where
  asc desc : Order

abbrev pub order_name : Order → String
order_name asc = "asc"
order_name desc = "desc"

pub record ActivityListParams : Type 0 where
  pub q : Option String
  pub status : Option ActivityStatus
  pub sort : Option ActivitySort
  pub order : Option Order
  pub limit : Option ℕ
  pub offset : Option ℕ

abbrev set_status : Option ActivityStatus → List (String × String)
set_status none = []
set_status (some all) = []
set_status (some s) = ("status", status_name s) ∷ []

-- `if (params.limit !== undefined)`: 0 is sent.
abbrev set_number : String → Option ℕ → List (String × String)
set_number key none = []
set_number key (some n) = (key, show_nat n) ∷ []

unfoldable pub build_pairs : ActivityListParams → List (String × String)
build_pairs params =
    set_text "q" params.q
    ++ (set_status params.status
        ++ (elim params.sort [ none ↦ [] | some s ↦ ("sort", sort_name s) ∷ [] ]
            ++ (elim params.order [ none ↦ [] | some o ↦ ("order", order_name o) ∷ [] ]
                ++ (set_number "limit" params.limit ++ set_number "offset" params.offset))))

unfoldable pub build_query : (List (String × String) → String) → ActivityListParams → String
unfolding build_pairs
build_query query_text params =
    let s = query_text (build_pairs params) in if truthy s then "?" <> s else ""

-- The parameters as an object in the query key.
abbrev param_fields : ActivityListParams → List (String × Json)
param_fields params =
    elim params.q [ none ↦ [] | some v ↦ ("q", text v) ∷ [] ]
    ++ (elim params.status [ none ↦ [] | some s ↦ ("status", text (status_name s)) ∷ [] ]
        ++ (elim params.sort [ none ↦ [] | some s ↦ ("sort", text (sort_name s)) ∷ [] ]
            ++ (elim params.order [ none ↦ [] | some o ↦ ("order", text (order_name o)) ∷ [] ]
                ++ (elim params.limit [ none ↦ [] | some n ↦ ("limit", number n) ∷ [] ]
                    ++ elim params.offset [ none ↦ [] | some n ↦ ("offset", number n) ∷ [] ]))))

unfoldable pub use_activity_list : (List (String × String) → String) → ActivityListParams → Query
unfolding build_query
use_activity_list query_text params = record {
  key = part "activity" ∷ fields (param_fields params) ∷ [];
  path = "/activity" <> build_query query_text params;
  enabled = true;
  interval = none;
}

unfoldable pub use_history_by_hash : String → Query
use_history_by_hash hash = record {
  key = part "history" ∷ part hash ∷ [];
  path = "/history/by-hash/" <> hash;
  enabled = truthy hash;
  interval = none;
}

unfoldable pub use_peer_services : Query
use_peer_services = record {
  key = part "peers" ∷ [];
  path = "/peers";
  enabled = true;
  interval = none;
}

unfoldable pub use_activity_events : String → ℕ → Query
use_activity_events hash limit = record {
  key = part "activity" ∷ part hash ∷ part "events" ∷ count limit ∷ [];
  path = "/activity/" <> hash <> "/events?limit=" <> show_nat limit;
  enabled = truthy hash;
  interval = some 5000;
}
