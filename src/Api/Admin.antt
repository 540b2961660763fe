-- ===== src/Api/Admin.antt =====
-- web/ui/src/api/adminDiagnostics.ts, settings.ts, categories.ts, stats.ts and health.ts.
use haul.Base.{
  ℕ, true, Option, none, some, List, [], ◌∷◌, ◌++◌, String, ◌<>◌, truthy, truthy?, show_nat,
  if◌then◌else◌, ◌==◌,
}
use haul.Api.Types.{
  Json, text, texts, number, flag, object, post, put, delete, Key, part, fields, Query, Mutation,
}

unfoldable pub use_diagnostics : Query
use_diagnostics = record {
  key = part "admin" ∷ part "diagnostics" ∷ [];
  path = "/admin/diagnostics";
  enabled = true;
  interval = some 30000;
}

-- The name is null while the card is closed; `null` in a path reads "null".
abbrev pub name_text : Option String → String
name_text none = "null"
name_text (some name) = name

unfoldable pub use_diagnostic : Option String → Query
use_diagnostic name = record {
  key = part "admin" ∷ part "diagnostics" ∷ part (name_text name) ∷ [];
  path = "/admin/diagnostics/" <> name_text name;
  enabled = truthy? name;
  interval = none;
}

pub data CleanupMode : Type 0 where
  soft hard : CleanupMode

abbrev pub mode_name : CleanupMode → String
mode_name soft = "soft"
mode_name hard = "hard"

-- Either the ids of the rows or all of them.
pub data Targets : Type 0 where
  ids : List String → Targets
  every : Targets

abbrev pub target_field : Targets → String × Json
target_field (ids rows) = ("ids", texts rows)
target_field every = ("all", flag true)

abbrev diagnostics_stale : List Key
diagnostics_stale =
    (part "admin" ∷ part "diagnostics" ∷ [])
    ∷ (part "admin" ∷ part "cleanup-history" ∷ [])
    ∷ (part "torrents" ∷ [])
    ∷ []

unfoldable pub use_cleanup_diagnostic : String → Targets → CleanupMode → Mutation
use_cleanup_diagnostic name targets mode = record {
  request = record {
    method = post;
    path = "/admin/diagnostics/" <> name <> "/cleanup";
    body = some (target_field targets ∷ ("mode", text (mode_name mode)) ∷ []);
  };
  stale = diagnostics_stale;
}

pub record HistoryFilter : Type 0 where
  pub diagnostic : Option String
  pub source_table : Option String
  pub limit : Option ℕ

-- One `params.set`, guarded by the truth of the value.
abbrev pub set_text : String → Option String → List (String × String)
set_text name none = []
set_text name (some v) = if truthy v then (name, v) ∷ [] else []

abbrev pub set_count : String → Option ℕ → List (String × String)
set_count name none = []
set_count name (some n) = if n == 0 then [] else (name, show_nat n) ∷ []

unfoldable pub history_params : HistoryFilter → List (String × String)
history_params f =
    set_text "diagnostic" f.diagnostic
    ++ (set_text "source_table" f.source_table ++ set_count "limit" f.limit)

-- The filter as a part of the key; a filter that is left out counts as the empty object.
abbrev pub filter_fields : HistoryFilter → List (String × Json)
filter_fields f =
    elim f.diagnostic [ none ↦ [] | some d ↦ ("diagnostic", text d) ∷ [] ]
    ++ (elim f.source_table [ none ↦ [] | some t ↦ ("source_table", text t) ∷ [] ]
        ++ elim f.limit [ none ↦ [] | some n ↦ ("limit", number n) ∷ [] ])

-- `URLSearchParams.toString` is the parameter `query_text`.
unfoldable pub use_cleanup_history : (List (String × String) → String) → HistoryFilter → Query
unfolding history_params
use_cleanup_history query_text f =
    let q = query_text (history_params f) in
    record {
      key = part "admin" ∷ part "cleanup-history" ∷ fields (filter_fields f) ∷ [];
      path = "/admin/cleanup-history" <> (if truthy q then "?" <> q else "");
      enabled = true;
      interval = some 30000;
    }

unfoldable pub use_restore_cleanup_history : ℕ → Mutation
use_restore_cleanup_history id = record {
  request = record {
    method = post;
    path = "/admin/cleanup-history/" <> show_nat id <> "/restore";
    body = none;
  };
  stale =
      (part "admin" ∷ part "cleanup-history" ∷ [])
      ∷ (part "admin" ∷ part "diagnostics" ∷ [])
      ∷ (part "torrents" ∷ [])
      ∷ [];
}

unfoldable pub use_purge_cleanup_history : ℕ → Mutation
use_purge_cleanup_history older_than_days = record {
  request = record {
    method = post;
    path = "/admin/cleanup-history/purge";
    body = some (("older_than_days", number older_than_days) ∷ []);
  };
  stale = (part "admin" ∷ part "cleanup-history" ∷ []) ∷ [];
}

unfoldable pub use_settings : Query
use_settings = record {
  key = part "settings" ∷ [];
  path = "/settings";
  enabled = true;
  interval = none;
}

unfoldable pub use_save_settings : List (String × String) → Mutation
use_save_settings settings = record {
  request = record {
    method = put;
    path = "/settings";
    body = some (("settings", object settings) ∷ []);
  };
  stale = (part "settings" ∷ []) ∷ [];
}

unfoldable pub use_categories : Query
use_categories = record {
  key = part "categories" ∷ [];
  path = "/categories";
  enabled = true;
  interval = none;
}

unfoldable pub use_create_category : String → Option String → Mutation
use_create_category name save_path = record {
  request = record {
    method = post;
    path = "/categories";
    body =
        some (
          ("name", text name) ∷ elim save_path [ none ↦ [] | some p ↦ ("save_path", text p) ∷ [] ]);
  };
  stale = (part "categories" ∷ []) ∷ [];
}

unfoldable pub use_delete_category : (String → String) → String → Mutation
use_delete_category encode name = record {
  request = record { method = delete; path = "/categories/" <> encode name; body = none };
  stale = (part "categories" ∷ []) ∷ [];
}

unfoldable pub use_stats : Query
use_stats = record {
  key = part "stats" ∷ [];
  path = "/stats";
  enabled = true;
  interval = some 5000;
}

unfoldable pub use_health : Query
use_health = record {
  key = part "health" ∷ [];
  path = "/health";
  enabled = true;
  interval = some 5000;
}
