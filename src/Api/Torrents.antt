-- ===== src/Api/Torrents.antt =====
-- web/ui/src/api/torrents.ts: the queries and mutations on torrents. `encode` is
-- `encodeURIComponent`.
use haul.Base.{
  ℕ, Bool, true, Option, none, some, List, [], ◌∷◌, ◌++◌, String, ◌<>◌, truthy, if◌then◌else◌,
}
use haul.Api.Types.{Json, text, texts, number, flag, post, put, delete, part, Query, Mutation}

unfoldable pub use_torrent : String → Bool → Query
use_torrent hash detail_page = record {
  key = part "torrents" ∷ part hash ∷ [];
  path = "/torrents/" <> hash;
  enabled = truthy hash;
  interval = some (if detail_page then 1000 else 2000);
}

unfoldable pub use_torrents : Query
use_torrents = record {
  key = part "torrents" ∷ [];
  path = "/torrents";
  enabled = true;
  interval = some 3000;
}

unfoldable pub use_torrent_files : String → Query
use_torrent_files hash = record {
  key = part "torrents" ∷ part hash ∷ part "files" ∷ [];
  path = "/torrents/" <> hash <> "/files";
  enabled = truthy hash;
  interval = none;
}

unfoldable pub use_torrent_peers : String → Query
use_torrent_peers hash = record {
  key = part "torrents" ∷ part hash ∷ part "peers" ∷ [];
  path = "/torrents/" <> hash <> "/peers";
  enabled = truthy hash;
  interval = some 1000;
}

unfoldable pub use_torrent_pieces : String → Query
use_torrent_pieces hash = record {
  key = part "torrents" ∷ part hash ∷ part "pieces" ∷ [];
  path = "/torrents/" <> hash <> "/pieces";
  enabled = truthy hash;
  interval = some 1000;
}

unfoldable pub use_torrent_trackers : String → Query
use_torrent_trackers hash = record {
  key = part "torrents" ∷ part hash ∷ part "trackers" ∷ [];
  path = "/torrents/" <> hash <> "/trackers";
  enabled = truthy hash;
  interval = some 30000;
}

unfoldable pub use_torrent_stall : String → Query
use_torrent_stall hash = record {
  key = part "torrents" ∷ part hash ∷ part "stall" ∷ [];
  path = "/torrents/" <> hash <> "/stall";
  enabled = truthy hash;
  interval = some 5000;
}

unfoldable pub use_add_trackers : String → List String → Mutation
use_add_trackers hash urls = record {
  request = record {
    method = post;
    path = "/torrents/" <> hash <> "/trackers";
    body = some (("urls", texts urls) ∷ []);
  };
  stale = (part "torrents" ∷ part hash ∷ part "trackers" ∷ []) ∷ [];
}

unfoldable pub use_delete_torrent : String → Bool → Mutation
use_delete_torrent hash delete_files = record {
  request = record {
    method = delete;
    path = "/torrents/" <> hash <> "?delete_files=" <> (if delete_files then "true" else "false");
    body = none;
  };
  stale = (part "torrents" ∷ []) ∷ [];
}

unfoldable pub use_pause_torrent : String → Mutation
use_pause_torrent hash = record {
  request = record { method = post; path = "/torrents/" <> hash <> "/pause"; body = none };
  stale = (part "torrents" ∷ []) ∷ [];
}

unfoldable pub use_resume_torrent : String → Mutation
use_resume_torrent hash = record {
  request = record { method = post; path = "/torrents/" <> hash <> "/resume"; body = none };
  stale = (part "torrents" ∷ []) ∷ [];
}

unfoldable pub use_set_torrent_priority : String → ℕ → Mutation
use_set_torrent_priority hash priority = record {
  request = record {
    method = put;
    path = "/torrents/" <> hash <> "/priority";
    body = some (("priority", number priority) ∷ []);
  };
  stale = (part "torrents" ∷ []) ∷ [];
}

unfoldable pub use_force_start_torrent : String → Mutation
use_force_start_torrent hash = record {
  request = record { method = post; path = "/torrents/" <> hash <> "/force-start"; body = none };
  stale = (part "torrents" ∷ []) ∷ [];
}

unfoldable pub use_recheck_torrent : String → Mutation
use_recheck_torrent hash = record {
  request = record { method = post; path = "/torrents/" <> hash <> "/recheck"; body = none };
  stale = (part "torrents" ∷ []) ∷ [];
}

unfoldable pub use_reannounce_torrent : String → Mutation
use_reannounce_torrent hash = record {
  request = record { method = post; path = "/torrents/" <> hash <> "/reannounce"; body = none };
  stale = [];
}

unfoldable pub use_set_torrent_category : String → String → Mutation
use_set_torrent_category hash category = record {
  request = record {
    method = put;
    path = "/torrents/" <> hash <> "/category";
    body = some (("category", text category) ∷ []);
  };
  stale = (part "torrents" ∷ []) ∷ [];
}

unfoldable pub use_add_torrent_tags : String → List String → Mutation
use_add_torrent_tags hash tags = record {
  request = record {
    method = post;
    path = "/torrents/" <> hash <> "/tags";
    body = some (("tags", texts tags) ∷ []);
  };
  stale = (part "torrents" ∷ []) ∷ [];
}

unfoldable pub use_remove_torrent_tags : String → List String → Mutation
use_remove_torrent_tags hash tags = record {
  request = record {
    method = delete;
    path = "/torrents/" <> hash <> "/tags";
    body = some (("tags", texts tags) ∷ []);
  };
  stale = (part "torrents" ∷ []) ∷ [];
}

unfoldable pub use_research_torrent : String → Mutation
use_research_torrent hash = record {
  request = record { method = post; path = "/torrents/" <> hash <> "/research"; body = none };
  stale = (part "torrents" ∷ []) ∷ (part "activity" ∷ []) ∷ [];
}

unfoldable pub use_set_torrent_location : String → String → Mutation
use_set_torrent_location hash path = record {
  request = record {
    method = put;
    path = "/torrents/" <> hash <> "/location";
    body = some (("path", text path) ∷ []);
  };
  stale = (part "torrents" ∷ []) ∷ [];
}

unfoldable pub use_remove_tracker : (String → String) → String → String → Mutation
use_remove_tracker encode hash url = record {
  request = record {
    method = delete;
    path = "/torrents/" <> hash <> "/trackers?url=" <> encode url;
    body = none;
  };
  stale = (part "torrents" ∷ part hash ∷ part "trackers" ∷ []) ∷ [];
}

-- An optional field of a body that is left out when it is undefined.
abbrev pub optional : {A : Type 0} → String → (A → Json) → Option A → List (String × Json)
optional name json none = []
optional name json (some v) = (name, json v) ∷ []

pub record AddBody : Type 0 where
  pub uri : String
  pub category : Option String
  pub save_path : Option String
  pub paused : Option Bool

unfoldable pub use_add_torrent : AddBody → Mutation
use_add_torrent body = record {
  request = record {
    method = post;
    path = "/torrents";
    body = some (
        ("uri", text body.uri) ∷ optional "category" text body.category
        ++ (optional "save_path" text body.save_path ++ optional "paused" flag body.paused));
  };
  stale = (part "torrents" ∷ []) ∷ [];
}

unfoldable pub use_reorder_torrents : List String → Mutation
use_reorder_torrents order = record {
  request = record {
    method = put;
    path = "/torrents/reorder";
    body = some (("order", texts order) ∷ []);
  };
  stale = (part "torrents" ∷ []) ∷ [];
}
