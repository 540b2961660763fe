-- ===== src/Timeline/Tests.antt =====
-- The page of a torrent's events on concrete data, with a stand-in for `URL` that has a scheme and a
-- host name.
use haul.Base.{
  ◌≡◌, refl, Bool, true, false, ◌&&◌, ◌||◌, Option, none, some, List, [], ◌∷◌, String, ◌<>◌, truthy,
  truthy?, str_eq, if◌then◌else◌,
}
use haul.Timeline.{
  entries, text, ActivityEvent, HistoryRecord, deep_link, Urls, looks_browser_resolvable, has_dot,
  strip_slash, browser_reachable_url, requester_badge, badge_label, notes,
}

abbrev hosts : Urls
hosts = record {
  Url = String;
  parse = λ s. some s;
  hostname = λ u. u;
  with_hostname = λ h u. h;
  to_text = λ u. "http://" <> u <> "/";
  is_hostname = λ h. true;
  hostname-with_hostname = λ h u p. refl;
}

abbrev nameless : ActivityEvent
nameless = record {
  id = 1;
  info_hash = "0123456789abcdef";
  event_type = "torrent_added";
  occurred_at = "2025-01-01T00:00:00Z";
  payload = some (entries (("name", text "") ∷ []));
}

abbrev episode_record : HistoryRecord
episode_record = record {
  info_hash = "0123456789abcdef";
  name = "";
  save_path = "/downloads";
  category = "tv";
  added_at = "2025-01-01T00:00:00Z";
  completed_at = none;
  removed_at = some "2025-01-03T00:00:00Z";
  requester = some "pilot";
  movie_id = none;
  series_id = some "s-1";
  episode_id = some "e-2";
  tmdb_id = none;
  season = some 2;
  episode = some 11;
}

abbrev services : List (String × String)
services = ("pilot", "ddf771b21e64") ∷ []

badge_of_episode :
    requester_badge hosts "haul.lan" (some services) episode_record
    ≡ some (record {
      label = "Open in Pilot";
      link = some "http://haul.lan/series/s-1/episodes/e-2";
      notes = "· S02E11" ∷ "· Series s-1" ∷ "· Episode e-2" ∷ [];
    })
unfolding requester_badge browser_reachable_url deep_link looks_browser_resolvable has_dot
    strip_slash badge_label notes haul.Base.show_nat haul.Base.first_chars
badge_of_episode = refl
