-- ===== src/Timeline/Laws.antt =====
-- The page of a torrent's events: its title, and the link back to the service that asked for it.
use haul.Base.{
  ℕ, suc, ◌≡◌, refl, ◌∙◌, arith, Bool, true, false, ◌&&◌, ◌||◌, Bool-cases, inl, inr, Option, none,
  some, List, String, truthy, truthy?, truthy-cons, str_eq, first_chars, if◌then◌else◌,
}
use haul.Torrents.{TorrentInfo}
use haul.Timeline.{
  ActivityEvent, HistoryRecord, field_of, or_else, header_name, name_from_events, text_or_empty,
  deep_link, Urls, looks_browser_resolvable, strip_slash, browser_reachable_url,
}

truthy-or_else : (o : Option String) (s : String) → truthy s ≡ true → truthy (or_else o s) ≡ true
truthy-or_else none s h = h
truthy-or_else (some t) s h = elim (Bool-cases (truthy t)) [
  | inl e ↦ rw (e, e) refl
  | inr e ↦ rw (e, h) refl
]

truthy-first_chars : (n : ℕ) (s : String) → truthy (first_chars (suc n) s) ≡ truthy s
unfolding first_chars
truthy-first_chars n String.[] = refl
truthy-first_chars n (String.◌∷◌ c s) = rw (truthy-cons c (first_chars n s), truthy-cons c s) refl

-- The page of a hash always has a title, whatever of the torrent, its record and its events is missing
-- or has an empty name.
pub truthy-header_name :
    (hash : String) (live : Option TorrentInfo) (history : Option HistoryRecord)
    (events : List ActivityEvent)
    → truthy hash ≡ true
    → truthy (header_name hash live history events) ≡ true
unfolding header_name
truthy-header_name hash live history events h =
    let events_name = or_else (name_from_events events) (first_chars 12 hash) in
    let p =
      truthy-or_else (name_from_events events) (first_chars 12 hash)
        (truthy-first_chars 11 hash ∙ h) in
    let record_name = field_of (λ (r : HistoryRecord). r.name) history in
    truthy-or_else (field_of (λ (t : TorrentInfo). t.name) live) (or_else record_name events_name)
      (truthy-or_else record_name events_name p)

abbrev pub is_some {ℓ} : {A : Type ℓ} → Option A → Bool
is_some none = false
is_some (some a) = true

-- There is a link exactly where the service has a base URL and the record names the service's own item.
pub deep_link-is_some :
    (base : Option String) (h : HistoryRecord)
    → is_some (deep_link base h) ≡ (
        truthy? base
        && ((str_eq (text_or_empty h.requester) "pilot" && truthy? h.series_id)
            || (str_eq (text_or_empty h.requester) "prism" && truthy? h.movie_id)))
unfolding deep_link
deep_link-is_some base h = ground arith

-- The base URL that is opened has a host that a browser can resolve, or the host of the page.
pub browser_reachable_url_lem :
    (js : Urls) (page : String) (raw : String) (u : js.Url)
    → js.is_hostname page ≡ true
    → truthy raw ≡ true
    → js.parse raw ≡ some u
    → (v : js.Url) × (browser_reachable_url js page (some raw) ≡ some (strip_slash (js.to_text v)))
      × (js.hostname v ≡ (if looks_browser_resolvable (js.hostname u) then js.hostname u else page))
unfolding browser_reachable_url
browser_reachable_url_lem js page raw u p h e =
    elim (Bool-cases (looks_browser_resolvable (js.hostname u))) [
      | inl d ↦ (u, rw (h, e, d) refl, rw d refl)
      | inr d ↦
          (js.with_hostname page u, rw (h, e, d) refl, rw d (js.hostname-with_hostname page u p))
    ]
