-- ===== src/Dashboard/Filters.antt =====
-- The filters: what is listed, how badges and pills agree, and what a click on a pill does.
use mathlib.Core.List.{Perm}
use mathlib.Core.List.Perm
use mathlib.Core.Path.{fun_ext}
use text.Mathlib.TextEquality.{eq_iff}
use haul.Base.{
  ◌≡◌, ◌≢◌, ◌↔◌, ◌⊎◌, refl, ap, Bool, true, false, ◌&&◌, ◌||◌, not, Option, none, some, List, [],
  ◌∷◌, ◌++◌, ltb, ◌==◌, if◌then◌else◌, any, keep, length, any-keep-false, keep-keep, String, truthy,
  truthy?, arith, Bool-cases, inl, inr,
}
use haul.Torrents.{TorrentInfo, VisualKey, torrent_visual}
use haul.Dashboard.{
  StatusFilter, active, downloading, seeding, completed, paused, stalled, failed, queued,
  same_filter, matches_status, Platform, View, has_text, has_tag, filtered, passing, arranged,
  manual, SortField, sort_torrents, apply_order, is_manual, remove_filter, toggle_specific,
  toggle_status,
}
use haul.Dashboard.Sorting.{sort_by-perm, sort_torrents-perm}

-- A row's badge reads "Stalled" exactly when the row is listed under the Stalled pill.
pub torrent_visual-stalled_iff :
    (t : TorrentInfo)
    → ((torrent_visual t).key ≡ VisualKey.stalled) ↔ (matches_status t stalled ≡ true)
unfolding torrent_visual matches_status
torrent_visual-stalled_iff t = ground arith

-- The statuses that the backend sends.
abbrev pub IsKnown : String → Type 0
IsKnown s =
    (s ≡ "downloading")
    ⊎ (s ≡ "seeding")
    ⊎ (s ≡ "completed")
    ⊎ (s ≡ "paused")
    ⊎ (s ≡ "queued")
    ⊎ (s ≡ "failed")

-- The pill with the name of a badge.
abbrev pub pill_of : VisualKey → StatusFilter
pill_of VisualKey.downloading = downloading
pill_of VisualKey.stalled = stalled
pill_of VisualKey.seeding = seeding
pill_of VisualKey.completed = completed
pill_of VisualKey.paused = paused
pill_of VisualKey.queued = queued
pill_of VisualKey.failed = failed

-- A torrent with a known status is listed under the pill that its badge names.
pub matches_status-pill_of :
    (t : TorrentInfo) → IsKnown t.status → matches_status t (pill_of (torrent_visual t).key) ≡ true
unfolding torrent_visual matches_status
matches_status-pill_of t h = ground (
  arith,
  eq_iff t.status "downloading",
  eq_iff t.status "seeding",
  eq_iff t.status "completed",
  eq_iff t.status "paused",
  eq_iff t.status "queued",
  eq_iff t.status "failed",
)

-- Every torrent is listed under Active, Completed or Stalled.
pub matches_status_cover :
    (t : TorrentInfo)
    → (matches_status t active || matches_status t completed || matches_status t stalled) ≡ true
unfolding matches_status
matches_status_cover t = ground arith

-- A torrent that the stall watcher has marked is listed under Stalled, and not under Active,
-- Downloading or Paused, whatever its status.
pub matches_status_marked :
    (t : TorrentInfo)
    → truthy? t.stalled_at ≡ true
    → (matches_status t active ≡ false)
      × (matches_status t downloading ≡ false)
      × (matches_status t paused ≡ false)
      × (matches_status t stalled ≡ true)
unfolding matches_status
matches_status_marked t h = ground arith

-- The states of the pills that clicks can reach: Active alone, or other pills, each once.
abbrev pub Lacks : StatusFilter → List StatusFilter → Type 0
Lacks key filters = any (same_filter key) filters ≡ false

abbrev pub Distinct : List StatusFilter → Type 0
Distinct [] = Unit
Distinct (f ∷ fs) = Lacks f fs × Distinct fs

abbrev pub IsSelection : List StatusFilter → Type 0
IsSelection filters =
    (filters ≡ active ∷ []) ⊎ ((filters ≢ []) × Lacks active filters × Distinct filters)

remove-Lacks :
    (key f : StatusFilter) (fs : List StatusFilter) → Lacks f fs → Lacks f (remove_filter key fs)
remove-Lacks key f fs h = any-keep-false (same_filter f) (λ g. not (same_filter g key)) fs h

remove_Lacks_self : (key : StatusFilter) (fs : List StatusFilter) → Lacks key (remove_filter key fs)
remove_Lacks_self key [] = refl
remove_Lacks_self key (g ∷ gs) = ground (arith, remove_Lacks_self key gs)

remove-Distinct :
    (key : StatusFilter) (fs : List StatusFilter) → Distinct fs → Distinct (remove_filter key fs)
remove-Distinct key [] d = tt
remove-Distinct key (g ∷ gs) d =
    let ih = remove-Distinct key gs d.1 in
    let fresh = remove-Lacks key g gs d.0 in
    elim (Bool-cases (not (same_filter g key))) [ inl e ↦ rw e (fresh, ih) | inr e ↦ rw e ih ]

snoc-Lacks :
    (f key : StatusFilter) (fs : List StatusFilter)
    → Lacks f fs
    → same_filter f key ≡ false
    → Lacks f (fs ++ (key ∷ []))
snoc-Lacks f key [] h e = ground arith
snoc-Lacks f key (g ∷ gs) h e = ground (arith, snoc-Lacks f key gs)

snoc-Distinct :
    (key : StatusFilter) (fs : List StatusFilter)
    → Lacks key fs
    → Distinct fs
    → Distinct (fs ++ (key ∷ []))
snoc-Distinct key [] h d = (refl, tt)
snoc-Distinct key (g ∷ gs) h d =
    (snoc-Lacks g key gs d.0 (ground arith), snoc-Distinct key gs (ground arith) d.1)

settle_lem :
    (fs : List StatusFilter)
    → Lacks active fs
    → Distinct fs
    → IsSelection (if length fs == 0 then active ∷ [] else fs)
settle_lem [] a d = inl refl
settle_lem (f ∷ fs) a d =
    let some_left : (length (f ∷ fs) == 0) ≡ false = ground arith in
    rw some_left (inr (λ e. cc, a, d))

IsSelection-Distinct : (fs : List StatusFilter) → IsSelection fs → Distinct fs
IsSelection-Distinct fs (inl e) = rw e (refl, tt)
IsSelection-Distinct fs (inr h) = h.2

toggle_specific-IsSelection :
    (key : StatusFilter) (prev : List StatusFilter)
    → same_filter key active ≡ false
    → Distinct prev
    → IsSelection (toggle_specific key prev)
unfolding toggle_specific
toggle_specific-IsSelection key prev other d =
    let next : List StatusFilter = remove_filter active prev in
    let lacks = remove_Lacks_self active prev in
    let distinct = remove-Distinct active prev d in
    elim (Bool-cases (any (same_filter key) next)) [
      | inl e ↦ rw e (
          settle_lem (remove_filter key next) (remove-Lacks key active next lacks)
            (remove-Distinct key next distinct))
      | inr e ↦ rw e (
          settle_lem (next ++ (key ∷ [])) (snoc-Lacks active key next lacks (ground arith))
            (snoc-Distinct key next e distinct))
    ]

-- Every click on a pill keeps the selection well formed: it is Active alone, or a non-empty set of
-- other pills without repetition.
pub toggle_status-IsSelection :
    (key : StatusFilter) (prev : List StatusFilter)
    → IsSelection prev
    → IsSelection (toggle_status key prev)
unfolding toggle_status
toggle_status-IsSelection key prev h = elim (Bool-cases (same_filter key active)) [
  | inl e ↦ rw e (inl refl)
  | inr e ↦ rw e (toggle_specific-IsSelection key prev e (IsSelection-Distinct prev h))
]

-- The conditions of all filters together.
abbrev pub passes : Platform → View → TorrentInfo → Bool
passes js v t =
    ((any (matches_status t) v.status_filters
        && (if ltb 0 (length v.category_filters)
            then has_text v.category_filters t.category
            else true))
      && (if ltb 0 (length v.tag_filters) then has_tag v.tag_filters t.tags else true))
    && (if truthy v.search then js.includes (js.lower t.name) (js.lower v.search) else true)

-- A filter that may be switched off.
keep-if {ℓ} :
    {A : Type ℓ} (on : Bool) (p q : A → Bool) (xs : List A)
    → (if on then keep p (keep q xs) else keep q xs)
      ≡ keep (λ x. q x && (if on then p x else true)) xs
keep-if true p q xs = keep-keep p q xs
keep-if false p q xs = ap (λ f. keep f xs) (fun_ext (λ x. ground arith))

keep-chain {ℓ} :
    {A : Type ℓ} (a b c : Bool) (p pa pb pc : A → Bool) (xs : List A)
    → (let x1 = if a then keep pa (keep p xs) else keep p xs in
        let x2 = if b then keep pb x1 else x1 in if c then keep pc x2 else x2)
      ≡ keep
          (λ x.
            ((p x && (if a then pa x else true)) && (if b then pb x else true))
            && (if c then pc x else true))
          xs
keep-chain a b c p pa pb pc xs = rw (
  keep-if a pa p xs,
  keep-if b pb (λ x. p x && (if a then pa x else true)) xs,
  keep-if c pc (λ x. (p x && (if a then pa x else true)) && (if b then pb x else true)) xs,
)

passing-eq :
    (js : Platform) (v : View) (torrents : List TorrentInfo)
    → passing js v torrents ≡ keep (passes js v) torrents
unfolding passing
passing-eq js v torrents =
    keep-chain (ltb 0 (length v.category_filters)) (ltb 0 (length v.tag_filters)) (truthy v.search)
      (λ t. any (matches_status t) v.status_filters) (λ t. has_text v.category_filters t.category)
      (λ t. has_tag v.tag_filters t.tags) (λ t. js.includes (js.lower t.name) (js.lower v.search))
      torrents

arranged-perm :
    (js : Platform) (field : SortField) (order : Option (List String)) (xs : List TorrentInfo)
    → Perm (arranged js field order xs) xs
unfolding arranged apply_order
arranged-perm js field none xs = Perm.refl xs
arranged-perm js field (some order) xs = elim (Bool-cases (is_manual field)) [
  | inl e ↦ rw e (sort_by-perm _ xs)
  | inr e ↦ rw e (Perm.refl xs)
]

-- The listed torrents are, up to order, exactly those that pass the status, category, tag and
-- search filters together.
pub filtered-perm :
    (js : Platform) (v : View) (torrents : List TorrentInfo)
    → Perm (filtered js v torrents) (keep (passes js v) torrents)
unfolding filtered
filtered-perm js v torrents = rw (← passing-eq js v torrents) (
    Perm.trans (arranged-perm js v.sort_field v.local_order _)
      (sort_torrents-perm js (passing js v torrents) v.sort_field))

-- In the manual order and with no drag pending, the torrents that pass the filters are listed in
-- the server's order.
pub filtered_manual :
    (js : Platform) (v : View) (torrents : List TorrentInfo)
    → v.sort_field ≡ manual
    → v.local_order ≡ none
    → filtered js v torrents ≡ keep (passes js v) torrents
unfolding filtered sort_torrents arranged
filtered_manual js v torrents m d = rw (m, d, passing-eq)
