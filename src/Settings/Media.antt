-- ===== src/Settings/Media.antt =====
-- web/ui/src/pages/media-management/MediaManagementPage.tsx: the preview of a file name, and when
-- the renaming is active. Texts that are searched are lists of code units.
use haul.Base.{
  ℕ, zero, suc, ◌-◌, ◌≡◌, ◌≢◌, refl, ◌∙◌, ap, Bool, true, false, not, ◌&&◌, ◌||◌, Option, none,
  some, List, [], ◌∷◌, ◌++◌, length, if◌then◌else◌, String, truthy?, ◌==◌, All, arith, code_units,
}
use haul.Settings.{SettingsMap, lookup, get_bool}
use haul.Settings.Fields.{Control, text_field, choice}

unfoldable pub starts_with : List ℕ → List ℕ → Bool
starts_with [] text = true
starts_with (c ∷ cs) [] = false
starts_with (c ∷ cs) (d ∷ ds) = let rest = starts_with cs ds in c == d && rest

-- `text.split(token).join(value)`, for a token that is not empty: the occurrences from left to
-- right, where the first argument counts the units of an occurrence that are still to be passed.
unfoldable pub replace_from : ℕ → List ℕ → List ℕ → List ℕ → List ℕ
unfolding starts_with
replace_from passing token value [] = []
replace_from (suc passing) token value (c ∷ text) = replace_from passing token value text
replace_from zero token value (c ∷ text) =
    let inside = replace_from (length token - 1) token value text in
    let outside = replace_from zero token value text in
    if starts_with token (c ∷ text) then value ++ inside else c ∷ outside

abbrev pub Tokens : Type 0
Tokens = List (List ℕ × List ℕ)

unfoldable pub episode_tokens : Tokens
episode_tokens =
    (code_units "{Series Title}", code_units "Breaking Bad")
    ∷ (code_units "{Series CleanTitle}", code_units "Breaking Bad")
    ∷ (code_units "{Release Year}", code_units "2008")
    ∷ (code_units "{Year}", code_units "2008")
    ∷ (code_units "{Season:00}", code_units "01")
    ∷ (code_units "{season:00}", code_units "01")
    ∷ (code_units "{Episode:00}", code_units "04")
    ∷ (code_units "{episode:00}", code_units "04")
    ∷ (code_units "{Episode Title}", code_units "Cancer Man")
    ∷ (code_units "{Quality Full}", code_units "Bluray-1080p")
    ∷ (code_units "{MediaInfo VideoCodec}", code_units "x265")
    ∷ []

unfoldable pub movie_tokens : Tokens
movie_tokens =
    (code_units "{Movie Title}", code_units "Fight Club")
    ∷ (code_units "{Movie CleanTitle}", code_units "Fight Club")
    ∷ (code_units "{Release Year}", code_units "1999")
    ∷ (code_units "{Year}", code_units "1999")
    ∷ (code_units "{Quality Full}", code_units "Remux-2160p")
    ∷ (code_units "{MediaInfo VideoCodec}", code_units "x265")
    ∷ []

-- The loop over the entries.
unfoldable pub substitute : Tokens → List ℕ → List ℕ
unfolding replace_from
substitute [] preview = preview
substitute ((token, value) ∷ tokens) preview =
    substitute tokens (replace_from zero token value preview)

-- `{preview}.mkv`
unfoldable pub format_preview : Tokens → List ℕ → List ℕ
unfolding substitute
format_preview tokens format = substitute tokens format ++ code_units ".mkv"

-- `!!peers?.[name]`, of the services' addresses.
abbrev pub connected : String → Option SettingsMap → Bool
connected name none = false
connected name (some peers) = truthy? (lookup name peers)

unfoldable pub arr_connected : Option SettingsMap → Bool
arr_connected peers = connected "pilot" peers || connected "prism" peers

unfoldable pub arr_names : Option SettingsMap → List String
arr_names peers =
    (if connected "pilot" peers then "Pilot" ∷ [] else [])
    ++ (if connected "prism" peers then "Prism" ∷ [] else [])

unfoldable pub rename_active : Option SettingsMap → SettingsMap → Bool
unfolding arr_connected
rename_active peers form = get_bool "rename_on_complete" false form && not (arr_connected peers)

-- The switch at the top: what it shows, and whether it can be used.
unfoldable pub rename_switch : Option SettingsMap → SettingsMap → Bool × Bool
unfolding arr_connected
rename_switch peers form = (
  get_bool "rename_on_complete" false form && not (arr_connected peers),
  not (arr_connected peers),
)

-- The controls of the cards below it.
abbrev pub media_controls : List Control
media_controls =
    text_field "Episode Format" "episode_format"
      "{Series Title} - S{Season:00}E{Episode:00} - {Episode Title} {Quality Full}"
    ∷ text_field "Series Folder Format" "series_folder_format" "{Series Title} ({Release Year})"
    ∷ text_field "Season Folder Format" "season_folder_format" "Season {Season:00}"
    ∷ text_field "Movie Format" "movie_format" "{Movie Title} ({Release Year}) {Quality Full}"
    ∷ text_field "Movie Folder Format" "movie_folder_format" "{Movie Title} ({Release Year})"
    ∷ choice "Colon Replacement" "colon_replacement" "space-dash"
        ("space-dash" ∷ "dash" ∷ "delete" ∷ [])
    ∷ []

-- A token whose first unit does not occur in a text is not found in it.
replace_from-absent :
    (c : ℕ) (token value text : List ℕ)
    → All (λ d. d ≢ c) text
    → replace_from zero (c ∷ token) value text ≡ text
unfolding replace_from
replace_from-absent c token value [] h = refl
replace_from-absent c token value (d ∷ text) h =
    ground (arith, replace_from-absent c token value text h.1)

-- Every token begins with an opening brace.
Braced : Tokens → Type 0
Braced [] = Unit
Braced ((token, value) ∷ tokens) = ((rest : List ℕ) × (token ≡ b'{' ∷ rest)) × Braced tokens

substitute-plain :
    (tokens : Tokens) (text : List ℕ)
    → Braced tokens
    → All (λ d. d ≢ b'{') text
    → substitute tokens text ≡ text
unfolding substitute Braced
substitute-plain [] text b h = refl
substitute-plain ((token, value) ∷ tokens) text b h =
    let e : replace_from zero token value text ≡ text =
      ap (λ t. replace_from zero t value text) b.0.1
      ∙ replace_from-absent b'{' b.0.0 value text h in
    ap (substitute tokens) e ∙ substitute-plain tokens text b.1 h

episode_tokens-Braced : Braced episode_tokens
unfolding Braced episode_tokens
episode_tokens-Braced = (
  (_, refl),
  (
    (_, refl),
    (
      (_, refl),
      (
        (_, refl),
        (
          (_, refl),
          ((_, refl), ((_, refl), ((_, refl), ((_, refl), ((_, refl), ((_, refl), tt)))))),
        ),
      ),
    ),
  ),
)

movie_tokens-Braced : Braced movie_tokens
unfolding Braced movie_tokens
movie_tokens-Braced =
    ((_, refl), ((_, refl), ((_, refl), ((_, refl), ((_, refl), ((_, refl), tt))))))

-- A format with no opening brace is previewed as it is, for episodes and for films.
pub format_preview-plain :
    (format : List ℕ)
    → All (λ d. d ≢ b'{') format
    → (format_preview episode_tokens format ≡ format ++ code_units ".mkv")
      × (format_preview movie_tokens format ≡ format ++ code_units ".mkv")
unfolding format_preview Braced episode_tokens movie_tokens
format_preview-plain format h = (
  ap (λ t. t ++ code_units ".mkv") (substitute-plain episode_tokens format episode_tokens-Braced h),
  ap (λ t. t ++ code_units ".mkv") (substitute-plain movie_tokens format movie_tokens-Braced h),
)
