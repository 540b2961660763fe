-- ===== src/App/Links.antt =====
-- Every link leads to its page.
use text.Mathlib.TextLemmas.{append_assoc}
use haul.Base.{◌≡◌, refl, ◌∙◌, true, ◌&&◌, All, List, [], ◌∷◌, String, ◌<>◌, truthy}
use haul.App.{
  Page, torrent_list, torrent_detail, activity, activity_detail, categories, media_management,
  settings, diagnostics, cleanup_history, logs, route, segment_text, address, slash_free, Router,
  links, page_links, torrent_link, activity_link,
}

under_torrents : (rest : String) → torrent_link rest ≡ "/" <> ("torrents" <> ("/" <> rest))
under_torrents rest = append_assoc "/torrents" "/" rest ∙ append_assoc "/" "torrents" ("/" <> rest)

under_activity : (rest : String) → activity_link rest ≡ "/" <> ("activity" <> ("/" <> rest))
under_activity rest = append_assoc "/activity" "/" rest ∙ append_assoc "/" "activity" ("/" <> rest)

route_values :
    (hash : String) (p : Page)
    → (truthy hash && slash_free hash) ≡ true
    → All
        (λ s.
          (truthy (segment_text (λ name. hash) s) && slash_free (segment_text (λ name. hash) s))
          ≡ true)
        (route p)
route_values hash torrent_list h = tt
route_values hash torrent_detail h = (refl, (h, tt))
route_values hash activity h = (refl, tt)
route_values hash activity_detail h = (refl, (h, tt))
route_values hash categories h = (refl, tt)
route_values hash media_management h = (refl, tt)
route_values hash settings h = (refl, tt)
route_values hash diagnostics h = (refl, (refl, tt))
route_values hash cleanup_history h = (refl, (refl, tt))
route_values hash logs h = (refl, (refl, tt))

links-address : (hash : String) → All (λ l. l.0 ≡ address (λ name. hash) (route l.1)) (links hash)
unfolding links
links-address hash =
    let own : All (λ l. l.0 ≡ address (λ name. hash) (route l.1)) (page_links hash) =
      (under_torrents hash, (under_activity hash, (refl, (refl, (refl, (refl, (refl, tt))))))) in
    (refl, (refl, (refl, (refl, (refl, (refl, (refl, own)))))))

matches-All :
    (router : Router) (hash : String) (ls : List (String × Page))
    → (truthy hash && slash_free hash) ≡ true
    → All (λ l. l.0 ≡ address (λ name. hash) (route l.1)) ls
    → All (λ l. router.matches (route l.1) l.0 ≡ true) ls
matches-All router hash [] h e = tt
matches-All router hash (l ∷ ls) h e = (
  rw e.0 (router.matches-address (λ name. hash) (route l.1) (route_values hash l.1 h)),
  matches-All router hash ls h e.1,
)

-- Whatever torrent is shown, each link of the sidebar and of the pages has an address that the route
-- of the page that it is meant for takes.
pub links-matches :
    (router : Router) (hash : String)
    → (truthy hash && slash_free hash) ≡ true
    → All (λ l. router.matches (route l.1) l.0 ≡ true) (links hash)
links-matches router hash h = matches-All router hash (links hash) h (links-address hash)
