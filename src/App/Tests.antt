-- ===== src/App/Tests.antt =====
-- A matching of paths by their parts, and the links for a torrent.
use Prim.Native.Char.{Char, code}
use text.Mathlib.TextPositions.{eq_refl}
use text.Mathlib.TextLemmas.{nil-append, cons-append}
use haul.Base.{
  ◌≡◌, refl, ap, ◌∙◌, Bool, true, false, not, ◌&&◌, ◌==◌, arith, All, List, [], ◌∷◌, map, keep,
  String, ◌<>◌, truthy, str_eq, if◌then◌else◌,
}
use haul.App.{
  torrent_detail, Segment, fixed, param, segment_text, address, slash_free, Router, route, links,
}
use haul.App.Links.{links-matches}

abbrev in_first : Char → List String → List String
in_first c [] = String.◌∷◌ c "" ∷ []
in_first c (s ∷ rest) = String.◌∷◌ c s ∷ rest

abbrev split_slashes : String → List String
split_slashes String.[] = "" ∷ []
split_slashes (String.◌∷◌ c s) =
    let rest = split_slashes s in if code c == b'/' then "" ∷ rest else in_first c rest

free_parts : (b d : Bool) → (not b && d) ≡ true → (b ≡ false) × (d ≡ true)
free_parts b d h = ground arith

split_slashes_one : (u : String) → slash_free u ≡ true → split_slashes u ≡ u ∷ []
split_slashes_one String.[] h = refl
split_slashes_one (String.◌∷◌ c s) h =
    let p = free_parts (code c == b'/') (slash_free s) h in rw (p.0, split_slashes_one s p.1) refl

slash-append : (rest : String) → split_slashes ("/" <> rest) ≡ "" ∷ split_slashes rest
slash-append rest = rw (cons-append "/" "" rest, nil-append rest) refl

split_slashes-append :
    (u rest : String)
    → slash_free u ≡ true
    → split_slashes (u <> ("/" <> rest)) ≡ u ∷ split_slashes rest
split_slashes-append String.[] rest h = rw (nil-append ("/" <> rest)) (slash-append rest)
split_slashes-append (String.◌∷◌ c s) rest h =
    let p = free_parts (code c == b'/') (slash_free s) h in
    rw (cons-append c s ("/" <> rest), p.0, split_slashes-append s rest p.1) refl

and_parts : (b d : Bool) → (b && d) ≡ true → (b ≡ true) × (d ≡ true)
and_parts b d h = ground arith

abbrev Fits : (String → String) → Segment → Type 0
Fits values s = (truthy (segment_text values s) && slash_free (segment_text values s)) ≡ true

abbrev parts : String → List String
parts to = keep truthy (split_slashes to)

parts-slash :
    (u rest : String)
    → (truthy u && slash_free u) ≡ true
    → parts ("/" <> (u <> ("/" <> rest))) ≡ u ∷ parts ("/" <> rest)
parts-slash u rest h =
    let p = and_parts (truthy u) (slash_free u) h in
    rw (slash-append (u <> ("/" <> rest)), slash-append rest, split_slashes-append u rest p.1, p.0)
      refl

parts-address :
    (values : String → String) (path : List Segment)
    → All (Fits values) path
    → parts (address values path) ≡ map (segment_text values) path
parts-address values [] h = refl
parts-address values (s ∷ []) h =
    let u = segment_text values s in
    let p = and_parts (truthy u) (slash_free u) h.0 in
    rw (slash-append u, split_slashes_one u p.1, p.0) refl
parts-address values (s ∷ t ∷ []) h =
    parts-slash (segment_text values s) (segment_text values t) h.0
    ∙ ap (λ l. segment_text values s ∷ l) (parts-address values (t ∷ []) h.1)
parts-address values (s ∷ t ∷ r ∷ path) h =
    parts-slash (segment_text values s) _ h.0
    ∙ ap (λ l. segment_text values s ∷ l) (parts-address values (t ∷ r ∷ path) h.1)

abbrev takes : List Segment → List String → Bool
takes [] [] = true
takes (fixed a ∷ path) (b ∷ rest) = let more = takes path rest in str_eq a b && more
takes (param name ∷ path) (b ∷ rest) = takes path rest
takes _ _ = false

takes-map :
    (values : String → String) (path : List Segment)
    → takes path (map (segment_text values) path) ≡ true
takes-map values [] = refl
takes-map values (fixed a ∷ path) = rw (eq_refl a) (takes-map values path)
takes-map values (param name ∷ path) = takes-map values path

takes-address :
    (values : String → String) (path : List Segment)
    → All (Fits values) path
    → takes path (parts (address values path)) ≡ true
takes-address values path h = ap (takes path) (parts-address values path h) ∙ takes-map values path

abbrev by_parts : Router
by_parts = record { matches = λ path to. takes path (parts to); matches-address = takes-address }

-- The detail page does not take the address of the list.
matches-run : by_parts.matches (route torrent_detail) "/" ≡ false
matches-run = refl

links-matches_example : All (λ l. by_parts.matches (route l.1) l.0 ≡ true) (links "ddf771b21e64")
links-matches_example = links-matches by_parts "ddf771b21e64" refl
