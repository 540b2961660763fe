-- ===== src/Detail/Adding.antt =====
-- The form that adds trackers: the lines that are sent, and when the button sends something.
use Prim.Native.Char.{Char, code}
use text.Mathlib.TextLemmas.{nil-append, cons-append}
use haul.Base.{
  ◌≡◌, refl, sym, ap, ◌∙◌, Bool, true, false, not, ◌||◌, ◌&&◌, ◌==◌, arith, if-true, if-false,
  Bool-cases, inl, inr, none, some, List, [], ◌∷◌, All, any, keep, map, String, ◌<>◌, truthy,
  truthy-cons, str_eq, if◌then◌else◌,
}
use haul.Api.Torrents.{use_add_trackers}
use haul.Detail.Trackers.{
  is_space, trim_start, trim_end, trim, in_first, split_lines, tracker_urls, AddForm, is_pending,
  add_disabled, send_urls, handle_add,
}

abbrev newline_free : String → Bool
newline_free String.[] = true
newline_free (String.◌∷◌ c s) = not (code c == 10) && newline_free s

-- The parts of a text without a newline.
newline_free_parts : (b d : Bool) → (not b && d) ≡ true → (b ≡ false) × (d ≡ true)
newline_free_parts b d h = ground arith

newline-is_space : (c : Char) → code c == 10 ≡ true → is_space c ≡ true
newline-is_space c e = ground arith

-- A text that stands on a line of its own and is not changed by trimming.
abbrev pub IsLine : String → Type 0
IsLine u = (truthy u ≡ true) × (newline_free u ≡ true) × (trim u ≡ u)

abbrev pub join_lines : List String → String
join_lines [] = ""
join_lines (u ∷ []) = u
join_lines (u ∷ v ∷ us) = u <> "\n" <> join_lines (v ∷ us)

split_lines_one : (u : String) → newline_free u ≡ true → split_lines u ≡ u ∷ []
unfolding split_lines in_first
split_lines_one String.[] h = refl
split_lines_one (String.◌∷◌ c s) h =
    let p = newline_free_parts (code c == 10) (newline_free s) h in
    rw (p.0, split_lines_one s p.1) refl

newline-append : (rest : String) → split_lines ("\n" <> rest) ≡ "" ∷ split_lines rest
unfolding split_lines
newline-append rest = rw (cons-append "\n" "" rest, nil-append rest) refl

split_lines-join :
    (u rest : String)
    → newline_free u ≡ true
    → split_lines (u <> "\n" <> rest) ≡ u ∷ split_lines rest
unfolding split_lines in_first
split_lines-join String.[] rest h = rw (nil-append ("\n" <> rest), newline-append rest) refl
split_lines-join (String.◌∷◌ c s) rest h =
    let p = newline_free_parts (code c == 10) (newline_free s) h in
    rw (cons-append c s ("\n" <> rest), p.0, split_lines-join s rest p.1) refl

keep_trimmed :
    (u : String) (ls : List String)
    → IsLine u
    → keep truthy (map trim (u ∷ ls)) ≡ u ∷ keep truthy (map trim ls)
keep_trimmed u ls h = rw (h.2, h.0) refl

no_lines : tracker_urls "" ≡ []
unfolding tracker_urls split_lines trim trim_end trim_start
no_lines = refl

-- The texts of a list, each on a line, are read back.
pub tracker_urls-join_lines :
    (urls : List String) → All IsLine urls → tracker_urls (join_lines urls) ≡ urls
unfolding tracker_urls
tracker_urls-join_lines [] h = no_lines
tracker_urls-join_lines (u ∷ []) h = rw (split_lines_one u h.0.1) (keep_trimmed u [] h.0)
tracker_urls-join_lines (u ∷ v ∷ us) h =
    let ih = tracker_urls-join_lines (v ∷ us) h.1 in
    rw (split_lines-join u (join_lines (v ∷ us)) h.0.1) (keep_trimmed u _ h.0 ∙ ap (λ x. u ∷ x) ih)

-- Whether a text has a character that is no white space.
abbrev visible : String → Bool
visible String.[] = false
visible (String.◌∷◌ c s) = not (is_space c) || visible s

visible-trim_start : (s : String) → visible (trim_start s) ≡ visible s
unfolding trim_start
visible-trim_start String.[] = refl
visible-trim_start (String.◌∷◌ c s) = elim (Bool-cases (is_space c)) [
  | inl e ↦ rw e (visible-trim_start s)
  | inr e ↦ rw e (rw e refl)
]

truthy-trim_end : (s : String) → truthy (trim_end s) ≡ visible s
unfolding trim_end
truthy-trim_end String.[] = refl
truthy-trim_end (String.◌∷◌ c s) =
    let ih = truthy-trim_end s in
    elim (Bool-cases (is_space c)) [
      | inl e ↦ elim (Bool-cases (str_eq (trim_end s) "")) [
        | inl d ↦ rw (e, d) (sym (ap not d) ∙ ih)
        | inr d ↦ rw (e, d, truthy-cons c (trim_end s)) (sym (ap not d) ∙ ih)
      ]
      | inr e ↦ rw (e, truthy-cons c (trim_end s)) refl
    ]

truthy-trim : (s : String) → truthy (trim s) ≡ visible s
unfolding trim
truthy-trim s = truthy-trim_end (trim_start s) ∙ visible-trim_start s

any-in_first :
    (c : Char) (ls : List String)
    → any visible (in_first c ls) ≡ (not (is_space c) || any visible ls)
unfolding in_first
any-in_first c [] = ground arith
any-in_first c (l ∷ ls) = ground arith

any-split_lines : (s : String) → any visible (split_lines s) ≡ visible s
unfolding split_lines
any-split_lines String.[] = refl
any-split_lines (String.◌∷◌ c s) =
    let ih = any-split_lines s in
    elim (Bool-cases (code c == 10)) [
      | inl e ↦ rw (e, newline-is_space c e) ih
      | inr e ↦ rw e (any-in_first c (split_lines s) ∙ ap (λ b. not (is_space c) || b) ih)
    ]

any-keep-trim :
    (ls : List String) → any (λ (u : String). true) (keep truthy (map trim ls)) ≡ any visible ls
any-keep-trim [] = refl
any-keep-trim (l ∷ ls) = elim (Bool-cases (visible l)) [
  | inl e ↦ rw (truthy-trim l, e) refl
  | inr e ↦ rw (truthy-trim l, e) (any-keep-trim ls)
]

-- The lines of a text are not all blank exactly when the text has a visible character.
any-tracker_urls :
    (text : String) → any (λ (u : String). true) (tracker_urls text) ≡ truthy (trim text)
unfolding tracker_urls
any-tracker_urls text =
    any-keep-trim (split_lines text) ∙ any-split_lines text ∙ sym (truthy-trim text)

send_urls_lem :
    (hash : String) (f : AddForm) (urls : List String)
    → (send_urls hash f urls).1
      ≡ (if any (λ (u : String). true) urls then some (use_add_trackers hash urls) else none)
unfolding send_urls
send_urls_lem hash f [] = refl
send_urls_lem hash f (u ∷ us) = refl

-- While no request is under way, a click on Add sends all the lines of the text that are not blank,
-- trimmed, unless the button is disabled; it is disabled exactly when there is no such line.
pub handle_add_lem :
    (hash : String) (f : AddForm)
    → is_pending f ≡ false
    → ((handle_add hash f).1
        ≡ (if add_disabled f then none else some (use_add_trackers hash (tracker_urls f.text))))
      × (any (λ (u : String). true) (tracker_urls f.text) ≡ not (add_disabled f))
unfolding handle_add add_disabled
handle_add_lem hash f h =
    let p = any-tracker_urls f.text in
    let q = send_urls_lem hash f (tracker_urls f.text) in
    elim (Bool-cases (truthy (trim f.text))) [
      | inl e ↦ rw (h, e) (q ∙ if-true _ _ _ (p ∙ e), p ∙ e)
      | inr e ↦ rw (h, e) (q ∙ if-false _ _ _ (p ∙ e), p ∙ e)
    ]
