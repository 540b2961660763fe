-- ===== src/Sync/Laws.antt =====
-- What the views of torrents show is up to date or marked as stale.
use mathlib.Core.Bool.{false≢true}
use mathlib.Core.Path.{subst}
use haul.Base.{
  sym, any, ◌&&◌, ◌≡◌, refl, ap, ◌∙◌, Bool, true, false, not, String, List, [], ◌∷◌, ◌++◌, ◌⊎◌, inl,
  inr, ◌||◌, All, keep, Bool-cases, arith,
}
use haul.Api.Types.{Key}
use haul.Api.Cache.{
  Change, change, touched, View, view, view-matches, goes_stale, goes_stale-change,
}
use haul.Connection.{on_message}
use haul.Sync.{
  QueryCache, World, announced_keys, accept, announce, is_hit, deliver, ask, receive, Run, first,
  accepted, changed, told, delivered, asked, received, lost,
}
use haul.Sync.Paths.{path-view}

-- A list with an element taken out.
module _ {A : Type 0} where
  abbrev Some : (A → Type 0) → List A → Type 0
  Some P [] = ⊥
  Some P (x ∷ xs) = P x ⊎ Some P xs

  Some-append : (P : A → Type 0) (xs : List A) (x : A) → P x → Some P (xs ++ (x ∷ []))
  Some-append P [] x h = inl h
  Some-append P (y ∷ xs) x h = inr (Some-append P xs x h)

  Some-append_left : (P : A → Type 0) (xs ys : List A) → Some P xs → Some P (xs ++ ys)
  Some-append_left P [] ys h = elim h [ ]
  Some-append_left P (x ∷ xs) ys (inl h) = inl h
  Some-append_left P (x ∷ xs) ys (inr h) = inr (Some-append_left P xs ys h)

  -- What is left has it, or the element itself.
  Some-without :
      (P : A → Type 0) (xs : List A) (x : A) (ys : List A)
      → Some P (xs ++ (x ∷ ys))
      → P x ⊎ Some P (xs ++ ys)
  Some-without P [] x ys h = h
  Some-without P (y ∷ xs) x ys (inl h) = inr (inl h)
  Some-without P (y ∷ xs) x ys (inr h) = elim (Some-without P xs x ys h) [
    | inl e ↦ inl e
    | inr e ↦ inr (inr e)
  ]

  All-without :
      (P : A → Type 0) (xs : List A) (x : A) (ys : List A)
      → All P (xs ++ (x ∷ ys))
      → P x × All P (xs ++ ys)
  All-without P [] x ys h = h
  All-without P (y ∷ xs) x ys h = let rest = All-without P xs x ys h.1 in (rest.0, (h.0, rest.1))

  -- What is kept has what follows from being kept.
  All-keep :
      (P Q : A → Type 0) (p : A → Bool) (xs : List A)
      → ((x : A) → Q x → p x ≡ true → P x)
      → All Q xs
      → All P (keep p xs)
  All-keep P Q p [] f h = tt
  All-keep P Q p (x ∷ xs) f h = elim (Bool-cases (p x)) [
    | inl e ↦ rw e (f x h.0 e, All-keep P Q p xs f h.1)
    | inr e ↦ rw e (All-keep P Q p xs f h.1)
  ]

  All-mono : (P Q : A → Type 0) (xs : List A) → ((x : A) → P x → Q x) → All P xs → All Q xs
  All-mono P Q [] f h = tt
  All-mono P Q (x ∷ xs) f h = (f x h.0, All-mono P Q xs f h.1)

  -- What each element says of those with its own key holds of each and itself.
  All-own {ℓ} :
      {K : Type ℓ} (key : A → K) (R : A → A → Type 0) (xs : List A)
      → ((v : A) → All (λ x. key x ≡ key v → R v x) xs)
      → All (λ x. R x x) xs
  All-own key R [] h = tt
  All-own key R (x ∷ xs) h = ((h x).0 refl, All-own key R xs (λ v. (h v).1))

kept_hit : (hit c : Bool) → (hit ≡ true → c ≡ true) → not (hit && c) ≡ true → hit ≡ true → ⊥
kept_hit true true h k e = false≢true k
kept_hit true false h k e = false≢true (h refl)
kept_hit false c h k e = false≢true e

module _ {Server : Type 0} (qc : QueryCache) (answer : Server → String → String)
    (starts_with : String → String → Bool) where
  -- A view is marked as stale, or shows what the server answers.
  abbrev UpToDate : World qc answer starts_with → View → Type 0
  UpToDate w v =
      (qc.is_stale v w.cache ≡ true) ⊎ (qc.data_of v w.cache ≡ answer w.server (view v).path)

  -- A reply under way to the entry of a view has what the server answers now.
  abbrev Current : World qc answer starts_with → View → View × String → Type 0
  Current w v r = (view r.0).key ≡ (view v).key → r.1 ≡ answer w.server (view v).path

  abbrev Settled : World qc answer starts_with → View → Type 0
  Settled w v = UpToDate w v × All (Current w v) w.replies

  -- Keys that match a view.
  abbrev Hits : View → List Key → Type 0
  Hits v keys = is_hit qc answer starts_with keys v ≡ true

  is_hit-key :
      (keys : List Key) (v w : View)
      → (view v).key ≡ (view w).key
      → is_hit qc answer starts_with keys v ≡ is_hit qc answer starts_with keys w
  unfolding is_hit
  is_hit-key keys v w e = ap (λ x. any (λ k. qc.matching.matches k x) keys) e

  change-Hits : (c : Change) (v : View) → touched c v ≡ true → Hits v (change c).stale
  unfolding is_hit goes_stale
  change-Hits c v t = goes_stale-change qc.matching c v t

  announced_keys-Hits :
      (kind : String) (v : View)
      → starts_with kind "torrent_" ≡ true
      → Hits v (announced_keys qc answer starts_with kind)
  unfolding is_hit announced_keys on_message
  announced_keys-Hits kind v e =
      let h = view-matches qc.matching v in rw (e, announced_keys, on_message, h) refl

  deliver-Hits :
      (w : World qc answer starts_with) (v : View) (keys : List Key)
      → Hits v keys
      → All
          (λ r. is_hit qc answer starts_with keys r.0 ≡ true → qc.cancels r.0 w.cache ≡ true)
          w.replies
      → Settled (deliver qc answer starts_with keys w) v
  unfolding deliver is_hit
  deliver-Hits w v keys h all = (
    inl (qc.is_stale-invalidate v keys w.cache ∙ ap (λ b. b || qc.is_stale v w.cache) h),
    All-keep _ _ _ w.replies
        (λ r c k e. absurd (
          kept_hit (is_hit qc answer starts_with keys r.0) (qc.cancels r.0 w.cache) c k
            (is_hit-key keys r.0 v e ∙ h)))
        all,
  )

  deliver-Settled :
      (w : World qc answer starts_with) (v : View) (keys : List Key)
      → Settled w v
      → Settled (deliver qc answer starts_with keys w) v
  unfolding deliver is_hit
  deliver-Settled w v keys h = (
    elim h.0 [
      | inl e ↦ inl (qc.is_stale-invalidate v keys w.cache ∙ ground (arith, e))
      | inr e ↦ inr (qc.data_of-invalidate v keys w.cache ∙ e)
    ],
    All-keep (Current w v) (Current w v) _ w.replies (λ r c k. c) h.1,
  )

  receive-Settled :
      (w : World qc answer starts_with) (v : View) (r : View × String)
      → Settled w v
      → Current w v r
      → Settled (receive qc answer starts_with r w) v
  unfolding receive
  receive-Settled w v r h c = (
    elim (qc.kept r.0 v r.1 w.cache) [
      | inl same ↦ inr (qc.shared r.0 v r.1 w.cache same ∙ c same)
      | inr (mark, text) ↦ elim h.0 [ inl e ↦ inl (mark ∙ e) | inr e ↦ inr (text ∙ e) ]
    ],
    h.1,
  )

  abbrev Honest : World qc answer starts_with → View → Type 0
  Honest w v = Settled w v ⊎ Some (Hits v) w.inbox

  accept-Honest :
      (w : World qc answer starts_with) (c : Change) (next : Server) (v : View)
      → Honest w v
      → (touched c v ≡ false → answer next (view v).path ≡ answer w.server (view v).path)
      → Honest (accept qc answer starts_with c next w) v
  unfolding accept
  accept-Honest w c next v h same = elim (Bool-cases (touched c v)) [
    | inl t ↦ inr (Some-append (Hits v) w.inbox _ (change-Hits c v t))
    | inr u ↦ elim h [
      | inl s ↦ inl (
        elim s.0 [ inl e ↦ inl e | inr e ↦ inr (e ∙ sym (same u)) ],
        All-mono (Current w v) _ w.replies (λ r k e. k e ∙ sym (same u)) s.1,
      )
      | inr l ↦ inr (Some-append_left (Hits v) w.inbox _ l)
    ]
  ]

  Run-Honest :
      (w : World qc answer starts_with) (v : View) → Run qc answer starts_with w → Honest w v
  unfolding announce ask deliver receive
  Run-Honest _ v (first w empty r i) = inl (inl (empty v), rw r tt)
  Run-Honest _ v (accepted w c next r same) = accept-Honest w c next v (Run-Honest w v r) (same v)
  Run-Honest _ v (changed w kind next r e) =
      inr (Some-append (Hits v) w.inbox _ (announced_keys-Hits kind v e))
  Run-Honest _ v (told w kind r) = elim (Run-Honest w v r) [
    | inl s ↦ inl s
    | inr l ↦ inr (Some-append_left (Hits v) w.inbox _ l)
  ]
  Run-Honest _ v (delivered w earlier later keys r e all) =
      let next = record w { inbox = earlier ++ later } in
      elim (Run-Honest w v r) [
        | inl s ↦ inl (deliver-Settled next v keys s)
        | inr l ↦ elim (Some-without (Hits v) earlier keys later (rw e at l)) [
          | inl hits ↦ inl (deliver-Hits next v keys hits all)
          | inr rest ↦ inr rest
        ]
      ]
  Run-Honest _ v (asked w v' r) = elim (Run-Honest w v r) [
    | inl s ↦ inl (s.0, (λ e. ap (answer w.server) (path-view v' v e), s.1))
    | inr l ↦ inr l
  ]
  Run-Honest _ v (received w earlier later r run e) =
      let next = record w { replies = earlier ++ later } in
      elim (Run-Honest w v run) [
        | inl s ↦
            let a = All-without (Current w v) earlier r later (rw e at s.1) in
            inl (receive-Settled next v r (s.0, a.1) a.0)
        | inr l ↦ inr l
      ]
  Run-Honest _ v (lost w earlier later r run e) = elim (Run-Honest w v run) [
    | inl s ↦ inl (s.0, (All-without (Current w v) earlier r later (rw e at s.1)).1)
    | inr l ↦ inr l
  ]

  quiet-Settled :
      (w : World qc answer starts_with) (v : View)
      → Run qc answer starts_with w
      → w.inbox ≡ []
      → Settled w v
  quiet-Settled w v r i = elim (Run-Honest w v r) [
    | inl s ↦ s
    | inr l ↦ elim (subst (λ l. Some (Hits v) l) i l) [ ]
  ]

  -- Whatever changes of torrents or of their trackers are accepted or announced, and in whatever order
  -- requests, replies and messages arrive, as long as a change of trackers leaves the answers on all else
  -- as they are and each invalidation that arrives cancels the requests under way that it matches: once
  -- everything that announces a change has arrived, a view of torrents is marked as stale or shows what the
  -- server answers now, each reply that is still under way is what it answers now, and a reply to a request
  -- sent then takes the mark away and is shown.
  pub Run-UpToDate :
      (w : World qc answer starts_with) (v : View)
      → Run qc answer starts_with w
      → w.inbox ≡ []
      → let shown = receive qc answer starts_with (v, answer w.server (view v).path) w in
        ((qc.is_stale v w.cache ≡ true) ⊎ (qc.data_of v w.cache ≡ answer w.server (view v).path))
        × All (λ r. r.1 ≡ answer w.server (view r.0).path) w.replies
        × (ask qc answer starts_with v w).replies ≡ (v, answer w.server (view v).path) ∷ w.replies
        × (qc.is_stale v shown.cache ≡ false)
        × (qc.data_of v shown.cache ≡ answer w.server (view v).path)
  unfolding ask receive
  Run-UpToDate w v r i =
      let reply = answer w.server (view v).path in
      (
        (quiet-Settled w v r i).0,
        All-own (λ x. (view x.0).key) (λ u x. x.1 ≡ answer w.server (view u.0).path) w.replies
            (λ u. (quiet-Settled w u.0 r i).1),
        refl,
        qc.stored v reply _,
        qc.shared v v reply _ refl,
      )
