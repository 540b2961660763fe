-- ===== src/PieceBar/Loop.antt =====
-- The animation loop over many frames: it stops by itself, and never runs after the cleanup.
use haul.Base.{
  ℕ, ◌+◌, ◌≤◌, ◌≡◌, refl, Bool, true, false, ◌&&◌, not, List, [], ◌∷◌, ◌++◌, if◌then◌else◌, any,
  keep, arith, All, inl, inr, Bool-cases,
}
use haul.PieceBar.{
  ArrivalFlash, flash_duration_ms, Scene, Raf, run_frame, unmount, mount, is_active, some_partial,
}
use haul.PieceBar.Frames.{draw-flashes}

-- The browser at a list of times: it runs a frame if one is requested.
unfoldable pub frames : Scene → List ℕ → Raf → Raf
frames scene [] r = r
frames scene (t ∷ ts) r = frames scene ts (if r.requested then run_frame scene t r else r)

-- Every flash is over at a time.
abbrev pub Over : ℕ → List ArrivalFlash → Type 0
Over t fs = All (λ (f : ArrivalFlash). f.start + flash_duration_ms ≤ t) fs

Over-keep :
    (p : ArrivalFlash → Bool) (t : ℕ) (fs : List ArrivalFlash) → Over t fs → Over t (keep p fs)
Over-keep p t [] h = tt
Over-keep p t (f ∷ fs) h = elim (Bool-cases (p f)) [
  | inl e ↦ rw e (h.0, Over-keep p t fs h.1)
  | inr e ↦ rw e (Over-keep p t fs h.1)
]

keep_of_Over : (t : ℕ) (fs : List ArrivalFlash) → Over t fs → keep (is_active t) fs ≡ []
keep_of_Over t [] h = refl
keep_of_Over t (f ∷ fs) h = ground (arith, keep_of_Over t fs h.1)

any_of_Over : (t : ℕ) (fs : List ArrivalFlash) → Over t fs → any (is_active t) fs ≡ false
any_of_Over t [] h = refl
any_of_Over t (f ∷ fs) h = ground (arith, any_of_Over t fs h.1)

keep_of_any : (p : ArrivalFlash → Bool) (fs : List ArrivalFlash) → any p fs ≡ false → keep p fs ≡ []
keep_of_any p [] h = refl
keep_of_any p (f ∷ fs) h = ground (arith, keep_of_any p fs)

-- What holds between the frames of a scene with nothing left to shimmer.
record Settles (t : ℕ) (r : Raf) : Type 0 where
  mounted : r.running ≡ true
  over : Over t r.flashes
  stopped : r.requested ≡ false → r.flashes ≡ []

module _ (scene : Scene)
    (still : (not scene.reduced_motion && some_partial scene.columns) ≡ false) where
  run_frame-Settles : (t now : ℕ) (r : Raf) → Settles t r → Settles t (run_frame scene now r)
  unfolding run_frame
  run_frame-Settles t now r s =
      let d = draw-flashes scene now r.flashes in
      let k = keep_of_any (is_active now) r.flashes in
      simp s.mounted (record {
        mounted = refl;
        over = rw d.0 (elim (Bool-cases scene.reduced_motion) [
          | inl e ↦ rw e tt
          | inr e ↦ rw e (Over-keep (is_active now) t r.flashes s.over)
        ]);
        stopped = ground (arith, d.0, d.1, k);
      })

  run_frame-stops : (t : ℕ) (r : Raf) → Settles t r → (run_frame scene t r).requested ≡ false
  unfolding run_frame
  run_frame-stops t r s =
      ground (arith, (draw-flashes scene t r.flashes).1, any_of_Over t r.flashes s.over, s.mounted)

  round-Settles :
      (b : Bool) (t now : ℕ) (r : Raf)
      → Settles t r
      → Settles t (if b then run_frame scene now r else r)
  round-Settles true t now r s = run_frame-Settles t now r s
  round-Settles false t now r s = s

  frames-Settles :
      (ts : List ℕ) (t : ℕ) (r : Raf)
      → Settles t r
      → ((frames scene (ts ++ (t ∷ [])) r).requested ≡ false)
        × ((frames scene (ts ++ (t ∷ [])) r).flashes ≡ [])
  unfolding frames
  frames-Settles [] t r s = elim (Bool-cases r.requested) [
    | inl e ↦
        simp e (run_frame-stops t r s, (run_frame-Settles t t r s).stopped (run_frame-stops t r s))
    | inr e ↦ simp e (refl, s.stopped e)
  ]
  frames-Settles (now ∷ ts) t r s =
      frames-Settles ts t (if r.requested then run_frame scene now r else r)
        (round-Settles r.requested t now r s)

-- Without a partial piece, or under reduced motion, the loop stops by itself: from the mount on,
-- whatever frames come first, after a frame at a time when every queued flash is over no frame is
-- requested and the queue is empty.
pub frames-stop :
    (scene : Scene) (flashes : List ArrivalFlash) (ts : List ℕ) (t : ℕ)
    → (not scene.reduced_motion && some_partial scene.columns) ≡ false
    → Over t flashes
    → ((frames scene (ts ++ (t ∷ [])) (mount flashes)).requested ≡ false)
      × ((frames scene (ts ++ (t ∷ [])) (mount flashes)).flashes ≡ [])
frames-stop scene flashes ts t still h =
    frames-Settles scene still ts t (mount flashes)
      (record { mounted = refl; over = h; stopped = λ e. cc })

frames-request :
    (scene : Scene) (ts : List ℕ) (r : Raf)
    → scene.reduced_motion ≡ false
    → some_partial scene.columns ≡ true
    → r.running ≡ true
    → r.requested ≡ true
    → (frames scene ts r).requested ≡ true
unfolding frames run_frame
frames-request scene [] r m p a b = b
frames-request scene (now ∷ ts) r m p a b = simp b (
    frames-request scene ts (run_frame scene now r) m p (ground arith)
      (ground (arith, (draw-flashes scene now r.flashes).1)))

frames-unmount : (scene : Scene) (ts : List ℕ) (r : Raf) → frames scene ts (unmount r) ≡ unmount r
unfolding frames unmount
frames-unmount scene [] r = refl
frames-unmount scene (now ∷ ts) r = frames-unmount scene ts r

-- While motion is allowed and a column has a partial piece, the mounted loop keeps requesting
-- frames; after the cleanup it requests none and leaves the queue as it was, whatever comes.
pub frames_alive :
    (scene : Scene) (flashes : List ArrivalFlash) (ts ts' : List ℕ)
    → scene.reduced_motion ≡ false
    → some_partial scene.columns ≡ true
    → ((frames scene ts (mount flashes)).requested ≡ true)
      × (frames scene ts' (unmount (frames scene ts (mount flashes)))
          ≡ unmount (frames scene ts (mount flashes)))
frames_alive scene flashes ts ts' m p = (
  frames-request scene ts (mount flashes) m p refl refl,
  frames-unmount scene ts' (frames scene ts (mount flashes)),
)
