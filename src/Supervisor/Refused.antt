-- ===== src/Supervisor/Refused.antt =====
-- What the ticks of internal/supervisor/supervisor.go do to the table: nothing is restarted.
use capper.Prelude.{
  String, Bool, true, false, not, ◌&&◌, ◌||◌, List, [], ◌∷◌, none, map, any, str_eq, eq_iff, ◌≡◌,
  refl, ◌∙◌, ap, inl, inr, Bool-cases, arith, All,
}
use capper.Supervisor
use capper.Supervisor.{
  Instance, Stats, Host, World, RunOptions, status_running, restart_always, restart_on_failure,
  max_session_restarts, count, update_instance, saved, stopped, mark_stopped, restarted,
  run_instance, maybe_restart, visit, visit_all, tick, run,
}

abbrev pub ids : List Instance → List String
ids = map (λ r. r.id)

-- The ids of the table and the counts of the session.
abbrev pub known : World → List String × Stats
known w = (ids w.rows, w.stats)

ids-update_instance :
    (i : Instance) (rows : List Instance) → ids (update_instance i rows) ≡ ids rows
unfolding update_instance
ids-update_instance i [] = refl
ids-update_instance i (r ∷ rows) = ground (arith, ids-update_instance i rows, eq_iff r.id i.id)

ids-saved : (h : Host) (i : Instance) (rows : List Instance) → ids (saved h i rows) ≡ ids rows
unfolding saved
ids-saved h i rows = ground (arith, ids-update_instance i rows)

-- Without a network.
refused :
    (h : Host) (rows : List Instance) (image policy : String)
    → run_instance h rows image (record { restart_policy = policy; network = none }) ≡ none
unfolding run_instance
refused h rows image policy = ground arith

maybe_restart-known : (h : Host) (i : Instance) (w : World) → known (maybe_restart h i w) ≡ known w
unfolding maybe_restart restarted
maybe_restart-known h i w = rw (refused h w.rows i.image i.restart_policy) (
    ground (
      arith,
      ids-saved h (record i { restart_policy = Supervisor.restart_never }) w.rows,
      ids-saved h
          (record i {
            status = Supervisor.status_failed;
            restart_policy = Supervisor.restart_never;
          })
          w.rows,
    ))

visit-known : (h : Host) (i : Instance) (w : World) → known (visit h i w) ≡ known w
unfolding visit mark_stopped
visit-known h i w = ground (
  arith,
  maybe_restart-known h (stopped h i) (mark_stopped h i w),
  ids-saved h (stopped h i) w.rows,
)

visit_all-known : (h : Host) (is : List Instance) (w : World) → known (visit_all h is w) ≡ known w
unfolding visit_all
visit_all-known h [] w = refl
visit_all-known h (i ∷ is) w = visit_all-known h is (visit h i w) ∙ visit-known h i w

tick-known : (h : Host) (w : World) → known (tick h w) ≡ known w
unfolding tick
tick-known h w = ground (arith, visit_all-known h w.rows w)

-- Whatever ticks there are, and whatever they find, no instance is added to the table and no restart is
-- counted: each start that the supervisor asks for is without a network, and is refused.
pub run_unrestarted :
    (hs : List Host) (w : World) → (ids (run hs w).rows ≡ ids w.rows) × ((run hs w).stats ≡ w.stats)
unfolding run
run_unrestarted hs w = let e = go hs w in (ap (λ p. p.0) e, ap (λ p. p.1) e)
  where
    go : (hs : List Host) (w : World) → known (run hs w) ≡ known w
    go [] w = refl
    go (h ∷ hs) w = go hs (tick h w) ∙ tick-known h w

module _ (h : Host) where
  -- Running in the table, without a live process.
  abbrev pub dead : Instance → Bool
  dead r = str_eq r.status status_running && not (h.alive r.pid)

  -- The row is not dead, or a visit to its id is still to come.
  abbrev due : List Instance → Instance → Bool
  due is r = not (dead r) || any (λ j. str_eq j.id r.id && dead j) is

  abbrev Due : List Instance → List Instance → Type 0
  Due is rows = All (λ r. due is r ≡ true) rows

  update-Due :
      (i x : Instance) (is rows : List Instance)
      → str_eq x.status status_running ≡ false
      → str_eq i.id x.id ≡ true
      → Due (i ∷ is) rows
      → Due is (update_instance x rows)
  unfolding update_instance
  update-Due i x is [] d s a = tt
  update-Due i x is (r ∷ rows) d s a = ground (
    arith,
    update-Due i x is rows d s a.1,
    a.0,
    d,
    s,
    eq_iff i.id x.id,
    eq_iff i.id r.id,
    eq_iff r.id x.id,
  )

  again-Due :
      (x : Instance) (is rows : List Instance)
      → str_eq x.status status_running ≡ false
      → Due is rows
      → Due is (update_instance x rows)
  unfolding update_instance
  again-Due x is [] d a = tt
  again-Due x is (r ∷ rows) d a = ground (arith, again-Due x is rows d a.1, a.0, d)

  alive-Due :
      (i : Instance) (is rows : List Instance) → dead i ≡ false → Due (i ∷ is) rows → Due is rows
  alive-Due i is [] d a = tt
  alive-Due i is (r ∷ rows) d a = ground (arith, alive-Due i is rows d a.1, a.0, d)

  later-Due : (i : Instance) (is rows : List Instance) → Due is rows → Due (i ∷ is) rows
  later-Due i is [] a = tt
  later-Due i is (r ∷ rows) a = (ground (arith, a.0), later-Due i is rows a.1)

  own-Due : (rows : List Instance) → Due rows rows
  own-Due [] = tt
  own-Due (r ∷ rows) = (ground (arith, eq_iff r.id r.id), later-Due r rows rows (own-Due rows))

  saved-Due :
      (x : Instance) (is rows : List Instance)
      → str_eq x.status status_running ≡ false
      → Due is rows
      → Due is (saved h x rows)
  unfolding saved
  saved-Due x is rows d a = elim (Bool-cases h.updatable) [
    | inl e ↦ simp e (again-Due x is rows d a)
    | inr e ↦ simp e a
  ]

  maybe_restart-Due :
      (i : Instance) (is : List Instance) (w : World)
      → str_eq i.status status_running ≡ false
      → Due is w.rows
      → Due is (maybe_restart h i w).rows
  unfolding maybe_restart restarted
  maybe_restart-Due i is w d a = rw (refused h w.rows i.image i.restart_policy) (
      ground (
        arith,
        a,
        saved-Due (record i { restart_policy = Supervisor.restart_never }) is w.rows d a,
        saved-Due
            (record i {
              status = Supervisor.status_failed;
              restart_policy = Supervisor.restart_never;
            })
            is w.rows refl a,
      ))

  marked-Due :
      (i : Instance) (is : List Instance) (w : World)
      → h.updatable ≡ true
      → Due (i ∷ is) w.rows
      → Due is (mark_stopped h i w).rows
  unfolding mark_stopped saved
  marked-Due i is w u a =
      ground (arith, u, update-Due i (stopped h i) is w.rows refl ((eq_iff i.id i.id).1 refl) a)

  visit-Due :
      (i : Instance) (is : List Instance) (w : World)
      → h.updatable ≡ true
      → Due (i ∷ is) w.rows
      → Due is (visit h i w).rows
  unfolding visit
  visit-Due i is w u a = ground (
    arith,
    alive-Due i is w.rows,
    a,
    maybe_restart-Due (stopped h i) is (mark_stopped h i w) refl (marked-Due i is w u a),
  )

  visit_all-Due :
      (is : List Instance) (w : World)
      → h.updatable ≡ true
      → Due is w.rows
      → Due [] (visit_all h is w).rows
  unfolding visit_all
  visit_all-Due [] w u a = a
  visit_all-Due (i ∷ is) w u a = visit_all-Due is (visit h i w) u (visit-Due i is w u a)

  done : (rows : List Instance) → Due [] rows → All (λ r. dead r ≡ false) rows
  done [] a = tt
  done (r ∷ rows) a = (ground (arith, a.0), done rows a.1)

  -- After a tick that can read and write the table, no instance is running in it without a live process,
  -- whatever the table held, and though nothing is restarted.
  pub tick_marks :
      (w : World) → h.listed ≡ true → h.updatable ≡ true → All (λ r. dead r ≡ false) (tick h w).rows
  unfolding tick
  tick_marks w l u =
      simp l (done (visit_all h w.rows w).rows (visit_all-Due w.rows w u (own-Due w.rows)))
