-- ===== src/Mover/Vetted/Keep.antt =====
-- The statements and the guards of internal/vpcmover on vetted tables.
use capper.Prelude.{
  String, Bool, true, false, not, List, [], ◌∷◌, some, ◌≡◌, sym, ap, subst, inl, inr, eq_iff,
  str_eq, any, find, Option-cases, arith, All, Bool-cases,
}
use capper.Prelude.Action.{Result, ◌>>◌}
use capper.Prelude.Triple.{Triple, state-Triple}
use capper.Mover
use capper.Mover.{
  Db, Job, Plan, Lock, Faults, Error, Act, refuse_if, ignored, state_of, with_status, plan_blocked,
  plan_validated, plan_approved, found,
}
use capper.Mover.Frames.{Frames, shape, plan_ids}
use capper.Mover.Vetted.{
  IsVetted, IsClean, HasVerdict, named, named-id, mark-IsClean, mark-IsVetted,
}

abbrev pub Backed : String → Db → Type 0
Backed id d = IsVetted d × IsClean d.plans id

shape-IsVetted : (d e : Db) → shape e ≡ shape d → IsVetted d → IsVetted e
shape-IsVetted d e h v = record {
  verdicts =
      subst (λ ps. (id : String) (p : Plan) → named id ps ≡ some p → HasVerdict p)
        (sym (ap (λ x. x.0) h)) v.verdicts;
  clean_jobs = subst (λ x. All (IsClean x.0) x.1) (sym h) v.clean_jobs;
}

shape-Backed : (id : String) (d e : Db) → shape e ≡ shape d → Backed id d → Backed id e
shape-Backed id d e h (v, c) =
    (shape-IsVetted d e h v, subst (λ ps. IsClean ps id) (sym (ap (λ x. x.0) h)) c)

-- A plan whose status is neither "blocked" nor anything but `s` has no errors.
cleared :
    (d : Db) (id s : String) (p : Plan)
    → IsVetted d
    → named id d.plans ≡ some p
    → p.status ≡ s
    → str_eq s plan_blocked ≡ false
    → IsClean d.plans id
unfolding IsClean
cleared d id s p v e h other = elim (v.verdicts id p e) [
  | inl clean ↦ (p, e, clean)
  | inr b ↦ absurd ground (arith, h, b, other, eq_iff s plan_blocked)
]

abbrev pub Looked : String → Plan → Db → Type 0
Looked id p d = IsVetted d × (named id d.plans ≡ some p)

abbrev pub Kept : {A : Type 0} → (Db → Type 0) → Act A → (Db → Type 0) → Type 0
Kept P m Q = Triple IsVetted P m (λ _. Q)

pub Frames-Kept : {A : Type 0} {m : Act A} → Frames m → Kept IsVetted m IsVetted
Frames-Kept {m} f =
    state-Triple IsVetted IsVetted (λ d v. v) (λ d v. shape-IsVetted d (m d).1 (f.frames d) v)

pub Frames-Backed :
    {A : Type 0} {m : Act A} (id : String) → Frames m → Kept (Backed id) m (Backed id)
Frames-Backed {m} id f =
    state-Triple IsVetted (Backed id) (λ d b. b.0) (λ d b. shape-Backed id d (m d).1 (f.frames d) b)

pub ignored-Backed :
    (m : Act (Unit {0})) (id : String)
    → ((d : Db) → Backed id d → Backed id (m d).1)
    → Kept (Backed id) (ignored m) (Backed id)
ignored-Backed m id h = state-Triple IsVetted (Backed id) (λ d b. b.0) (λ d b. go (m d) (h d b))
  where
    go : (r : Result Error (Unit {0}) × Db) → Backed id r.1 → Backed id (state_of r).1
    go (r, d) b = b

abbrev by_id : String → Job → Bool
by_id id j = str_eq j.id id

job-IsClean :
    (ps : List Plan) (id : String) (js : List Job) (j : Job)
    → find (by_id id) js ≡ some j
    → All (IsClean ps) (plan_ids js)
    → IsClean ps j.plan_id
job-IsClean ps id [] j e a = absurd ground arith
job-IsClean ps id (k ∷ ks) j e a = ground (arith, job-IsClean ps id ks j, a, e)

pub any-named :
    (id : String) (ps : List Plan) (p : Plan)
    → named id ps ≡ some p
    → any (λ q. str_eq q.id id) ps ≡ true
any-named id [] p e = absurd ground arith
any-named id (q ∷ ps) p e = ground (arith, any-named id ps p)

module _ (f : Faults) (id : String) where
  pub mark-Backed :
      (status : String) (d : Db)
      → Backed id d
      → Backed id (Mover.update_plan_status f id status d).1
  unfolding Mover.update_plan_status
  mark-Backed status d (v, c) = elim (Bool-cases (f Mover.update_plan)) [
    | inl h ↦ rw h (v, c)
    | inr h ↦ rw h (mark-IsVetted id status d v c, mark-IsClean id status id d.plans c)
  ]

  pub create_job-Kept :
      (j : Job) → j.plan_id ≡ id → Kept (Backed id) (Mover.create_job f j) IsVetted
  unfolding Mover.create_job
  create_job-Kept j e =
      state-Triple IsVetted IsVetted (λ d v. v)
        (λ d b. elim (Bool-cases (f Mover.insert_job)) [
          | inl h ↦ rw h b.0
          | inr h ↦ rw h (elim (Bool-cases (any (λ k. str_eq k.id j.id) d.jobs)) [
            | inl t ↦ rw t b.0
            | inr t ↦ rw t record {
              verdicts = b.0.verdicts;
              clean_jobs = (subst (IsClean d.plans) (sym e) b.1, b.0.clean_jobs);
            }
          ])
        ])

  pub find_plan-Looked : Triple IsVetted IsVetted (Mover.find_plan f id) (λ p. Looked id p)
  unfolding Mover.find_plan
  find_plan-Looked = record {
    holds = λ d v. elim (Bool-cases (f Mover.get_plan)) [
      | inl h ↦ rw h v
      | inr h ↦
          rw h
            (elim (Option-cases (named id d.plans)) [ inl n ↦ rw n v | inr (p, n) ↦ rw n (v, n) ])
    ];
  }

  pub find_job-Backed : Triple IsVetted IsVetted (Mover.find_job f id) (λ j. Backed j.plan_id)
  unfolding Mover.find_job
  find_job-Backed = record {
    holds = λ d v. elim (Bool-cases (f Mover.get_job)) [
      | inl h ↦ rw h v
      | inr h ↦ rw h (elim (Option-cases (find (by_id id) d.jobs)) [
        | inl n ↦ rw n v
        | inr (j, n) ↦ rw n (v, job-IsClean d.plans id d.jobs j n v.clean_jobs)
      ])
    ];
  }

  -- A guard on the status of the plan found.
  pub guard-Cleared :
      {A : Type 0} (p : Plan) (s : String) (e : Error) {m : Act A}
      → str_eq s plan_blocked ≡ false
      → (p.id ≡ id → Kept (Backed id) m IsVetted)
      → Kept (Looked id p) (refuse_if (not (str_eq p.status s)) e >> m) IsVetted
  guard-Cleared p s e {m} other next = record {
    holds = λ d (v, n). elim (Bool-cases (str_eq p.status s)) [
      | inl h ↦ rw h (
          (next (named-id id d.plans p n)).holds d
            (v, cleared d id s p v n ((eq_iff p.status s).0 h) other))
      | inr h ↦ rw h v
    ];
  }
