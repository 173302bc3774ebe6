-- ===== src/TaskService/Histories.antt =====
-- Every run of the task service is a history of the repository: the calls that the service makes,
-- between those of the others.
pub mod Refines
use ia_dev_lab.Base.{
  ℕ, suc, String, Bool, true, false, ◌≡◌, refl, sym, ap, subst, ◌∙◌, inl, inr, Option, none, some,
  List, [], ◌∷◌, ◌++◌, All, All-append, Error, Result, ok, err, Exec, Bool-cases, Result-cases,
}
use ia_dev_lab.Repository.Schema.{Db}
use ia_dev_lab.Repository.Steps.{Call, creates, step, run}
use ia_dev_lab.TaskService.{World, TaskService, now, found_db, call, reading, continue}

abbrev pub is_submission : Call → Bool
is_submission (creates id owner criteria model items created_at expires_at) = true
is_submission _ = false

pub run-append : (db : Db) (cs ds : List Call) → run db (cs ++ ds) ≡ run (run db cs) ds
unfolding run
run-append db [] ds = refl
run-append db (c ∷ cs) ds = run-append (step db c) cs ds

-- From one world to a later one, by calls of which `P` holds.
pub record Follows (P : Call → Type 0) (w w' : World) : Type 0 where
  pub calls : List Call
  pub allowed : All P calls
  pub reached : w'.db ≡ run w.db calls
  pub same_others : w'.others ≡ w.others
  pub same_clock : w'.clock ≡ w.clock

-- What the others do is allowed.
abbrev pub Allowed : (Call → Type 0) → World → Type 0
Allowed P w = (k : ℕ) → All P (w.others k)

module _ (P : Call → Type 0) where
  pub Follows-refl : (w : World) → Follows P w w
  unfolding run
  Follows-refl w = record {
    calls = [];
    allowed = tt;
    reached = refl;
    same_others = refl;
    same_clock = refl;
  }

  pub Follows-trans : (u v w : World) → Follows P u v → Follows P v w → Follows P u w
  Follows-trans u v w h k = record {
    calls = h.calls ++ k.calls;
    allowed = All-append P h.calls k.calls h.allowed k.allowed;
    reached = k.reached ∙ ap (λ d. run d k.calls) h.reached ∙ sym (run-append u.db h.calls k.calls);
    same_others = k.same_others ∙ h.same_others;
    same_clock = k.same_clock ∙ h.same_clock;
  }

  pub Follows-Allowed : (w w' : World) → Follows P w w' → Allowed P w → Allowed P w'
  Follows-Allowed w w' h a k = subst (λ (o : ℕ → List Call). All P (o k)) (sym h.same_others) (a k)

  -- A call of the repository whose effect on the tables is that of `c`.
  pub call-Follows :
      {A : Type 0} (f : Db → A × Db) (c : Call) (w : World)
      → ((db : Db) → (f db).1 ≡ step db c)
      → P c
      → Allowed P w
      → Follows P w (call f w).1
  unfolding call run
  call-Follows f c w effect p a = record {
    calls = w.others w.tick ++ c ∷ [];
    allowed = All-append P (w.others w.tick) (c ∷ []) (a w.tick) (p, tt);
    reached = effect (found_db w) ∙ sym (run-append w.db (w.others w.tick) (c ∷ []));
    same_others = refl;
    same_clock = refl;
  }

  pub reading-Follows :
      {A : Type 0} (f : Db → A) (w : World) → Allowed P w → Follows P w (call (reading f) w).1
  unfolding call
  reading-Follows f w a = record {
    calls = w.others w.tick;
    allowed = a w.tick;
    reached = refl;
    same_others = refl;
    same_clock = refl;
  }

  pub continue-Follows :
      {A B : Type 0} (f : A → Exec World B) (w : World) (r : Result A × World)
      → Allowed P w
      → Follows P w r.1
      → ((a : A) (u : World) → Allowed P u → Follows P u (f a u).1)
      → Follows P w (continue f r).1
  continue-Follows f w (err e, u) a h k = h
  continue-Follows f w (ok x, u) a h k =
      Follows-trans w u (f x u).1 h (k x u (Follows-Allowed w u h a))
